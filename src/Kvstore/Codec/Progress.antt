-- ===== src/Kvstore/Codec/Progress.antt =====
-- kvstore/codec.go: a record that was read leaves a shorter input, by its own size.
use kvraft.Base.{
  ℕ, zero, suc, ◌+◌, ◌≤◌, ◌≡◌, [], ◌∷◌, Bytes, arith, length, take, drop, length-drop,
}
use kvraft.Kvstore.Types.{ok, >>=-eq-ok, DecodedRecord, HintRecord}
use kvraft.Kvstore.Words.{le_value}
use kvraft.Kvstore.Codec.{read_full, check_record, decode_data_record, decode_hint_record}

read_full-length :
    (k : ℕ) (r : Bytes) {a rest : Bytes} → read_full k r ≡ ok (a, rest) → length r ≡ k + length rest
unfolding read_full
read_full-length zero r h = ground (arith, h)
read_full-length (suc k) [] h = ground (arith, h)
read_full-length (suc k) (b ∷ r) h = ground (arith, h, length-drop k r)

-- A record that was read is as long as it says, and at least twenty bytes long.
pub decode_data_record-Progress :
    (r : Bytes) {rec : DecodedRecord} {size : ℕ} {rest : Bytes}
    → decode_data_record r ≡ ok (rec, size, rest)
    → (length r ≡ size + length rest) × (20 ≤ size)
unfolding decode_data_record check_record
decode_data_record-Progress r h =
    let ((crc, r1), h1, h) = >>=-eq-ok (read_full 4 r) _ h in
    let ((meta, r2), h2, h) = >>=-eq-ok (read_full 16 r1) _ h in
    let ((key, r3), h3, h) = >>=-eq-ok (read_full (le_value (take 4 (drop 8 meta))) r2) _ h in
    let ((value, r4), h4, h) = >>=-eq-ok (read_full (le_value (take 4 (drop 12 meta))) r3) _ h in
    ground (
      arith,
      h,
      read_full-length 4 r h1,
      read_full-length 16 r1 h2,
      read_full-length (le_value (take 4 (drop 8 meta))) r2 h3,
      read_full-length (le_value (take 4 (drop 12 meta))) r3 h4,
    )

pub decode_hint_record-Progress :
    (r : Bytes) {hr : HintRecord} {size : ℕ} {rest : Bytes}
    → decode_hint_record r ≡ ok (hr, size, rest)
    → (length r ≡ size + length rest) × (25 ≤ size)
unfolding decode_hint_record
decode_hint_record-Progress r h =
    let ((ts, r1), h1, h) = >>=-eq-ok (read_full 8 r) _ h in
    let ((off, r2), h2, h) = >>=-eq-ok (read_full 8 r1) _ h in
    let ((size, r3), h3, h) = >>=-eq-ok (read_full 4 r2) _ h in
    let ((tombstone, r4), h4, h) = >>=-eq-ok (read_full 1 r3) _ h in
    let ((key_size, r5), h5, h) = >>=-eq-ok (read_full 4 r4) _ h in
    let ((key, r6), h6, h) = >>=-eq-ok (read_full (le_value key_size) r5) _ h in
    ground (
      arith,
      h,
      read_full-length 8 r h1,
      read_full-length 8 r1 h2,
      read_full-length 4 r2 h3,
      read_full-length 1 r3 h4,
      read_full-length 4 r4 h5,
      read_full-length (le_value key_size) r5 h6,
    )
