-- ===== src/Kvstore/Codec/RoundTrip.antt =====
-- An encoded data record is read back, whatever follows it.
use native.Mathlib.Nat.{mod-eq_of_lt}
use kvraft.Base.{
  take_all, drop-append_add, ◌∙◌, ℕ, zero, suc, ◌+◌, ◌%◌, ◌^◌, ◌<◌, ◌≡◌, refl, [], ◌∷◌, ◌++◌, Bytes,
  arith, length, take, drop, ==_iff, length-append, take-append_self, drop-append_self,
  append_assoc,
}
use kvraft.Base.Int.{ℤ}
use kvraft.Kvstore.Types.{ok}
use kvraft.Kvstore.Words.{
  le_bytes, le_value, int64, uint64, checksum_ieee, checksum_ieee-lt, length-le_bytes,
  le_value-le_bytes, int64-uint64, uint64-lt, IsInt64,
}
use kvraft.Kvstore.Codec.{
  read_full, decode_data_record, check_record, encode_data_record, data_meta,
}

-- A record that fits the format: an int64 timestamp and sizes below 2 ^ 32.
pub record Fits (timestamp : ℤ) (key value : Bytes) : Type 0 where
  pub timestamp_fits : IsInt64 timestamp
  pub key_fits : length key < 2 ^ 32
  pub value_fits : length value < 2 ^ 32

pub read_full-append : (k : ℕ) (a b : Bytes) → k ≡ length a → read_full k (a ++ b) ≡ ok (a, b)
unfolding read_full
read_full-append zero [] b e = refl
read_full-append zero (x ∷ a) b e = absurd (omega arith)
read_full-append (suc k) [] b e = absurd (omega arith)
read_full-append (suc k) (x ∷ a) b e = ground (
  arith,
  take-append_self k a b (omega arith),
  drop-append_self k a b (omega arith),
  length-append a b,
)

module _ (ts : ℤ) (key value : Bytes) where
  abbrev ts_bytes : Bytes
  ts_bytes = le_bytes 8 (uint64 ts)

  abbrev key_bytes : Bytes
  key_bytes = le_bytes 4 (length key % 2 ^ 32)

  abbrev value_bytes : Bytes
  value_bytes = le_bytes 4 (length value % 2 ^ 32)

  pub length-data_meta : length (data_meta ts key value) ≡ 16
  length-data_meta = omega (
    arith,
    length-append ts_bytes (key_bytes ++ value_bytes),
    length-append key_bytes value_bytes,
    length-le_bytes,
  )

  -- The three fields, read back.
  pub meta_timestamp : IsInt64 ts → int64 (le_value (take 8 (data_meta ts key value))) ≡ ts
  meta_timestamp h =
      rw (take-append_self 8 ts_bytes (key_bytes ++ value_bytes) (omega (arith, length-le_bytes)))
        (rw (le_value-le_bytes 8 (uint64 ts) (uint64-lt ts)) (int64-uint64 ts h))

  pub meta_key_size :
      length key < 2 ^ 32 → le_value (take 4 (drop 8 (data_meta ts key value))) ≡ length key
  meta_key_size h =
      rw (drop-append_self 8 ts_bytes (key_bytes ++ value_bytes) (omega (arith, length-le_bytes))) (
        rw (take-append_self 4 key_bytes value_bytes (omega (arith, length-le_bytes)))
          (le_value-le_bytes 4 (length key % 2 ^ 32) (omega arith) ∙ mod-eq_of_lt h))

  pub meta_value_size :
      length value < 2 ^ 32 → le_value (take 4 (drop 12 (data_meta ts key value))) ≡ length value
  meta_value_size h =
      rw (drop-append_add 12 4 ts_bytes (key_bytes ++ value_bytes) (omega (arith, length-le_bytes)))
        (rw (drop-append_self 4 key_bytes value_bytes (omega (arith, length-le_bytes))) (
          rw (take_all 4 value_bytes (omega (arith, length-le_bytes)))
            (le_value-le_bytes 4 (length value % 2 ^ 32) (omega arith) ∙ mod-eq_of_lt h)))

abbrev pub crc_of : ℤ → Bytes → Bytes → Bytes
crc_of ts key value = le_bytes 4 (checksum_ieee (data_meta ts key value ++ (key ++ value)))

-- `decode_data_record`, part by part: where it stops, and what it checks at the end.
module _ (r crc r1 meta r2 key r3 value r4 : Bytes) where
  pub decode_parts :
      read_full 4 r ≡ ok (crc, r1)
      → read_full 16 r1 ≡ ok (meta, r2)
      → read_full (le_value (take 4 (drop 8 meta))) r2 ≡ ok (key, r3)
      → read_full (le_value (take 4 (drop 12 meta))) r3 ≡ ok (value, r4)
      → decode_data_record r ≡ check_record crc meta key value r4
  unfolding decode_data_record
  decode_parts a b c d = rw a (rw b (rw c (rw d)))

-- The checksum matches, and the size is that of the four parts.
pub check_record_lem :
    (ts : ℤ) (key value rest : Bytes)
    → Fits ts key value
    → check_record (crc_of ts key value) (data_meta ts key value) key value rest
      ≡ ok (
        record { timestamp = ts; key = key; value = value },
        20 + length key + length value,
        rest,
      )
unfolding check_record
check_record_lem ts key value rest fits =
    rw (le_value-le_bytes 4 (checksum_ieee payload) (checksum_ieee-lt payload)) (
      rw ((==_iff (checksum_ieee payload) _).1 refl) (
        rw (meta_timestamp ts key value fits.timestamp_fits) (
          rw (meta_key_size ts key value fits.key_fits)
            (rw (meta_value_size ts key value fits.value_fits)))))
  where
    payload : Bytes
    payload = data_meta ts key value ++ (key ++ value)

-- The encoding in its four parts.
pub encode_parts :
    (ts : ℤ) (key value rest : Bytes)
    → encode_data_record ts key value ++ rest
      ≡ crc_of ts key value ++ (data_meta ts key value ++ (key ++ (value ++ rest)))
unfolding encode_data_record
encode_parts ts key value rest =
    regroup (crc_of ts key value) (data_meta ts key value) key value rest
  where
    regroup : (a b c d e : Bytes) → (a ++ (b ++ (c ++ d))) ++ e ≡ a ++ (b ++ (c ++ (d ++ e)))
    regroup a b c d e = simp append_assoc

-- Reading what was encoded of a record that fits the format gives the record, the size of its
-- encoding, and the bytes behind it.
pub decode-encode :
    (ts : ℤ) (key value rest : Bytes)
    → Fits ts key value
    → decode_data_record (encode_data_record ts key value ++ rest)
      ≡ ok (
        record { timestamp = ts; key = key; value = value },
        20 + length key + length value,
        rest,
      )
decode-encode ts key value rest fits = rw (encode_parts ts key value rest) (
    decode_parts _ (crc_of ts key value) _ (data_meta ts key value) _ key _ value rest
      (read_full-append 4 (crc_of ts key value) _ (omega (arith, length-le_bytes)))
      (read_full-append 16 (data_meta ts key value) _
        (omega (arith, length-data_meta ts key value)))
      (read_full-append _ key _ (meta_key_size ts key value fits.key_fits))
      (read_full-append _ value _ (meta_value_size ts key value fits.value_fits))
    ∙ check_record_lem ts key value rest fits)

pub length-encode :
    (ts : ℤ) (key value : Bytes)
    → length (encode_data_record ts key value) ≡ 20 + length key + length value
unfolding encode_data_record
length-encode ts key value = omega (
  arith,
  length-append (crc_of ts key value) (data_meta ts key value ++ (key ++ value)),
  length-append (data_meta ts key value) (key ++ value),
  length-append key value,
  length-data_meta ts key value,
  length-le_bytes,
)
