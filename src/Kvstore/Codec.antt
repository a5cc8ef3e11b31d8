-- ===== src/Kvstore/Codec.antt =====
-- kvstore/codec.go: records of data and hint files. A reader is the list of the bytes ahead of it.
pub mod RoundTrip
pub mod Torn
pub mod Hints
pub mod Progress
use kvraft.Base.{
  ℕ, zero, suc, ◌+◌, ◌%◌, ◌^◌, Bool, true, false, ◌&&◌, List, [], ◌∷◌, ◌++◌, Bytes, length, take,
  drop, ltb, ◌==◌, if◌then◌else◌,
}
use kvraft.Base.Int.{ℤ}
use kvraft.Kvstore.Types.{
  Result, ok, err, eof, unexpected_eof, corrupt_data, ◌>>=◌, DecodedRecord, HintRecord,
}
use kvraft.Kvstore.Words.{le_bytes, le_value, int64, uint64, checksum_ieee}

-- `io.ReadFull` into `k` bytes: at the end of the input, and inside, the errors differ.
unfoldable pub read_full : ℕ → Bytes → Result (Bytes × Bytes)
read_full zero r = ok ([], r)
read_full (suc k) [] = err eof
read_full (suc k) (b ∷ r) =
    if ltb (length r) k then err unexpected_eof else ok (b ∷ take k r, drop k r)

-- The record behind the four bytes of its checksum, once its parts are read.
pub check_record : Bytes → Bytes → Bytes → Bytes → Bytes → Result (DecodedRecord × ℕ × Bytes)
check_record crc meta key value rest =
    if checksum_ieee (meta ++ (key ++ value)) == le_value crc
    then ok (
      record { timestamp = int64 (le_value (take 8 meta)); key = key; value = value },
      4 + 16 + le_value (take 4 (drop 8 meta)) + le_value (take 4 (drop 12 meta)),
      rest,
    )
    else err corrupt_data

-- The record, its size, and the reader behind it.
unfoldable pub decode_data_record : Bytes → Result (DecodedRecord × ℕ × Bytes)
decode_data_record r = do
  (crc, r1) ← read_full 4 r
  (meta, r2) ← read_full 16 r1
  (key, r3) ← read_full (le_value (take 4 (drop 8 meta))) r2
  (value, r4) ← read_full (le_value (take 4 (drop 12 meta))) r3
  check_record crc meta key value r4

-- timestamp, key size and value size
abbrev pub data_meta : ℤ → Bytes → Bytes → Bytes
data_meta timestamp key value =
    le_bytes 8 (uint64 timestamp)
    ++ (le_bytes 4 (length key % 2 ^ 32) ++ le_bytes 4 (length value % 2 ^ 32))

-- Writes into a bytes.Buffer never fail.
unfoldable pub encode_data_record : ℤ → Bytes → Bytes → Bytes
encode_data_record timestamp key value =
    le_bytes 4 (checksum_ieee (data_meta timestamp key value ++ (key ++ value)))
    ++ (data_meta timestamp key value ++ (key ++ value))

-- What a hint record writes; the writer is the file's, and may fail.
pub encode_hint_record : HintRecord → Bytes
encode_hint_record hr =
    le_bytes 8 (uint64 hr.timestamp)
    ++ (le_bytes 8 (uint64 hr.record_off)
        ++ (le_bytes 4 hr.record_size
            ++ (le_bytes 1 (if hr.tombstone then 1 else 0)
                ++ (le_bytes 4 (length hr.key % 2 ^ 32) ++ hr.key))))

unfoldable pub decode_hint_record : Bytes → Result (HintRecord × ℕ × Bytes)
decode_hint_record r = do
  (ts, r1) ← read_full 8 r
  (off, r2) ← read_full 8 r1
  (size, r3) ← read_full 4 r2
  (tombstone, r4) ← read_full 1 r3
  (key_size, r5) ← read_full 4 r4
  (key, r6) ← read_full (le_value key_size) r5
  ok (
    record {
      timestamp = int64 (le_value ts);
      key = key;
      record_off = int64 (le_value off);
      record_size = le_value size;
      tombstone = le_value tombstone == 1;
    },
    8 + 8 + 4 + 1 + 4 + le_value key_size,
    r6,
  )
