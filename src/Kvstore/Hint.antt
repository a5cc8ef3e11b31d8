-- ===== src/Kvstore/Hint.antt =====
-- kvstore/write.go: the loop of writeHintForDataFile, from the bytes of a data file to those of its
-- hint file.
pub mod Equivalent
pub mod Ends
use kvraft.Base.{
  ℕ, zero, suc, ◌+◌, ◌%◌, ◌^◌, Option, none, some, List, [], ◌++◌, Bytes, length, eq_bytes,
}
use kvraft.Base.Int.{pos}
use kvraft.Kvstore.Types.{Error, eof, Result, ok, err, tombstone_value, DecodedRecord, HintRecord}
use kvraft.Kvstore.Codec.{decode_data_record, encode_hint_record}

pub hint_of : ℕ → DecodedRecord → ℕ → HintRecord
hint_of offset rec size = record {
  timestamp = rec.timestamp;
  key = rec.key;
  record_off = pos offset;
  record_size = size % 2 ^ 32;
  tombstone = eq_bytes rec.value tombstone_value;
}

-- `none` says that the fuel ran out; `written` is the hint file so far.
pub hint_loop : ℕ → ℕ → Bytes → Bytes → Option (Result Bytes)
hint_loop zero offset written r = none
hint_loop (suc fuel) offset written r = elim (decode_data_record r) [
  | ok (rec, size, rest) ↦
      hint_loop fuel (offset + size) (written ++ encode_hint_record (hint_of offset rec size)) rest
  | err e ↦ elim e [ eof ↦ some (ok written) | other ↦ some (err other) ]
]

-- Every round but the last reads at least the twenty bytes in front of a record.
unfoldable pub hint_file_of : Bytes → Option (Result Bytes)
hint_file_of contents = hint_loop (length contents + 1) 0 [] contents
