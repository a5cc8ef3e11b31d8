-- ===== src/Kvstore/Scan.antt =====
-- kvstore/open.go: scanDataFile and scanHintFile. A file is the list of its bytes.
pub mod Replay
pub mod Ends
use kvraft.Base.{
  ℕ, zero, suc, ◌+◌, ◌%◌, ◌^◌, Bool, true, false, not, ◌&&◌, Option, none, some, Bytes, length,
  eq_bytes, if◌then◌else◌,
}
use kvraft.Base.Int.{pos}
use kvraft.Kvstore.Types.{
  Error, eof, unexpected_eof, corrupt_data, ok, err, tombstone_value, KeyDirEntry, DecodedRecord,
  HintRecord,
}
use kvraft.Kvstore.Codec.{decode_data_record, decode_hint_record}
use kvraft.Kvstore.Keydir.{Keydir, apply_keydir_update}

-- The keydir after a scan, with the size to which the file is cut if it is; or the error.
pub data ScanResult : Type 0 where
  scanned : Keydir → Option ℕ → ScanResult
  failed : Keydir → Error → ScanResult
  out_of_fuel : ScanResult

abbrev is_tail_truncation_error : Error → Bool
is_tail_truncation_error eof = true
is_tail_truncation_error unexpected_eof = true
is_tail_truncation_error _ = false

abbrev is_corrupt_data : Error → Bool
is_corrupt_data corrupt_data = true
is_corrupt_data _ = false

-- The error branches of the loop, at the end of the last good record.
pub scan_end : Bool → ℕ → Keydir → Error → ScanResult
scan_end allow_tail_truncate last_good keydir eof = scanned keydir none
scan_end allow_tail_truncate last_good keydir e =
    if allow_tail_truncate && is_tail_truncation_error e
    then scanned keydir (some last_good)
    else if is_corrupt_data e
    then failed keydir corrupt_data
    else if not allow_tail_truncate
    then failed keydir corrupt_data
    else failed keydir e

unfoldable pub scan_record : ℕ → ℕ → Keydir → DecodedRecord → ℕ → Keydir
scan_record file_id offset keydir rec size =
    apply_keydir_update keydir rec.key
      (record {
        file_id = file_id;
        file_offset = pos offset;
        record_size = size % 2 ^ 32;
        time_stamp = rec.timestamp;
      })
      (eq_bytes rec.value tombstone_value)

-- `offset` is `lastGoodOffset` too: the loop sets both to the end of each good record.
pub scan_loop : ℕ → ℕ → Bool → ℕ → Keydir → Bytes → ScanResult
scan_loop zero file_id allow offset keydir r = out_of_fuel
scan_loop (suc fuel) file_id allow offset keydir r = elim (decode_data_record r) [
  | ok (rec, size, rest) ↦
      scan_loop fuel file_id allow (offset + size) (scan_record file_id offset keydir rec size) rest
  | err e ↦ scan_end allow offset keydir e
]

-- Every round but the last reads at least the twenty bytes in front of a record.
unfoldable pub scan_data_file : ℕ → Bool → Keydir → Bytes → ScanResult
scan_data_file file_id allow_tail_truncate keydir contents =
    scan_loop (length contents + 1) file_id allow_tail_truncate 0 keydir contents

unfoldable pub hint_entry : ℕ → HintRecord → KeyDirEntry
hint_entry file_id hr = record {
  file_id = file_id;
  file_offset = hr.record_off;
  record_size = hr.record_size;
  time_stamp = hr.timestamp;
}

unfoldable pub scan_hint_loop : ℕ → ℕ → Keydir → Bytes → ScanResult
scan_hint_loop zero file_id keydir r = out_of_fuel
scan_hint_loop (suc fuel) file_id keydir r = elim (decode_hint_record r) [
  | ok (hr, _, rest) ↦
      scan_hint_loop fuel file_id
        (apply_keydir_update keydir hr.key (hint_entry file_id hr) hr.tombstone) rest
  | err e ↦ elim e [ eof ↦ scanned keydir none | other ↦ failed keydir other ]
]

unfoldable pub scan_hint_file : ℕ → Keydir → Bytes → ScanResult
scan_hint_file file_id keydir contents =
    scan_hint_loop (length contents + 1) file_id keydir contents
