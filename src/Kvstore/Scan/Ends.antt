-- ===== src/Kvstore/Scan/Ends.antt =====
-- kvstore/open.go: every scan ends: the fuel given is enough for any file.
use kvraft.Base.{ℕ, zero, suc, ◌+◌, ◌<◌, ◌≢◌, inl, inr, Bool, Bytes, arith, length}
use kvraft.Kvstore.Types.{Error, Result-cases}
use kvraft.Kvstore.Codec.{decode_data_record, decode_hint_record}
use kvraft.Kvstore.Codec.Progress.{decode_data_record-Progress, decode_hint_record-Progress}
use kvraft.Kvstore.Keydir.{Keydir, apply_keydir_update}
use kvraft.Kvstore.Scan.{
  out_of_fuel, scan_end, scan_record, scan_loop, scan_data_file, hint_entry, scan_hint_loop,
  scan_hint_file,
}

scan_end-ne-out_of_fuel :
    (allow : Bool) (last_good : ℕ) (keydir : Keydir) (e : Error)
    → scan_end allow last_good keydir e ≢ out_of_fuel
unfolding scan_end
scan_end-ne-out_of_fuel allow last_good keydir e = ground arith

module _ (file_id : ℕ) (allow : Bool) where
  scan_loop-ends :
      (fuel offset : ℕ) (keydir : Keydir) (r : Bytes)
      → length r < fuel
      → scan_loop fuel file_id allow offset keydir r ≢ out_of_fuel
  unfolding scan_loop
  scan_loop-ends zero offset keydir r h = absurd (omega arith)
  scan_loop-ends (suc fuel) offset keydir r h = elim (Result-cases (decode_data_record r)) [
    | inl ((rec, size, rest), good) ↦
        let p = decode_data_record-Progress r good in
        rw (good, scan_loop)
          (scan_loop-ends fuel (offset + size) (scan_record file_id offset keydir rec size) rest
            (omega (arith, p.0, p.1)))
    | inr (e, stops) ↦ rw (stops, scan_loop) (scan_end-ne-out_of_fuel allow offset keydir e)
  ]

scan_hint_loop-ends :
    (file_id fuel : ℕ) (keydir : Keydir) (r : Bytes)
    → length r < fuel
    → scan_hint_loop fuel file_id keydir r ≢ out_of_fuel
unfolding scan_hint_loop
scan_hint_loop-ends file_id zero keydir r h = absurd (omega arith)
scan_hint_loop-ends file_id (suc fuel) keydir r h = elim (Result-cases (decode_hint_record r)) [
  | inl ((hr, size, rest), good) ↦
      let p = decode_hint_record-Progress r good in
      rw (good, scan_hint_loop)
        (scan_hint_loop-ends file_id fuel
          (apply_keydir_update keydir hr.key (hint_entry file_id hr) hr.tombstone) rest
          (omega (arith, p.0, p.1)))
  | inr (e, stops) ↦ rw (stops, scan_hint_loop) (ground arith)
]

-- Whatever the bytes of the file are, the scan of a data file and the scan of a hint file come to an
-- end within the fuel that they are given.
pub scan_ends :
    (file_id : ℕ) (allow : Bool) (keydir : Keydir) (contents : Bytes)
    → (scan_data_file file_id allow keydir contents ≢ out_of_fuel)
      × (scan_hint_file file_id keydir contents ≢ out_of_fuel)
unfolding scan_data_file scan_hint_file
scan_ends file_id allow keydir contents = (
  scan_loop-ends file_id allow (length contents + 1) 0 keydir contents (omega arith),
  scan_hint_loop-ends file_id (length contents + 1) keydir contents (omega arith),
)
