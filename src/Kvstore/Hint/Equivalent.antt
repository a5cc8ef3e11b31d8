-- ===== src/Kvstore/Hint/Equivalent.antt =====
-- Starting from a hint file is starting from the data file that it was written for.
use kvraft.Base.{
  ℕ, zero, suc, ◌+◌, ◌-◌, ◌^◌, ◌≤◌, ◌<◌, ◌≡◌, refl, sym, ap, ◌∙◌, Bool, none, some, List, [], ◌∷◌,
  ◌++◌, Bytes, arith, length, append-nil, append_assoc, length-append,
}
use kvraft.Kvstore.Types.{eof, ok, err, DecodedRecord, HintRecord}
use kvraft.Kvstore.Codec.{read_full, decode_data_record, decode_hint_record, encode_hint_record}
use kvraft.Kvstore.Codec.RoundTrip.{decode-encode}
use kvraft.Kvstore.Codec.Hints.{HintFits, decode_hint-encode_hint, length-encode_hint-pos}
use kvraft.Kvstore.Keydir.{Keydir, apply_keydir_update}
use kvraft.Kvstore.Scan.{
  scanned, scan_record, scan_data_file, hint_entry, scan_hint_loop, scan_hint_file,
}
use kvraft.Kvstore.Scan.Replay.{
  encode_all, record_bytes, total_bytes, AllFit, replay, length-encode_all, length-le-total_bytes,
  scan_data_file-replay,
}
use kvraft.Kvstore.Hint.{hint_of, hint_loop, hint_file_of}

-- The hints of records that stand one after another from `offset` on.
pub hints_of : ℕ → List DecodedRecord → Bytes
hints_of offset [] = []
hints_of offset (r ∷ rs) =
    encode_hint_record (hint_of offset r (record_bytes r)) ++ hints_of (offset + record_bytes r) rs

decode-nil : decode_data_record [] ≡ err eof
unfolding decode_data_record read_full
decode-nil = refl

decode_hint-nil : decode_hint_record [] ≡ err eof
unfolding decode_hint_record read_full
decode_hint-nil = refl

module _ (fuel offset : ℕ) (acc r : Bytes) where
  hint_loop-steps :
      (rec : DecodedRecord) (size : ℕ) (rest : Bytes)
      → decode_data_record r ≡ ok (rec, size, rest)
      → hint_loop (suc fuel) offset acc r
        ≡ hint_loop fuel (offset + size) (acc ++ encode_hint_record (hint_of offset rec size)) rest
  unfolding hint_loop
  hint_loop-steps rec size rest good = rw (good, hint_loop)

  hint_loop-ends :
      decode_data_record r ≡ err eof → hint_loop (suc fuel) offset acc r ≡ some (ok acc)
  unfolding hint_loop
  hint_loop-ends stops = rw (stops, hint_loop)

hint_loop-hints_of :
    (total fuel offset : ℕ) (acc : Bytes) (rs : List DecodedRecord)
    → total ≡ length rs + suc fuel
    → AllFit rs
    → hint_loop total offset acc (encode_all rs) ≡ some (ok (acc ++ hints_of offset rs))
unfolding hints_of
hint_loop-hints_of total fuel offset acc [] e fits =
    let e' : total ≡ suc fuel = omega arith in
    rw (e', append-nil acc) (hint_loop-ends fuel offset acc [] decode-nil)
hint_loop-hints_of zero fuel offset acc (r ∷ rs) e fits = absurd (omega arith)
hint_loop-hints_of (suc total) fuel offset acc (r ∷ rs) e fits =
    hint_loop-steps total offset acc _ r (record_bytes r) (encode_all rs)
      (decode-encode r.timestamp r.key r.value (encode_all rs) fits.0)
    ∙ hint_loop-hints_of total fuel (offset + record_bytes r)
        (acc ++ encode_hint_record (hint_of offset r (record_bytes r))) rs (omega arith) fits.1
    ∙ ap (λ (x : Bytes). some (ok x)) (append_assoc acc _ _)

module _ (fuel file_id : ℕ) (keydir : Keydir) (r : Bytes) where
  scan_hint_loop-steps :
      (hr : HintRecord) (size : ℕ) (rest : Bytes)
      → decode_hint_record r ≡ ok (hr, size, rest)
      → scan_hint_loop (suc fuel) file_id keydir r
        ≡ scan_hint_loop fuel file_id
            (apply_keydir_update keydir hr.key (hint_entry file_id hr) hr.tombstone)
            rest
  unfolding scan_hint_loop
  scan_hint_loop-steps hr size rest good = rw (good, scan_hint_loop)

  scan_hint_loop-ends :
      decode_hint_record r ≡ err eof
      → scan_hint_loop (suc fuel) file_id keydir r ≡ scanned keydir none
  unfolding scan_hint_loop
  scan_hint_loop-ends stops = rw (stops, scan_hint_loop)

scan_hint_loop-replay :
    (total fuel file_id offset : ℕ) (keydir : Keydir) (rs : List DecodedRecord)
    → total ≡ length rs + suc fuel
    → offset + total_bytes rs < 2 ^ 63
    → AllFit rs
    → scan_hint_loop total file_id keydir (hints_of offset rs)
      ≡ scanned (replay file_id offset keydir rs) none
unfolding hints_of replay hint_of hint_entry scan_record
scan_hint_loop-replay total fuel file_id offset keydir [] e small fits =
    let e' : total ≡ suc fuel = omega arith in
    rw e' (scan_hint_loop-ends fuel file_id keydir [] decode_hint-nil)
scan_hint_loop-replay zero fuel file_id offset keydir (r ∷ rs) e small fits = absurd (omega arith)
scan_hint_loop-replay (suc total) fuel file_id offset keydir (r ∷ rs) e small fits =
    scan_hint_loop-steps total file_id keydir _ (hint_of offset r (record_bytes r)) _
      (hints_of (offset + record_bytes r) rs)
      (decode_hint-encode_hint (hint_of offset r (record_bytes r))
        (hints_of (offset + record_bytes r) rs) hint_fits)
    ∙ scan_hint_loop-replay total fuel file_id (offset + record_bytes r)
        (scan_record file_id offset keydir r (record_bytes r)) rs (omega arith) (omega arith) fits.1
  where
    hint_fits : HintFits (hint_of offset r (record_bytes r))
    hint_fits =
        unfold hint_of in
        record {
          timestamp_fits = fits.0.timestamp_fits;
          record_off_fits = omega arith;
          record_size_fits = omega arith;
          key_fits = fits.0.key_fits;
        }

length-le-hints_of :
    (offset : ℕ) (rs : List DecodedRecord) → length rs ≤ length (hints_of offset rs)
unfolding hints_of
length-le-hints_of offset [] = omega arith
length-le-hints_of offset (r ∷ rs) = omega (
  arith,
  length-append (encode_hint_record (hint_of offset r (record_bytes r)))
      (hints_of (offset + record_bytes r) rs),
  length-encode_hint-pos (hint_of offset r (record_bytes r)),
  length-le-hints_of (offset + record_bytes r) rs,
)

-- For a data file of whole records that fit the format, of fewer than 2 ^ 63 bytes, a hint file
-- is written, and scanning it gives the very keydir that scanning the data file gives.
pub hint_file-equivalent :
    (file_id : ℕ) (allow : Bool) (keydir : Keydir) (rs : List DecodedRecord)
    → AllFit rs
    → total_bytes rs < 2 ^ 63
    → (hints : Bytes) × (hint_file_of (encode_all rs) ≡ some (ok hints))
      × (scan_hint_file file_id keydir hints ≡ scan_data_file file_id allow keydir (encode_all rs))
unfolding hint_file_of scan_hint_file
hint_file-equivalent file_id allow keydir rs fits small = (
  hints_of 0 rs,
  hint_loop-hints_of (length (encode_all rs) + 1) (total_bytes rs - length rs) 0 [] rs
      (omega (arith, length-encode_all rs, length-le-total_bytes rs)) fits,
  scan_hint_loop-replay (length (hints_of 0 rs) + 1) (length (hints_of 0 rs) - length rs) file_id 0
        keydir rs (omega (arith, length-le-hints_of 0 rs)) (omega arith) fits
      ∙ sym (scan_data_file-replay file_id allow keydir rs fits),
)
