-- ===== src/Kvstore/Scan/Replay.antt =====
-- Scanning a data file replays the records that were written to it, also after a torn write.
use kvraft.Base.{
  Bool-cases, inl, inr, ℕ, zero, suc, ◌+◌, ◌-◌, ◌≤◌, ◌<◌, ◌≡◌, refl, ◌∙◌, Bool, none, some, List,
  [], ◌∷◌, ◌++◌, Bytes, arith, length, take, if◌then◌else◌, append-nil, append_assoc, length-append,
}
use kvraft.Kvstore.Types.{Error, eof, unexpected_eof, corrupt_data, ok, err, DecodedRecord}
use kvraft.Kvstore.Codec.{read_full, decode_data_record, encode_data_record}
use kvraft.Kvstore.Codec.RoundTrip.{Fits, decode-encode, length-encode}
use kvraft.Kvstore.Codec.Torn.{decode_torn, at_boundary}
use kvraft.Kvstore.Keydir.{Keydir}
use kvraft.Kvstore.Scan.{scanned, failed, scan_end, scan_record, scan_loop, scan_data_file}

abbrev pub encode : DecodedRecord → Bytes
encode r = encode_data_record r.timestamp r.key r.value

abbrev pub record_bytes : DecodedRecord → ℕ
record_bytes r = 20 + length r.key + length r.value

abbrev pub encode_all : List DecodedRecord → Bytes
encode_all [] = []
encode_all (r ∷ rs) = encode r ++ encode_all rs

abbrev pub AllFit : List DecodedRecord → Type 0
AllFit [] = Unit
AllFit (r ∷ rs) = Fits r.timestamp r.key r.value × AllFit rs

-- The keydir and the offset after the records of a list, from those before it.
unfoldable pub replay : ℕ → ℕ → Keydir → List DecodedRecord → Keydir
replay file_id offset keydir [] = keydir
replay file_id offset keydir (r ∷ rs) =
    replay file_id (offset + record_bytes r) (scan_record file_id offset keydir r (record_bytes r))
      rs

abbrev pub total_bytes : List DecodedRecord → ℕ
total_bytes [] = 0
total_bytes (r ∷ rs) = record_bytes r + total_bytes rs

pub length-encode_all : (rs : List DecodedRecord) → length (encode_all rs) ≡ total_bytes rs
length-encode_all [] = refl
length-encode_all (r ∷ rs) = omega (
  arith,
  length-append (encode r) (encode_all rs),
  length-encode r.timestamp r.key r.value,
  length-encode_all rs,
)

pub length-le-total_bytes : (rs : List DecodedRecord) → length rs ≤ total_bytes rs
length-le-total_bytes [] = omega arith
length-le-total_bytes (r ∷ rs) = omega (arith, length-le-total_bytes rs)

module _ (fuel file_id : ℕ) (allow : Bool) (offset : ℕ) (keydir : Keydir) (r : Bytes) where
  -- A round on a record, and the last one, on what cannot be read.
  scan_loop-steps :
      (rec : DecodedRecord) (size : ℕ) (rest : Bytes)
      → decode_data_record r ≡ ok (rec, size, rest)
      → scan_loop (suc fuel) file_id allow offset keydir r
        ≡ scan_loop fuel file_id allow
            (offset + size)
            (scan_record file_id offset keydir rec size)
            rest
  unfolding scan_loop
  scan_loop-steps rec size rest good = rw (good, scan_loop)

  scan_loop-stops :
      (e : Error)
      → decode_data_record r ≡ err e
      → scan_loop (suc fuel) file_id allow offset keydir r ≡ scan_end allow offset keydir e
  unfolding scan_loop
  scan_loop-stops e stops = rw (stops, scan_loop)

scan_loop-replay :
    (total fuel file_id : ℕ) (allow : Bool) (offset end : ℕ) (keydir : Keydir)
    (rs : List DecodedRecord) (tail : Bytes)
    → total ≡ length rs + suc fuel
    → end ≡ offset + total_bytes rs
    → AllFit rs
    → scan_loop total file_id allow offset keydir (encode_all rs ++ tail)
      ≡ scan_loop (suc fuel) file_id allow end (replay file_id offset keydir rs) tail
unfolding replay
scan_loop-replay total fuel file_id allow offset end keydir [] tail e o fits =
    let e' : total ≡ suc fuel = omega arith in let o' : end ≡ offset = omega arith in rw (e', o')
scan_loop-replay zero fuel file_id allow offset end keydir (r ∷ rs) tail e o fits =
    absurd (omega arith)
scan_loop-replay (suc total) fuel file_id allow offset end keydir (r ∷ rs) tail e o fits =
    rw (append_assoc (encode r) (encode_all rs) tail) (
      scan_loop-steps total file_id allow offset keydir _ r (record_bytes r) (encode_all rs ++ tail)
        (decode-encode r.timestamp r.key r.value (encode_all rs ++ tail) fits.0)
      ∙ scan_loop-replay total fuel file_id allow (offset + record_bytes r) end
          (scan_record file_id offset keydir r (record_bytes r)) rs tail (omega arith) (omega arith)
          fits.1)

module _ (file_id : ℕ) (allow : Bool) (keydir : Keydir) (rs : List DecodedRecord)
    (fits : AllFit rs) where
  -- The scan stands behind the good records with fuel left, whatever follows them.
  scan-replay :
      (tail : Bytes) (e : Error)
      → decode_data_record tail ≡ err e
      → scan_data_file file_id allow keydir (encode_all rs ++ tail)
        ≡ scan_end allow (total_bytes rs) (replay file_id 0 keydir rs) e
  unfolding scan_data_file
  scan-replay tail e stops =
      let spare = total_bytes rs + length tail - length rs in
      scan_loop-replay (length (encode_all rs ++ tail) + 1) spare file_id allow 0 (total_bytes rs)
        keydir rs tail
        (omega (
          arith,
          length-append (encode_all rs) tail,
          length-encode_all rs,
          length-le-total_bytes rs,
        ))
        (omega arith) fits
      ∙ scan_loop-stops spare file_id allow (total_bytes rs) (replay file_id 0 keydir rs) tail e
          stops

  -- A file of whole records that fit the format is read to its end: the keydir is that of the
  -- records one after another, each at the offset where it was written, and nothing is cut off.
  pub scan_data_file-replay :
      scan_data_file file_id allow keydir (encode_all rs)
      ≡ scanned (replay file_id 0 keydir rs) none
  unfolding scan_end
  scan_data_file-replay =
      rw (append-nil (encode_all rs)) at
        (scan-replay [] eof (unfold decode_data_record read_full in refl))

  -- A file of records that fit the format, the last of which has only its first `n` bytes. Inside
  -- a part of that record the torn end is found: the file is cut back to the whole records where
  -- that is allowed, and is corrupt where not. Between two parts it passes for the end of the
  -- file, and stays.
  pub scan_data_file-torn :
      (r : DecodedRecord) (n : ℕ)
      → Fits r.timestamp r.key r.value
      → n < record_bytes r
      → scan_data_file file_id allow keydir (encode_all rs ++ take n (encode r)) ≡ (
          if at_boundary (length r.key) n
          then scanned (replay file_id 0 keydir rs) none
          else if allow
          then scanned (replay file_id 0 keydir rs) (some (total_bytes rs))
          else failed (replay file_id 0 keydir rs) corrupt_data)
  unfolding scan_end
  scan_data_file-torn r n fit short = elim (Bool-cases (at_boundary (length r.key) n)) [
    | inl between ↦ rw between (
        scan-replay (take n (encode r)) eof
          (decode_torn r.timestamp r.key r.value n fit short ∙ rw between))
    | inr inside ↦ rw inside (
        scan-replay (take n (encode r)) unexpected_eof
          (decode_torn r.timestamp r.key r.value n fit short ∙ rw inside)
        ∙ ground arith)
  ]
