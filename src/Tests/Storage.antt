-- ===== src/Tests/Storage.antt =====
-- kvstore/: the theorems at two small records and a database with one file.
use kvraft.Base.{
  eq_bytes, ℕ, ◌≡◌, ◌≢◌, refl, true, false, none, some, [], ◌∷◌, ◌++◌, Bytes, codes, arith, take,
  if◌then◌else◌,
}
use kvraft.Base.Int.{pos}
use kvraft.Base.Assoc.{lookup, bytes_eq}
use kvraft.Kvstore.Types.{corrupt_data, ok, KeyDirEntry, DecodedRecord, HintRecord}
use kvraft.Kvstore.Codec.{decode_data_record, encode_data_record}
use kvraft.Kvstore.Codec.RoundTrip.{Fits, decode-encode}
use kvraft.Kvstore.Codec.Torn.{at_boundary}
use kvraft.Kvstore.Codec.Hints.{HintFits}
use kvraft.Kvstore.Keydir.{Keydir, should_replace, apply_keydir_update}
use kvraft.Kvstore.Keydir.Order.{SamePlace, should_replace-order, deleted_key_returns}
use kvraft.Kvstore.Scan.{scanned, failed, out_of_fuel, scan_data_file, scan_hint_file}
use kvraft.Kvstore.Scan.Replay.{
  encode, encode_all, AllFit, replay, total_bytes, scan_data_file-torn,
}
use kvraft.Kvstore.Scan.Ends.{scan_ends}
use kvraft.Kvstore.Hint.{hint_file_of}
use kvraft.Kvstore.Hint.Equivalent.{hint_file-equivalent}

abbrev k : Bytes
k = codes "k"

abbrev v : Bytes
v = codes "v"

record-Fits : Fits (pos 7) k v
record-Fits = record {
  timestamp_fits = omega arith;
  key_fits = omega arith;
  value_fits = omega arith;
}

decode-encode_example :
    decode_data_record (encode_data_record (pos 7) k v ++ [])
    ≡ ok (record { timestamp = pos 7; key = k; value = v }, 22, [])
decode-encode_example = decode-encode (pos 7) k v [] record-Fits

abbrev hint : HintRecord
hint = record {
  timestamp = pos 7;
  key = k;
  record_off = pos 0;
  record_size = 22;
  tombstone = false;
}

hint-HintFits : HintFits hint
hint-HintFits = record {
  timestamp_fits = omega arith;
  record_off_fits = omega arith;
  record_size_fits = omega arith;
  key_fits = omega arith;
}

abbrev rec : DecodedRecord
rec = record { timestamp = pos 7; key = k; value = v }

recs-AllFit : AllFit (rec ∷ [])
recs-AllFit = (record-Fits, tt)

scan_data_file-torn_example :
    scan_data_file 1 true [] (encode_all (rec ∷ []) ++ take 3 (encode rec)) ≡ (
      if at_boundary 1 3
      then scanned (replay 1 0 [] (rec ∷ [])) none
      else if true
      then scanned (replay 1 0 [] (rec ∷ [])) (some (total_bytes (rec ∷ [])))
      else failed (replay 1 0 [] (rec ∷ [])) corrupt_data)
scan_data_file-torn_example =
    scan_data_file-torn 1 true [] (rec ∷ []) recs-AllFit rec 3 record-Fits (omega arith)

scan_ends_example :
    (scan_data_file 1 true [] v ≢ out_of_fuel) × (scan_hint_file 1 [] v ≢ out_of_fuel)
scan_ends_example = scan_ends 1 true [] v

hint_file-equivalent_example :
    (hints : Bytes) × (hint_file_of (encode_all (rec ∷ [])) ≡ some (ok hints))
    × (scan_hint_file 1 [] hints ≡ scan_data_file 1 true [] (encode_all (rec ∷ [])))
hint_file-equivalent_example = hint_file-equivalent 1 true [] (rec ∷ []) recs-AllFit (omega arith)

abbrev place : ℕ → KeyDirEntry
place t = record { file_id = 1; file_offset = pos 0; record_size = 22; time_stamp = pos t }

should_replace-order_example :
    (should_replace (place 1) (place 1) ≡ false)
    × (should_replace (place 1) (place 2) ≡ true
        → should_replace (place 2) (place 3) ≡ true
        → should_replace (place 1) (place 3) ≡ true)
    × (should_replace (place 1) (place 2) ≡ true → should_replace (place 2) (place 1) ≡ false)
    × (should_replace (place 1) (place 2) ≡ false
        → should_replace (place 2) (place 1) ≡ false
        → SamePlace (place 1) (place 2))
should_replace-order_example = should_replace-order (place 1) (place 2) (place 3)

abbrev known : Keydir
known = (k, place 1) ∷ []

deleted_key_returns_example :
    (lookup k (apply_keydir_update known k (place 2) true) ≡ none)
    × (lookup k (apply_keydir_update (apply_keydir_update known k (place 2) true) k (place 1) false)
        ≡ some (place 1))
unfolding lookup should_replace eq_bytes
deleted_key_returns_example = deleted_key_returns known k (place 1) (place 2) refl
