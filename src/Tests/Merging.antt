-- ===== src/Tests/Merging.antt =====
-- kvstore/: the theorems on Merge and Fold, at a database with one full file and an empty active one.
use kvraft.Base.{
  ◌∙◌, ◌≡◌, refl, sym, ap, true, false, some, none, [], ◌∷◌, List, Bytes, arith, eq_bytes,
  eq_bytes_iff, if◌then◌else◌, ◌==◌, inl, inr, append-nil, Bool-cases,
}
use kvraft.Base.Int.{pos}
use kvraft.Base.Assoc.{lookup, insert, delete, bytes_eq}
use kvraft.Kvstore.Types.{
  Result, DecodedRecord, ok, err, io_error, key_not_found, tombstone_value, KeyDirEntry,
}
use kvraft.Kvstore.Words.{le_bytes}
use kvraft.Kvstore.Codec.{encode_hint_record, encode_data_record}
use kvraft.Kvstore.Names.{list_data_file_ids}
use kvraft.Kvstore.Names.Layout.{Listed, entries_of, entries_of-listed}
use kvraft.Kvstore.Store.Files.{Db, ensure_open, must_read_write, append_record_locked}
use kvraft.Kvstore.Store.Write.{writable, delete_key}
use kvraft.Kvstore.Codec.RoundTrip.{Fits}
use kvraft.Kvstore.Keydir.{apply_keydir_update}
use kvraft.Kvstore.Scan.{scan_record, scanned, scan_data_file}
use kvraft.Kvstore.Scan.Replay.{encode_all, replay, scan_data_file-replay}
use kvraft.Kvstore.Merge.Files.{read-Holds, renamed}
use kvraft.Kvstore.Store.Read.{read_record_at_entry, open_reader, get, contains}
use kvraft.Kvstore.Store.Keys.{keys_of, sort_strings, insert_sorted, list_keys}
use kvraft.Kvstore.Store.Fold.{fold}
use kvraft.Kvstore.Store.Fold.Bindings.{bindings, visit, fold-visit}
use kvraft.Kvstore.Store.Durable.{Holds}
use kvraft.Kvstore.Store.Durable.View.{View, Shows}
use kvraft.Kvstore.Merge.{
  remove_old, point_entries, point_entry, same_entry, KeyIo, MergeIo, Merged, immutable_of,
  snapshot_of, rename_files, collect, publish, merge, merge_keys, merge_key, merge_record,
  merge_target, merge_write, new_merge_file, allocate_data_file_id, merge_immutable,
}
use kvraft.Kvstore.Merge.Whole.{collected, merge-Shows}
use kvraft.Kvstore.Merge.Publish.{Since, Copies}
use kvraft.Kvstore.Merge.Answers.{publish-Shows}
use kvraft.Kvstore.Merge.Failure.{Untouched, merge_fails}
use kvraft.Tests.Database.{k, v, fine, record-Fits}

abbrev full_entry : KeyDirEntry
full_entry = record { file_id = 1; file_offset = pos 0; record_size = 22; time_stamp = pos 7 }

abbrev two_files : Db
two_files = record {
  opts = record { read_write = true; sync_on_put = true; max_data_file_size_bytes = pos 100 };
  keydir = (k, full_entry) ∷ [];
  active_file = true;
  active_file_id = 2;
  active_offset = 0;
  next_file_id = 3;
  readers = [];
  lock_file = true;
  is_closed = false;
  data_files = λ i.
      if i == 1 then some (encode_data_record (pos 7) k v) else if i == 2 then some [] else none;
  hint_files = λ _. none;
}

abbrev listed_files : List Listed
listed_files =
    record { file_id = 1; with_hint = false } ∷ record { file_id = 2; with_hint = false } ∷ []

abbrev every_call : KeyIo
every_call = record { close = true; open_files = true; write = true; write_hint = true }

abbrev merging : MergeIo
merging = record {
  listing = some (entries_of listed_files);
  keys = λ _. every_call;
  close = true;
  publish = record {
    rename_data = λ _. true;
    rename_hint = λ _. true;
    remove_data = λ _. true;
    remove_hint = λ _. true;
  };
}

abbrev view : View
view = (k, v) ∷ []

listed_ids : list_data_file_ids merging.listing ≡ ok (1 ∷ 2 ∷ [])
listed_ids =
    (entries_of-listed true listed_files
      ((omega arith), ((omega arith), tt), ((omega arith), tt, tt))).1

k_held : Holds two_files k v
unfolding eq_bytes lookup
k_held = record {
  ts = pos 7;
  file_id = 1;
  pre = [];
  post = [];
  fits = record-Fits;
  small = omega arith;
  live = refl;
  indexed = refl;
  stored = ap some (sym (append-nil (encode_data_record (pos 7) k v)));
}

two_files-Shows : Shows view two_files
unfolding lookup
two_files-Shows = record {
  writable = record {
    opened = refl;
    read_write = refl;
    active = refl;
    contents = [];
    active_is = refl;
    offset = refl;
    below = omega arith;
    no_wrap = omega arith;
    fresh = λ i at. ground (arith, at);
  };
  held = λ key value at. elim (Bool-cases (eq_bytes k key)) [
    | inr other ↦ absurd (ground (arith, at, other))
    | inl here ↦
        let same_key : k ≡ key = (eq_bytes_iff k key).0 here in
        let same_value : v ≡ value = ground (arith, at, here) in
        rw (← same_key, ← same_value) k_held
  ];
  absent = λ key at. ground (arith, at);
}

read_runs :
    read_record_at_entry two_files k full_entry
    ≡ (record two_files { readers = 1 ∷ [] }, ok (record { timestamp = pos 7; key = k; value = v }))
unfolding read_record_at_entry open_reader lookup eq_bytes k_held
read_runs = read-Holds two_files k v refl k_held full_entry refl

-- Collects the bindings.
abbrev collector : Bytes → Bytes → View → View × Result (Unit {0})
collector key value seen = ((key, value) ∷ seen, ok tt)

fold-visit_example :
    ((fold collector two_files []).1 ≡ (visit collector [] (bindings view (list_keys two_files))).0)
    × ((fold collector two_files []).2
        ≡ (visit collector [] (bindings view (list_keys two_files))).1)
fold-visit_example = fold-visit collector view two_files [] two_files-Shows

abbrev nothing : Merged
nothing = record { full = []; current = none; entries = [] }

abbrev copied : Merged
copied = record {
  full = [];
  current = some (record {
    file_id = 3;
    data_file = encode_data_record (pos 7) k v;
    hint_file = encode_hint_record (record {
      timestamp = pos 7;
      key = k;
      record_off = pos 0;
      record_size = 22;
      tombstone = false;
    });
    offset = 22;
  });
  entries = (k, record full_entry { file_id = 3 }) ∷ [];
}

abbrev read_and_allocated : Db
read_and_allocated = record two_files { readers = 1 ∷ []; next_file_id = 4 }

key_runs :
    merge_key two_files.keydir two_files nothing k every_call ≡ (read_and_allocated, ok copied)
unfolding merge_key merge_record merge_target new_merge_file allocate_data_file_id merge_write
    lookup eq_bytes insert delete encode_data_record le_bytes
key_runs =
    ap
      (λ (p : Db × Result DecodedRecord). elim p.1 [
        | err e ↦ (p.0, err e)
        | ok rec ↦ merge_record p.0 nothing k rec every_call
      ])
      read_runs

keys_run :
    merge_keys two_files.keydir (λ _. every_call) two_files nothing (k ∷ [])
    ≡ (read_and_allocated, ok copied)
unfolding merge_keys
keys_run =
    ap
      (λ (p : Db × Result Merged). elim p.1 [
        | err e ↦ (p.0, err e)
        | ok m ↦ merge_keys two_files.keydir (λ _. every_call) p.0 m []
      ])
      key_runs

collect_runs : collect two_files two_files.keydir merging ≡ (read_and_allocated, ok copied)
unfolding collect keys_of sort_strings insert_sorted
collect_runs =
    ap
      (λ (p : Db × Result Merged). elim p.1 [
        | err e ↦ (p.0, err e)
        | ok m ↦ (p.0, elim m.current [ none ↦ ok m | some f ↦ ok m ])
      ])
      keys_run

immutable_run :
    merge_immutable two_files (1 ∷ []) merging
    ≡ publish read_and_allocated (1 ∷ []) two_files.keydir copied merging.publish
unfolding merge_immutable snapshot_of contains
immutable_run =
    ap
      (λ (p : Db × Result Merged). elim p.1 [
        | err e ↦ (p.0, err e)
        | ok m ↦ publish p.0 (1 ∷ []) two_files.keydir m merging.publish
      ])
      collect_runs

abbrev merged : Db
merged = (publish read_and_allocated (1 ∷ []) two_files.keydir copied merging.publish).0

merge_runs : merge two_files merging ≡ (merged, ok tt)
unfolding merge writable ensure_open must_read_write immutable_of publish rename_files
merge_runs = rw (merge, listed_ids) (immutable_run ∙ refl)

merge-Shows_example :
    Shows view merged × ((key : Bytes) → (get merged key).1 ≡ (get two_files key).1)
unfolding lookup contains
merge-Shows_example =
    merge-Shows view two_files merged (1 ∷ 2 ∷ []) merging two_files-Shows (refl, tt) listed_ids
      (λ i there. ground (arith, there)) (omega arith) merge_runs

phases :
    Since (1 ∷ []) copied two_files read_and_allocated
    × Copies (1 ∷ []) copied two_files
    × Shows view read_and_allocated
unfolding lookup contains snapshot_of
phases =
    collected view two_files (1 ∷ []) two_files-Shows (refl, tt) refl
      (λ i there. ground (arith, there)) (omega arith) read_and_allocated copied merging
      collect_runs

publish_runs :
    publish read_and_allocated
      (1 ∷ [])
      (snapshot_of (1 ∷ []) two_files.keydir)
      copied
      merging.publish
    ≡ (merged, ok tt)
unfolding publish writable ensure_open must_read_write rename_files snapshot_of contains
publish_runs = refl

publish-Shows_example : Shows view merged
publish-Shows_example =
    publish-Shows view two_files read_and_allocated merged (1 ∷ []) copied merging.publish phases.0
      phases.1 phases.2 publish_runs

-- The first phase cannot open its files.
abbrev no_file : MergeIo
no_file = record merging { keys = λ _. record every_call { open_files = false } }

key_fails :
    merge_key two_files.keydir two_files nothing k (no_file.keys k)
    ≡ (read_and_allocated, err io_error)
unfolding merge_key merge_record merge_target new_merge_file allocate_data_file_id lookup eq_bytes
key_fails =
    ap
      (λ (p : Db × Result DecodedRecord). elim p.1 [
        | err e ↦ (p.0, err e)
        | ok rec ↦ merge_record p.0 nothing k rec (no_file.keys k)
      ])
      read_runs

keys_fail :
    merge_keys two_files.keydir no_file.keys two_files nothing (k ∷ [])
    ≡ (read_and_allocated, err io_error)
unfolding merge_keys
keys_fail =
    ap
      (λ (p : Db × Result Merged). elim p.1 [
        | err e ↦ (p.0, err e)
        | ok m ↦ merge_keys two_files.keydir no_file.keys p.0 m []
      ])
      key_fails

no_file_fails :
    (collect two_files
      (snapshot_of (immutable_of two_files (1 ∷ 2 ∷ [])) two_files.keydir)
      no_file).1
    ≡ err io_error
unfolding collect keys_of sort_strings insert_sorted snapshot_of immutable_of contains
no_file_fails =
    ap
      (λ (p : Db × Result Merged).
        (elim p.1 as (λ _. Db × Result Merged) [
          | err e ↦ (p.0, err e)
          | ok m ↦ (p.0, elim m.current [ none ↦ ok m | some f ↦ ok m ])
        ]).1)
      keys_fail

merge_fails_example :
    ((merge two_files no_file).1 ≡ err io_error)
    × Untouched two_files (merge two_files no_file).0
    × ((key : Bytes) → (get (merge two_files no_file).0 key).1 ≡ (get two_files key).1)
unfolding writable ensure_open must_read_write immutable_of
merge_fails_example =
    merge_fails two_files (1 ∷ 2 ∷ []) no_file io_error refl listed_ids (λ e. ground (arith, e))
      no_file_fails

-- The key is deleted behind the merge, in the file that was active.
abbrev deleted : Db
deleted = (delete_key merged k (pos 9) fine).0

deleted_is_gone : (get deleted k).1 ≡ err key_not_found
unfolding delete_key writable ensure_open must_read_write append_record_locked publish rename_files
    get lookup eq_bytes delete remove_old encode_data_record le_bytes point_entries point_entry
    same_entry insert
deleted_is_gone = refl

abbrev the_put : DecodedRecord
the_put = record { timestamp = pos 7; key = k; value = v }

abbrev the_delete : DecodedRecord
the_delete = record { timestamp = pos 9; key = k; value = tombstone_value }

-- What the directory holds then: the deletion, and behind it the file of the merge.
deleted_files :
    (deleted.data_files 1 ≡ none)
    × (deleted.data_files 2 ≡ some (encode_all (the_delete ∷ [])))
    × (deleted.data_files 3 ≡ some (encode_all (the_put ∷ [])))
unfolding delete_key writable ensure_open must_read_write append_record_locked publish rename_files
    eq_bytes delete remove_old encode_data_record le_bytes point_entries point_entry same_entry
    insert lookup renamed
deleted_files = (refl, refl, refl)

-- The scans of an opening, which come to the deletion first: the key is back.
deleted_key_is_back :
    (scan_data_file 2 false [] (encode_all (the_delete ∷ [])) ≡ scanned [] none)
    × (scan_data_file 3 true [] (encode_all (the_put ∷ []))
        ≡ scanned ((k, record full_entry { file_id = 3 }) ∷ []) none)
unfolding replay scan_record apply_keydir_update lookup eq_bytes insert delete
deleted_key_is_back = (
  scan_data_file-replay 2 false [] (the_delete ∷ []) (delete-Fits, tt),
  scan_data_file-replay 3 true [] (the_put ∷ []) (record-Fits, tt),
)
  where
    delete-Fits : Fits (pos 9) k tombstone_value
    delete-Fits = record {
      timestamp_fits = omega arith;
      key_fits = omega arith;
      value_fits = omega arith;
    }
