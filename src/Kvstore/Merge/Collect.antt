-- ===== src/Kvstore/Merge/Collect.antt =====
-- The first phase copies what the database holds, and touches none of its files.
pub mod Writing
pub mod Rounds
use kvraft.Base.{
  ℕ, ◌+◌, ◌%◌, ◌^◌, ◌≤◌, ◌<◌, ◌≡◌, refl, sym, ap, subst, ◌∙◌, ◌⊎◌, inl, inr, Bool, true, false, not,
  Option, none, some, List, [], ◌∷◌, ◌++◌, Bytes, All, arith, length, eq_bytes, eq_bytes_iff, ◌==◌,
  if◌then◌else◌, Bool-cases, append-nil, append_assoc, length-append,
}
use native.Mathlib.Nat.{mod-eq_of_lt}
use kvraft.Base.Int.{ℤ, pos}
use kvraft.Base.Assoc.{lookup, insert, lookup-insert, IsDistinct, insert-IsDistinct, bytes_eq}
use kvraft.Kvstore.Types.{ok, err, KeyDirEntry, DecodedRecord, Result-cases}
use kvraft.Kvstore.Codec.{encode_data_record}
use kvraft.Kvstore.Codec.RoundTrip.{length-encode}
use kvraft.Kvstore.Keydir.{Keydir}
use kvraft.Kvstore.Store.Files.{Db, set_file}
use kvraft.Kvstore.Store.Read.{read_record_at_entry}
use kvraft.Kvstore.Store.Durable.{Holds}
use kvraft.Kvstore.Merge.{
  MergeFile, KeyIo, MergeIo, Merged, allocate_data_file_id, new_merge_file, is_full, merge_target,
  merge_write, entry_of, merge_record, merge_key, merge_keys, files_of, collect,
}
use kvraft.Kvstore.Merge.Files.{
  renamed, no_files, out_files, renamed-append, StoredIn, StoredIn-grow, read-Holds,
}

-- The first phase so far, from the database at the snapshot: only readers and file ids are new, the
-- new files have new ids, and each new entry is a copy of what the database holds for the key.
pub record Collecting (snapshot : Keydir) (db now : Db) (m : Merged) : Type 0 where
  pub same : now ≡ record db { readers = now.readers; next_file_id = now.next_file_id }
  pub next : db.next_file_id ≤ now.next_file_id
  pub above : (i : ℕ) → now.next_file_id ≤ i → out_files m i ≡ none
  pub below : (i : ℕ) → i < db.next_file_id → out_files m i ≡ none
  pub offset : (f : MergeFile) → m.current ≡ some f → f.offset ≡ length f.data_file
  pub copies :
      (key : Bytes) (e : KeyDirEntry)
      → lookup key m.entries ≡ some e
      → (value : Bytes) × Holds db key value
        × (lookup key db.keydir ≡ some (entry_of snapshot key))
        × StoredIn (out_files m) key value e
  pub distinct : IsDistinct m.entries

allocate_lem :
    (db : Db)
    → db.is_closed ≡ false
    → 0 < db.next_file_id
    → db.next_file_id + 1 < 2 ^ 64
    → allocate_data_file_id db
      ≡ (record db { next_file_id = db.next_file_id + 1 }, ok db.next_file_id)
unfolding allocate_data_file_id
allocate_lem db opened some_id room = ground (arith, mod-eq_of_lt room)

new_file : ℕ → MergeFile
new_file id = record { file_id = id; data_file = []; hint_file = []; offset = 0 }

new_merge_file_lem :
    (db db' : Db) (io : Bool) (f : MergeFile)
    → db.is_closed ≡ false
    → 0 < db.next_file_id
    → db.next_file_id + 1 < 2 ^ 64
    → new_merge_file db io ≡ (db', ok f)
    → (db' ≡ record db { next_file_id = db.next_file_id + 1 }) × (f ≡ new_file db.next_file_id)
unfolding new_merge_file new_file
new_merge_file_lem db db' io f opened some_id room h =
    ground (arith, allocate_lem db opened some_id room)

-- A record goes to the file at hand, or to a new, empty one behind the others.
merge_target-cases :
    (db db' : Db) (full full' : List MergeFile) (current : Option MergeFile) (f : MergeFile)
    (size : ℕ) (io : KeyIo)
    → db.is_closed ≡ false
    → 0 < db.next_file_id
    → db.next_file_id + 1 < 2 ^ 64
    → merge_target db full current size io ≡ (db', ok (full', f))
    → ((db' ≡ db) × (current ≡ some f) × (full' ≡ full))
      ⊎ ((db' ≡ record db { next_file_id = db.next_file_id + 1 })
          × (f ≡ new_file db.next_file_id)
          × (full' ≡ files_of (record { full = full; current = current; entries = [] })))
unfolding merge_target
merge_target-cases db db' full full' none f size io opened some_id room h =
    ground (arith, new_merge_file_lem db db' io.open_files f opened some_id room)
merge_target-cases db db' full full' (some g) f size io opened some_id room h =
    elim (Bool-cases (is_full db g size)) [
      | inr fits ↦ inl (ground (arith, fits))
      | inl full_one ↦
          inr (
            ground (arith, full_one, new_merge_file_lem db db' io.open_files f opened some_id room))
    ]

-- The state with the file that the next record goes to.
abbrev pub at_target : Merged → List MergeFile → MergeFile → Merged
at_target m full f = record { full = full; current = some f; entries = m.entries }

module _ (snapshot : Keydir) (db now : Db) (m : Merged) (c : Collecting snapshot db now m) where
  files_of-entries :
      files_of (record { full = m.full; current = m.current; entries = [] }) ≡ files_of m
  files_of-entries = refl

  -- The new file is empty and its id is new.
  new_target-Collecting :
      let m' = at_target m (files_of m) (new_file now.next_file_id) in
      Collecting snapshot db (record now { next_file_id = now.next_file_id + 1 }) m'
  unfolding new_file
  new_target-Collecting =
      let m' = at_target m (files_of m) (new_file now.next_file_id) in
      let out : out_files m' ≡ set_file (out_files m) now.next_file_id (some []) =
        renamed-append no_files (files_of m) (new_file now.next_file_id) in
      record {
        same = ap (λ (x : Db). record x { next_file_id = now.next_file_id + 1 }) c.same;
        next = omega (arith, c.next);
        above = λ i at. rw out (ground (arith, at, c.above i));
        below = λ i at. rw out (ground (arith, at, c.below i, c.next));
        offset = λ f at. ground (arith, at);
        distinct = c.distinct;
        copies = λ key e at.
            let (value, holds, at_entry, copy) = c.copies key e at in
            (
              value,
              holds,
              at_entry,
              StoredIn-grow (out_files m) (out_files m') key value e
                  (λ i x found. ([], rw out (ground (arith, found, c.above i, append-nil x)))) copy,
            );
      }

  pub target-Collecting :
      (now' : Db) (full' : List MergeFile) (f : MergeFile) (size : ℕ) (io : KeyIo)
      → now.is_closed ≡ false
      → 0 < now.next_file_id
      → now.next_file_id + 1 < 2 ^ 64
      → merge_target now m.full m.current size io ≡ (now', ok (full', f))
      → Collecting snapshot db now' (at_target m full' f)
        × (now'.next_file_id ≤ now.next_file_id + 1)
  target-Collecting now' full' f size io opened some_id room h =
      elim (merge_target-cases now now' m.full full' m.current f size io opened some_id room h) [
        | inl (stays, same, full_same) ↦
            let e : at_target m full' f ≡ m = ground (arith, same, full_same) in
            rw (stays, e) (c, omega arith)
        | inr (moves, is_new, full_is) ↦
            rw (moves, is_new, full_is) (new_target-Collecting, omega arith)
      ]
