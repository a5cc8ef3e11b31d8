-- ===== src/Kvstore/Merge/Failure.antt =====
-- A merge that fails before its second phase leaves the database as it was.
use kvraft.Base.{
  ◌≢◌, ℕ, ◌≡◌, refl, sym, ap, subst, ◌∙◌, inl, inr, Option, none, some, List, [], ◌∷◌, Bytes, arith,
  length, Option-cases,
}
use kvraft.Base.Assoc.{lookup, bytes_eq}
use kvraft.Kvstore.Types.{Error, ok, err, KeyDirEntry, DecodedRecord, Result-cases}
use kvraft.Kvstore.Codec.{encode_data_record}
use kvraft.Kvstore.Keydir.{Keydir}
use kvraft.Kvstore.Store.Files.{Db}
use kvraft.Kvstore.Store.Read.{get, open_reader, read_record_at_entry}
use kvraft.Kvstore.Names.{list_data_file_ids}
use kvraft.Kvstore.Store.Write.{writable}
use kvraft.Kvstore.Store.Keys.{keys_of, sort_strings}
use kvraft.Kvstore.Merge.{
  KeyIo, MergeIo, MergeFile, Merged, allocate_data_file_id, new_merge_file, merge_target,
  merge_record, merge_key, merge_keys, entry_of, collect, snapshot_of, immutable_of,
  merge_immutable, merge,
}

-- Only the cached readers and the next file id may differ.
abbrev pub Untouched : Db → Db → Type 0
Untouched db now = now ≡ record db { readers = now.readers; next_file_id = now.next_file_id }

Untouched-trans : (a b c : Db) → Untouched a b → Untouched b c → Untouched a c
Untouched-trans a b c f g =
    g ∙ ap (λ (x : Db). record x { readers = c.readers; next_file_id = c.next_file_id }) f

read-Untouched :
    (db : Db) (key : Bytes) (e : KeyDirEntry) → Untouched db (read_record_at_entry db key e).0
unfolding read_record_at_entry open_reader
read-Untouched db key e = ground arith

target-Untouched :
    (db : Db) (full : List MergeFile) (current : Option MergeFile) (size : ℕ) (io : KeyIo)
    → Untouched db (merge_target db full current size io).0
unfolding merge_target new_merge_file allocate_data_file_id
target-Untouched db full none size io = ground arith
target-Untouched db full (some f) size io = ground arith

record-Untouched :
    (db : Db) (m : Merged) (key : Bytes) (rec : DecodedRecord) (io : KeyIo)
    → Untouched db (merge_record db m key rec io).0
unfolding merge_record
record-Untouched db m key rec io =
    let size = length (encode_data_record rec.timestamp key rec.value) in
    elim (Result-cases (merge_target db m.full m.current size io).1) [
      | inl (t, good) ↦ ground (arith, good, target-Untouched db m.full m.current size io)
      | inr (e, bad) ↦ ground (arith, bad, target-Untouched db m.full m.current size io)
    ]

key-Untouched :
    (snapshot : Keydir) (db : Db) (m : Merged) (key : Bytes) (io : KeyIo)
    → Untouched db (merge_key snapshot db m key io).0
unfolding merge_key
key-Untouched snapshot db m key io =
    let mid = (read_record_at_entry db key (entry_of snapshot key)).0 in
    let first = read-Untouched db key (entry_of snapshot key) in
    elim (Result-cases (read_record_at_entry db key (entry_of snapshot key)).1) [
      | inl (rec, good) ↦
          Untouched-trans db mid (merge_key snapshot db m key io).0 first
            (ground (arith, good, record-Untouched mid m key rec io))
      | inr (e, bad) ↦ ground (arith, bad, first)
    ]

keys-Untouched :
    (snapshot : Keydir) (io : Bytes → KeyIo) (db : Db) (m : Merged) (keys : List Bytes)
    → Untouched db (merge_keys snapshot io db m keys).0
unfolding merge_keys
keys-Untouched snapshot io db m [] = refl
keys-Untouched snapshot io db m (key ∷ keys) =
    let mid = (merge_key snapshot db m key (io key)).0 in
    let first = key-Untouched snapshot db m key (io key) in
    elim (Result-cases (merge_key snapshot db m key (io key)).1) [
      | inl (m', good) ↦
          Untouched-trans db mid (merge_keys snapshot io db m (key ∷ keys)).0 first
            (ground (arith, good, keys-Untouched snapshot io mid m' keys))
      | inr (e, bad) ↦ ground (arith, bad, first)
    ]

collect-Untouched :
    (db : Db) (snapshot : Keydir) (io : MergeIo) → Untouched db (collect db snapshot io).0
unfolding collect
collect-Untouched db snapshot io =
    let nothing : Merged = record { full = []; current = none; entries = [] } in
    let keys = sort_strings (keys_of snapshot) in
    let all = keys-Untouched snapshot io.keys db nothing keys in
    elim (Result-cases (merge_keys snapshot io.keys db nothing keys).1) [
      | inl (m, good) ↦ ground (arith, good, all)
      | inr (e, bad) ↦ ground (arith, bad, all)
    ]

get-Untouched : (db now : Db) (key : Bytes) → Untouched db now → (get now key).1 ≡ (get db key).1
unfolding get read_record_at_entry open_reader
get-Untouched db now key same =
    ap (λ (x : Db). (get x key).1) same ∙ answers now.readers now.next_file_id
  where
    answers :
        (readers : List ℕ) (next : ℕ)
        → (get (record db { readers = readers; next_file_id = next }) key).1 ≡ (get db key).1
    answers readers next = elim (Option-cases (lookup key db.keydir)) [
      | inl missing ↦ ground (arith, missing)
      | inr (e, found) ↦ ground (arith, found)
    ]

-- On an open database with files to merge, a merge whose first phase fails returns that error, has
-- changed no file and no entry, only cached readers and the next file id, and every Get answers
-- as before.
pub merge_fails :
    (db : Db) (ids : List ℕ) (io : MergeIo) (e : Error)
    → writable db ≡ ok tt
    → list_data_file_ids io.listing ≡ ok ids
    → immutable_of db ids ≢ []
    → (collect db (snapshot_of (immutable_of db ids) db.keydir) io).1 ≡ err e
    → ((merge db io).1 ≡ err e)
      × Untouched db (merge db io).0
      × ((key : Bytes) → (get (merge db io).0 key).1 ≡ (get db key).1)
unfolding merge merge_immutable
merge_fails db ids io e w lists some_file fails =
    let (is, error) = go (immutable_of db ids) refl in
    let same =
      subst (Untouched db) (sym is)
        (collect-Untouched db (snapshot_of (immutable_of db ids) db.keydir) io) in
    (error, same, λ key. get-Untouched db (merge db io).0 key same)
  where
    go :
        (immutable : List ℕ)
        → immutable_of db ids ≡ immutable
        → let snapshot = snapshot_of (immutable_of db ids) db.keydir in
          ((merge db io).0 ≡ (collect db snapshot io).0) × ((merge db io).1 ≡ err e)
    go [] at = absurd (some_file at)
    go (id ∷ rest) at =
        let fails' = rw at at fails in
        (ground (arith, w, lists, at, fails'), ground (arith, w, lists, at, fails'))
