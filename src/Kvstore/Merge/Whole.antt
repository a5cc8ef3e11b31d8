-- ===== src/Kvstore/Merge/Whole.antt =====
-- Merge from one end to the other.
use kvraft.Base.{
  ℕ, ◌+◌, ◌^◌, ◌≤◌, ◌<◌, ◌≡◌, ◌≢◌, refl, sym, ap, subst, ◌∙◌, ◌⊎◌, inl, inr, true, false, none,
  some, List, [], ◌∷◌, Bytes, arith, length, ◌==◌, Bool-cases, Option-cases, append-nil,
}
use kvraft.Base.Assoc.{lookup, IsDistinct, bytes_eq}
use kvraft.Kvstore.Types.{ok, Result-cases}
use kvraft.Kvstore.Keydir.{Keydir}
use kvraft.Kvstore.Names.{list_data_file_ids}
use kvraft.Kvstore.Store.Files.{Db, ensure_open, must_read_write}
use kvraft.Kvstore.Store.Write.{writable}
use kvraft.Kvstore.Store.Read.{contains, get}
use kvraft.Kvstore.Store.Keys.{keys_of, sort_strings}
use kvraft.Kvstore.Store.Keys.Sorted.{length-sort_strings, length-keys_of}
use kvraft.Kvstore.Store.Durable.{Holds}
use kvraft.Kvstore.Store.Durable.View.{Shows-later, View, Shows, get-Shows}
use kvraft.Kvstore.Merge.{
  MergeIo, Merged, entry_of, snapshot_of, immutable_of, publish, collect, merge_immutable, merge,
}
use kvraft.Kvstore.Merge.Collect.Rounds.{collect-Collecting}
use kvraft.Kvstore.Merge.Publish.{Since, Copies, lookup-snapshot_of}
use kvraft.Kvstore.Merge.Answers.{publish-Shows}

length-snapshot_of : (ids : List ℕ) (d : Keydir) → length (snapshot_of ids d) ≤ length d
unfolding snapshot_of
length-snapshot_of ids [] = omega arith
length-snapshot_of ids ((key, e) ∷ d) = ground (arith, length-snapshot_of ids d)

contains-immutable_of :
    (db : Db) (ids : List ℕ) (i : ℕ)
    → contains i (immutable_of db ids) ≡ true
    → (contains i ids ≡ true) × ((i == db.active_file_id) ≡ false)
unfolding contains immutable_of
contains-immutable_of db [] i h = ground (arith, h)
contains-immutable_of db (id ∷ ids) i h = ground (arith, h, contains-immutable_of db ids i)

merge-inversion :
    (db db' : Db) (ids : List ℕ) (io : MergeIo)
    → list_data_file_ids io.listing ≡ ok ids
    → merge db io ≡ (db', ok tt)
    → let immutable = immutable_of db ids in
      let snapshot = snapshot_of immutable db.keydir in
      (db' ≡ db)
      ⊎ ((now : Db) × (m : Merged) × (collect db snapshot io ≡ (now, ok m))
          × (publish now immutable snapshot m io.publish ≡ (db', ok tt)))
unfolding merge merge_immutable writable ensure_open must_read_write
merge-inversion db db' ids io lists runs = go (immutable_of db ids) refl
  where
    go :
        (immutable : List ℕ)
        → immutable_of db ids ≡ immutable
        → let snapshot = snapshot_of immutable db.keydir in
          (db' ≡ db)
          ⊎ ((now : Db) × (m : Merged) × (collect db snapshot io ≡ (now, ok m))
              × (publish now immutable snapshot m io.publish ≡ (db', ok tt)))
    go [] at = inl (ground (arith, at, lists, runs))
    go (id ∷ rest) at =
        let snapshot = snapshot_of (id ∷ rest) db.keydir in
        elim (Result-cases (collect db snapshot io).1) [
          | inr (e, bad) ↦ absurd (ground (arith, at, lists, runs, bad))
          | inl (m, good) ↦ inr (
            (collect db snapshot io).0,
            m,
            ground (arith, good),
            ground (arith, at, lists, runs, good),
          )
        ]

module _ (view : View) (db : Db) (ids : List ℕ) (s : Shows view db)
    (distinct : IsDistinct db.keydir) where
  -- The keys of the snapshot are held with its entries.
  snapshot_held :
      (key : Bytes)
      → lookup key (snapshot_of ids db.keydir) ≢ none
      → (value : Bytes) × Holds db key value
        × (lookup key db.keydir ≡ some (entry_of (snapshot_of ids db.keydir) key))
  snapshot_held key there = elim (Option-cases (lookup key (snapshot_of ids db.keydir))) [
    | inl missing ↦ absurd (there missing)
    | inr (e, found) ↦
        let at = (lookup-snapshot_of ids db.keydir key e distinct).1 found in
        elim (Option-cases (lookup key view)) [
          | inl missing ↦ absurd (ground (arith, at, s.absent key missing))
          | inr (value, shown) ↦ (value, s.held key value shown, ground (arith, at, found))
        ]
  ]

  -- The first phase of the merge leaves what the second wants.
  pub collected :
      (active_file : contains db.active_file_id ids ≡ false)
      → ((i : ℕ) → contains i ids ≡ true → i < db.next_file_id)
      → db.next_file_id + length db.keydir + 1 < 2 ^ 64
      → (now : Db) (m : Merged) (io : MergeIo)
      → collect db (snapshot_of ids db.keydir) io ≡ (now, ok m)
      → Since ids m db now × Copies ids m db × Shows view now
  collected passive old room now m io runs =
      let snapshot = snapshot_of ids db.keydir in
      let bound : length (sort_strings (keys_of snapshot)) ≤ length db.keydir = omega (
        arith,
        length-sort_strings (keys_of snapshot),
        length-keys_of snapshot,
        length-snapshot_of ids db.keydir,
      ) in
      let w = s.writable in
      let (c, next, complete) =
        collect-Collecting db now snapshot io m w.opened (omega (arith, w.below))
          (omega (arith, bound, room)) snapshot_held runs in
      (
        record {
          grows = λ i x found.
              ([], ap (λ (y : Db). y.data_files i) c.same ∙ found ∙ ap some (sym (append-nil x)));
          entries = λ key e at is_old. sym (ap (λ (y : Db). lookup key y.keydir) c.same) ∙ at;
          vacant = λ i there.
              ground (arith, there, c.below i, w.fresh i, ap (λ (y : Db). y.data_files i) c.same);
          above = c.above;
          passive = ap (λ (y : Db). contains y.active_file_id ids) c.same ∙ passive;
          old = λ i is_old. c.below i (old i is_old);
        },
        record {
          distinct_keys = distinct;
          distinct = c.distinct;
          copies = c.copies;
          complete = complete;
        },
        subst (Shows view) (sym c.same) (
            Shows-later view db now.readers now.next_file_id c.next
              (omega (arith, next, bound, room)) s),
      )

-- Merge keeps the map of an open database whose keydir has each key once: if it succeeds on a
-- listing of files that have ids below the next one, and every key of the database can have a file
-- id, then the same keys are found with the same values, every Get answers as before, and the
-- database can take the next write.
pub merge-Shows :
    (view : View) (db db' : Db) (ids : List ℕ) (io : MergeIo)
    → Shows view db
    → IsDistinct db.keydir
    → list_data_file_ids io.listing ≡ ok ids
    → ((i : ℕ) → contains i ids ≡ true → i < db.next_file_id)
    → db.next_file_id + length db.keydir + 1 < 2 ^ 64
    → merge db io ≡ (db', ok tt)
    → Shows view db' × ((key : Bytes) → (get db' key).1 ≡ (get db key).1)
merge-Shows view db db' ids io s distinct lists old room runs =
    let kept = shows in (kept, λ key. get-Shows view db' key kept ∙ sym (get-Shows view db key s))
  where
    active_stays : contains db.active_file_id (immutable_of db ids) ≡ false
    active_stays = elim (Bool-cases (contains db.active_file_id (immutable_of db ids))) [
      | inr other ↦ other
      | inl is_old ↦ absurd (ground (arith, contains-immutable_of db ids db.active_file_id is_old))
    ]

    shows : Shows view db'
    shows = elim (merge-inversion db db' ids io lists runs) [
      | inl nothing ↦ subst (Shows view) (sym nothing) s
      | inr (now, m, collects, publishes) ↦
          let (since, copies, s') =
            collected view db (immutable_of db ids) s distinct active_stays
              (λ i is_old. old i (contains-immutable_of db ids i is_old).0) room now m io
              collects in
          publish-Shows view db now db' (immutable_of db ids) m io.publish since copies s' publishes
    ]
