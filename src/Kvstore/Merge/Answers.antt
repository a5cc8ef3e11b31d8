-- ===== src/Kvstore/Merge/Answers.antt =====
-- Merge changes no answer of Get, also when the database moved on between its phases.
use kvraft.Base.{
  ℕ, ◌+◌, ◌≤◌, ◌≡◌, ◌≢◌, sym, ap, subst, ◌∙◌, inl, inr, true, false, Option, none, some, List, [],
  Bytes, arith, length, Bool-cases, Option-cases, append-nil,
}
use kvraft.Base.Int.{pos}
use kvraft.Base.Assoc.{lookup, bytes_eq}
use kvraft.Kvstore.Types.{ok, KeyDirEntry}
use kvraft.Kvstore.Keydir.{Keydir}
use kvraft.Kvstore.Store.Files.{Db}
use kvraft.Kvstore.Store.Files.Append.{IsWritable}
use kvraft.Kvstore.Store.Read.{contains}
use kvraft.Kvstore.Store.Durable.{Holds, Holds-grow, get-Holds}
use kvraft.Kvstore.Store.Durable.View.{View, Shows}
use kvraft.Kvstore.Merge.{
  PublishIo, Merged, same_entry, entry_of, snapshot_of, files_of, point_entries, remove_old,
  publish,
}
use kvraft.Kvstore.Merge.Files.{
  renamed, out_files, no_files, renamed-over, renamed-stays, StoredIn-grow, StoredIn-Holds,
}
use kvraft.Kvstore.Merge.Publish.{
  Since, Copies, publish-inversion, remove_old_lem, remove_old-others, remove_old-none, pointed,
  lookup-point_entries, same_entry_iff, same_entry_refl, lookup-snapshot_of,
}

-- A key has one value.
one_value :
    (db : Db) (key v w : Bytes) → db.is_closed ≡ false → Holds db key v → Holds db key w → v ≡ w
one_value db key v w opened hv hw =
    ground (arith, get-Holds db key v opened hv, get-Holds db key w opened hw)

module _ (db now now' : Db) (immutable : List ℕ) (m : Merged) (io : PublishIo)
    (since : Since immutable m db now) (copies : Copies immutable m db)
    (hints : ℕ → Option Bytes) where
  abbrev pointing : Keydir
  pointing = point_entries (snapshot_of immutable db.keydir) now.keydir m.entries

  abbrev filled : Db
  filled = record now {
    data_files = renamed now.data_files (files_of m);
    hint_files = hints;
    keydir = pointing;
  }

  abbrev left : Db
  left = remove_old filled immutable io

  left-keydir : left.keydir ≡ pointing
  left-keydir = ap (λ (x : Db). x.keydir) (remove_old_lem filled immutable io)

  -- A file that was there and is not of the merge stays.
  stays :
      (i : ℕ) (c : Bytes)
      → contains i immutable ≡ false
      → now.data_files i ≡ some c
      → left.data_files i ≡ some c
  stays i c other found =
      let vacant = since.vacant i (ground (arith, found)) in
      remove_old-others filled immutable io i other
      ∙ (renamed-stays no_files now.data_files (files_of m) i vacant).1
      ∙ found

  -- A file that the merge wrote is there.
  written_file : (i : ℕ) (c : Bytes) → out_files m i ≡ some c → left.data_files i ≡ some c
  written_file i c found = elim (Bool-cases (contains i immutable)) [
    | inl is_old ↦ absurd (ground (arith, found, since.old i is_old))
    | inr other ↦
        remove_old-others filled immutable io i other
        ∙ renamed-over no_files now.data_files (files_of m) i c (λ x. absurd (ground (arith, x)))
            found
  ]

  left-none : (i : ℕ) → now.data_files i ≡ none → out_files m i ≡ none → left.data_files i ≡ none
  left-none i missing vacant =
      remove_old-none filled immutable io i
        ((renamed-stays no_files now.data_files (files_of m) i vacant).1 ∙ missing)

  left-IsWritable : IsWritable now → IsWritable left
  left-IsWritable w =
      let is = remove_old_lem filled immutable io in
      record {
        opened = ap (λ (x : Db). x.is_closed) is ∙ w.opened;
        read_write = ap (λ (x : Db). x.opts.read_write) is ∙ w.read_write;
        active = ap (λ (x : Db). x.active_file) is ∙ w.active;
        contents = w.contents;
        active_is =
            ap (λ (x : ℕ). left.data_files x) (ap (λ (x : Db). x.active_file_id) is)
            ∙ stays now.active_file_id w.contents since.passive w.active_is;
        offset = ap (λ (x : Db). x.active_offset) is ∙ w.offset;
        below = omega (
          arith,
          w.below,
          ap (λ (x : Db). x.active_file_id) is,
          ap (λ (x : Db). x.next_file_id) is,
        );
        no_wrap = omega (arith, w.no_wrap, ap (λ (x : Db). x.next_file_id) is);
        fresh = λ i at.
            let beyond : now.next_file_id ≤ i =
              omega (arith, at, ap (λ (x : Db). x.next_file_id) is) in
            left-none i (w.fresh i beyond) (since.above i beyond);
      }

  left-lookup :
      (j : Bytes)
      → lookup j left.keydir
        ≡ pointed
            (entry_of (snapshot_of immutable db.keydir) j)
            (lookup j now.keydir)
            (lookup j m.entries)
  left-lookup j =
      ap (lookup j) left-keydir
      ∙ lookup-point_entries (snapshot_of immutable db.keydir) now.keydir m.entries j
          copies.distinct

  -- A key that still has its entry of the snapshot is found in its copy.
  copied-Holds :
      (j w : Bytes) (cur e : KeyDirEntry)
      → now.is_closed ≡ false
      → Holds now j w
      → lookup j now.keydir ≡ some cur
      → same_entry cur (entry_of (snapshot_of immutable db.keydir) j) ≡ true
      → lookup j m.entries ≡ some e
      → Holds left j w
  copied-Holds j w cur e opened h at same new =
      let (v, held, at_db, copy) = copies.copies j e new in
      let unchanged : lookup j now.keydir ≡ lookup j db.keydir =
        at ∙ ap some (same_entry_iff cur _ same) ∙ sym at_db in
      let held_now = Holds-grow db now j v since.grows unchanged held in
      let found : lookup j left.keydir ≡ some e = left-lookup j ∙ ground (arith, at, same, new) in
      rw (one_value now j w v opened h held_now) (
        StoredIn-Holds left j v e found (
          StoredIn-grow (out_files m) left.data_files j v e
            (λ i c there. ([], written_file i c there ∙ ap some (sym (append-nil c)))) copy))

  -- A key whose entry stays, outside the files of the merge.
  unmoved-Holds :
      (j w : Bytes)
      → (h : Holds now j w) → contains h.file_id immutable ≡ false
      → lookup j left.keydir ≡ lookup j now.keydir
      → Holds left j w
  unmoved-Holds j w h other same = record {
    ts = h.ts;
    file_id = h.file_id;
    pre = h.pre;
    post = h.post;
    fits = h.fits;
    small = h.small;
    live = h.live;
    indexed = same ∙ h.indexed;
    stored = stays h.file_id _ other h.stored;
  }

  -- An entry that points into a file of the merge is that of the snapshot.
  snapshot_entry :
      (j : Bytes) (cur : KeyDirEntry)
      → lookup j now.keydir ≡ some cur
      → contains cur.file_id immutable ≡ true
      → (lookup j (snapshot_of immutable db.keydir) ≢ none)
        × (same_entry cur (entry_of (snapshot_of immutable db.keydir) j) ≡ true)
  snapshot_entry j cur at is_old =
      let at_db = since.entries j cur at is_old in
      let found =
        (lookup-snapshot_of immutable db.keydir j cur copies.distinct_keys).0 at_db is_old in
      let is : entry_of (snapshot_of immutable db.keydir) j ≡ cur = ground (arith, found) in
      (ground (arith, found), rw is (same_entry_refl cur))

  left-Holds : (j w : Bytes) → now.is_closed ≡ false → Holds now j w → Holds left j w
  left-Holds j w opened h = elim (Bool-cases (contains h.file_id immutable)) [
    | inl is_old ↦
        let (in_snapshot, same) = snapshot_entry j _ h.indexed is_old in
        elim (Option-cases (lookup j m.entries)) [
          | inl missing ↦ absurd (copies.complete j in_snapshot missing)
          | inr (e, new) ↦ copied-Holds j w _ e opened h h.indexed same new
        ]
    | inr other ↦ elim (Option-cases (lookup j m.entries)) [
      | inl missing ↦ unmoved-Holds j w h other (left-lookup j ∙ ground (arith, missing, h.indexed))
      | inr (e, new) ↦
          elim (Bool-cases (
            same_entry
              (record {
                file_id = h.file_id;
                file_offset = pos (length h.pre);
                record_size = 20 + length j + length w;
                time_stamp = h.ts;
              })
              (entry_of (snapshot_of immutable db.keydir) j))) [
                | inl same ↦ copied-Holds j w _ e opened h h.indexed same new
                | inr differs ↦
                    unmoved-Holds j w h other
                      (left-lookup j ∙ ground (arith, new, h.indexed, differs))
              ]
    ]
  ]

  left-Shows : (view : View) → Shows view now → Shows view left
  left-Shows view s = record {
    writable = left-IsWritable s.writable;
    held = λ key value at. left-Holds key value s.writable.opened (s.held key value at);
    absent = λ key at. left-lookup key ∙ ground (arith, s.absent key at);
  }

-- A second phase that succeeds keeps the map of the database that it starts on, which may have
-- moved on since the first phase: if its files only grew, its active file is not of the merge, an
-- entry that points into a file of the merge is the one of the snapshot, the new files have ids of
-- their own, and the first phase copied every entry of the snapshot, each key having one.
pub publish-Shows :
    (view : View) (db now now' : Db) (immutable : List ℕ) (m : Merged) (io : PublishIo)
    → Since immutable m db now
    → Copies immutable m db
    → Shows view now
    → publish now immutable (snapshot_of immutable db.keydir) m io ≡ (now', ok tt)
    → Shows view now'
publish-Shows view db now now' immutable m io since copies s runs =
    let (hints, is) =
      publish-inversion now now' immutable (snapshot_of immutable db.keydir) m io runs in
    subst (Shows view) (sym is) (left-Shows db now now' immutable m io since copies hints view s)
