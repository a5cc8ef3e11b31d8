-- ===== src/Kvstore/Merge/Publish.antt =====
-- The second phase: what the renames, the new entries and the removals leave.
use kvraft.Base.{
  ℕ, ◌≤◌, ◌≡◌, ◌≢◌, refl, ap, ◌∙◌, inl, inr, true, false, Option, none, some, List, [], ◌∷◌, Bytes,
  arith, eq_bytes, eq_bytes_iff, if◌then◌else◌,
}
use kvraft.Base.Int.{eq_ℤ_iff}
use kvraft.Base.Assoc.{lookup, lookup-insert, IsDistinct, bytes_eq}
use kvraft.Kvstore.Types.{ok, KeyDirEntry, Result-cases}
use kvraft.Kvstore.Keydir.{Keydir}
use kvraft.Kvstore.Store.Files.{Db, set_file, ensure_open, must_read_write}
use kvraft.Kvstore.Store.Write.{writable}
use kvraft.Kvstore.Store.Read.{contains}
use kvraft.Kvstore.Merge.{
  MergeFile, PublishIo, Merged, same_entry, entry_of, snapshot_of, files_of, rename_files,
  point_entry, point_entries, remove_one, remove_old, publish,
}
use kvraft.Kvstore.Store.Files.Append.{Grows}
use kvraft.Kvstore.Store.Durable.{Holds}
use kvraft.Kvstore.Merge.Files.{renamed, out_files, StoredIn}

rename_files_lem :
    (db db' : Db) (fs : List MergeFile) (io : PublishIo)
    → rename_files db fs io ≡ (db', ok tt)
    → db' ≡ record db { data_files = renamed db.data_files fs; hint_files = db'.hint_files }
unfolding rename_files renamed
rename_files_lem db db' [] io h = ground (arith, h)
rename_files_lem db db' (f ∷ fs) io h =
    let now = record db {
      data_files = set_file db.data_files f.file_id (some f.data_file);
      hint_files = set_file db.hint_files f.file_id (some f.hint_file);
    } in
    rename_files_lem now db' fs io (ground (arith, h))

-- A removal touches the files of its ids only, and brings none back.
pub remove_old_lem :
    (db : Db) (ids : List ℕ) (io : PublishIo)
    → remove_old db ids io ≡ record db {
      readers = (remove_old db ids io).readers;
      data_files = (remove_old db ids io).data_files;
      hint_files = (remove_old db ids io).hint_files;
    }
unfolding remove_old
remove_old_lem db [] io = refl
remove_old_lem db (id ∷ ids) io = remove_old_lem (remove_one db id io) ids io

pub remove_old-others :
    (db : Db) (ids : List ℕ) (io : PublishIo) (i : ℕ)
    → contains i ids ≡ false
    → (remove_old db ids io).data_files i ≡ db.data_files i
unfolding remove_old contains
remove_old-others db [] io i out = refl
remove_old-others db (id ∷ ids) io i out =
    remove_old-others (remove_one db id io) ids io i (ground (arith, out)) ∙ ground (arith, out)

pub remove_old-none :
    (db : Db) (ids : List ℕ) (io : PublishIo) (i : ℕ)
    → db.data_files i ≡ none
    → (remove_old db ids io).data_files i ≡ none
unfolding remove_old
remove_old-none db [] io i missing = missing
remove_old-none db (id ∷ ids) io i missing =
    remove_old-none (remove_one db id io) ids io i (ground (arith, missing))

-- The entry of a key behind the second phase, from the one before it and the new one.
abbrev pub pointed : KeyDirEntry → Option KeyDirEntry → Option KeyDirEntry → Option KeyDirEntry
pointed in_snapshot none new_entry = none
pointed in_snapshot (some current) none = some current
pointed in_snapshot (some current) (some new_entry) =
    if same_entry current in_snapshot then some new_entry else some current

lookup-point_entry :
    (snapshot keydir : Keydir) (key j : Bytes) (e : KeyDirEntry)
    → lookup j (point_entry snapshot keydir key e) ≡ (
        if eq_bytes key j
        then pointed (entry_of snapshot key) (lookup key keydir) (some e)
        else lookup j keydir)
unfolding point_entry
lookup-point_entry snapshot keydir key j e =
    ground (arith, lookup-insert key j e keydir, eq_bytes_iff key j)

pub lookup-point_entries :
    (snapshot keydir entries : Keydir) (j : Bytes)
    → IsDistinct entries
    → lookup j (point_entries snapshot keydir entries)
      ≡ pointed (entry_of snapshot j) (lookup j keydir) (lookup j entries)
unfolding point_entries lookup
lookup-point_entries snapshot keydir [] j d = ground arith
lookup-point_entries snapshot keydir ((key, e) ∷ entries) j d =
    lookup-point_entries snapshot (point_entry snapshot keydir key e) entries j d.1
    ∙ ground (arith, lookup-point_entry snapshot keydir key j e, eq_bytes_iff key j, d.0)

pub same_entry_iff : (a b : KeyDirEntry) → same_entry a b ≡ true → a ≡ b
unfolding same_entry
same_entry_iff a b h =
    ground (arith, h, eq_ℤ_iff a.file_offset b.file_offset, eq_ℤ_iff a.time_stamp b.time_stamp)

pub same_entry_refl : (a : KeyDirEntry) → same_entry a a ≡ true
unfolding same_entry
same_entry_refl a =
    ground (arith, eq_ℤ_iff a.file_offset a.file_offset, eq_ℤ_iff a.time_stamp a.time_stamp)

-- The snapshot has the entries that point into its files, and no other.
pub lookup-snapshot_of :
    (ids : List ℕ) (d : Keydir) (key : Bytes) (e : KeyDirEntry)
    → IsDistinct d
    → (lookup key d ≡ some e
        → contains e.file_id ids ≡ true
        → lookup key (snapshot_of ids d) ≡ some e)
      × (lookup key (snapshot_of ids d) ≡ some e → lookup key d ≡ some e)
      × (lookup key d ≡ none → lookup key (snapshot_of ids d) ≡ none)
unfolding snapshot_of lookup
lookup-snapshot_of ids [] key e d = ground arith
lookup-snapshot_of ids ((k, x) ∷ m) key e d =
    let (found, back, missing) = lookup-snapshot_of ids m key e d.1 in
    ground (arith, found, back, missing, d.0, eq_bytes_iff k key)

-- The database of the first phase and that of the second: files grew, an entry that points into a
-- file of the merge is the one of the snapshot, and nothing stands where the new files go.
pub record Since (immutable : List ℕ) (m : Merged) (db now : Db) : Type 0 where
  pub grows : Grows db now
  pub entries :
      (key : Bytes) (e : KeyDirEntry)
      → lookup key now.keydir ≡ some e
      → contains e.file_id immutable ≡ true
      → lookup key db.keydir ≡ some e
  pub vacant : (i : ℕ) → now.data_files i ≢ none → out_files m i ≡ none
  pub above : (i : ℕ) → now.next_file_id ≤ i → out_files m i ≡ none
  pub passive : contains now.active_file_id immutable ≡ false
  pub old : (i : ℕ) → contains i immutable ≡ true → out_files m i ≡ none

-- What the first phase says of the new entries.
pub record Copies (immutable : List ℕ) (m : Merged) (db : Db) : Type 0 where
  pub distinct_keys : IsDistinct db.keydir
  pub distinct : IsDistinct m.entries
  pub copies :
      (key : Bytes) (e : KeyDirEntry)
      → lookup key m.entries ≡ some e
      → (value : Bytes) × Holds db key value
        × (lookup key db.keydir ≡ some (entry_of (snapshot_of immutable db.keydir) key))
        × StoredIn (out_files m) key value e
  pub complete :
      (key : Bytes)
      → lookup key (snapshot_of immutable db.keydir) ≢ none
      → lookup key m.entries ≢ none

pub publish-inversion :
    (now now' : Db) (immutable : List ℕ) (snapshot : Keydir) (m : Merged) (io : PublishIo)
    → publish now immutable snapshot m io ≡ (now', ok tt)
    → (hints : ℕ → Option Bytes) × (now'
        ≡ remove_old
            (record now {
              data_files = renamed now.data_files (files_of m);
              hint_files = hints;
              keydir = point_entries snapshot now.keydir m.entries;
            })
            immutable
            io)
unfolding publish writable ensure_open must_read_write
publish-inversion now now' immutable snapshot m io h =
    elim (Result-cases (rename_files now (files_of m) io).1) [
      | inr (e, bad) ↦ absurd (ground (arith, bad))
      | inl (u, good) ↦
          let mid = (rename_files now (files_of m) io).0 in
          let is = rename_files_lem now mid (files_of m) io (ground (arith, good)) in
          (
            mid.hint_files,
            ground (arith, h, good)
                ∙ ap
                    (λ (x : Db).
                      remove_old (record x { keydir = point_entries snapshot x.keydir m.entries })
                        immutable io)
                    is,
          )
    ]
