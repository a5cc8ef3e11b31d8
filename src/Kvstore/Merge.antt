-- ===== src/Kvstore/Merge.antt =====
-- kvstore/merge.go: Merge, in its two phases. Between them the lock is released, so that the
-- database of the second phase may have moved on. The temporary files are values until they are
-- renamed; where the merge fails they are removed, and nothing is left of them.
pub mod Files
pub mod Collect
pub mod Publish
pub mod Answers
pub mod Whole
pub mod Failure
use kvraft.Base.{
  ℕ, ◌+◌, ◌%◌, ◌^◌, Bool, true, false, not, ◌&&◌, ◌||◌, Option, none, some, List, [], ◌∷◌, ◌++◌,
  Bytes, length, ltb, ◌==◌, if◌then◌else◌,
}
use kvraft.Base.Int.{ℤ, pos, ltb_ℤ, eq_ℤ}
use kvraft.Base.Assoc.{lookup, insert, bytes_eq}
use kvraft.Kvstore.Types.{
  Error, closed, io_error, Result, ok, err, OpenOptions, KeyDirEntry, DecodedRecord, HintRecord,
}
use kvraft.Kvstore.Codec.{encode_data_record, encode_hint_record}
use kvraft.Kvstore.Keydir.{Keydir}
use kvraft.Kvstore.Names.{DirEntry, list_data_file_ids}
use kvraft.Kvstore.Store.Files.{Db, set_file}
use kvraft.Kvstore.Store.Write.{writable}
use kvraft.Kvstore.Store.Read.{contains, read_record_at_entry}
use kvraft.Kvstore.Store.Keys.{keys_of, sort_strings}

-- The two temporary files, with what was written to them.
pub record MergeFile : Type 0 where
  pub file_id : ℕ
  pub data_file : Bytes
  pub hint_file : Bytes
  pub offset : ℕ

-- What the calls answer on the way to one key: `closeAndSync` of the full file, the two openings
-- of the new one, and the writes of the record and of its hint.
pub record KeyIo : Type 0 where
  pub close : Bool
  pub open_files : Bool
  pub write : Bool
  pub write_hint : Bool

-- The renames and the removals, by the id of the file.
pub record PublishIo : Type 0 where
  pub rename_data : ℕ → Bool
  pub rename_hint : ℕ → Bool
  pub remove_data : ℕ → Bool
  pub remove_hint : ℕ → Bool

pub record MergeIo : Type 0 where
  pub listing : Option (List DirEntry)
  pub keys : Bytes → KeyIo
  pub close : Bool
  pub publish : PublishIo

-- The full files, `current`, and the new entries.
pub record Merged : Type 0 where
  pub full : List MergeFile
  pub current : Option MergeFile
  pub entries : Keydir

unfoldable pub same_entry : KeyDirEntry → KeyDirEntry → Bool
same_entry a b =
    (a.file_id == b.file_id)
    && (eq_ℤ a.file_offset b.file_offset
        && ((a.record_size == b.record_size) && eq_ℤ a.time_stamp b.time_stamp))

unfoldable pub allocate_data_file_id : Db → Db × Result ℕ
allocate_data_file_id db =
    let id = if db.next_file_id == 0 then 1 else db.next_file_id in
    if db.is_closed
    then (db, err closed)
    else (record db { next_file_id = (id + 1) % 2 ^ 64 }, ok id)

unfoldable pub new_merge_file : Db → Bool → Db × Result MergeFile
new_merge_file db io =
    let (db', r) = allocate_data_file_id db in
    elim r [
      | err e ↦ (db', err e)
      | ok id ↦ (
        db',
        (if io
            then ok (record { file_id = id; data_file = []; hint_file = []; offset = 0 })
            else err io_error),
      )
    ]

-- `current.offset+recordLen > db.opts.MaxDataFileSizeBytes && current.offset > 0`
abbrev pub is_full : Db → MergeFile → ℕ → Bool
is_full db f size = ltb_ℤ db.opts.max_data_file_size_bytes (pos (f.offset + size)) && ltb 0 f.offset

-- The file that the next record goes to, with the full ones.
unfoldable pub merge_target :
    Db → List MergeFile → Option MergeFile → ℕ → KeyIo → Db × Result (List MergeFile × MergeFile)
merge_target db full none size io =
    let (db', r) = new_merge_file db io.open_files in
    elim r [ err e ↦ (db', err e) | ok f ↦ (db', ok (full, f)) ]
merge_target db full (some f) size io =
    if not (is_full db f size)
    then (db, ok (full, f))
    else if not io.close
    then (db, err io_error)
    else let (db', r) = new_merge_file db io.open_files in
      elim r [ err e ↦ (db', err e) | ok g ↦ (db', ok (full ++ f ∷ [], g)) ]

unfoldable pub merge_write :
    MergeFile → Bytes → DecodedRecord → KeyIo → Result (MergeFile × KeyDirEntry)
merge_write f key rec io =
    let bytes = encode_data_record rec.timestamp key rec.value in
    if not (io.write && io.write_hint)
    then err io_error
    else ok (
      record {
        file_id = f.file_id;
        data_file = f.data_file ++ bytes;
        hint_file =
            f.hint_file
            ++ encode_hint_record (record {
              timestamp = rec.timestamp;
              key = key;
              record_off = pos f.offset;
              record_size = length bytes % 2 ^ 32;
              tombstone = false;
            });
        offset = f.offset + length bytes;
      },
      record {
        file_id = f.file_id;
        file_offset = pos f.offset;
        record_size = length bytes % 2 ^ 32;
        time_stamp = rec.timestamp;
      },
    )

-- `snapshot[key]`, which is the zero entry where the key is not there.
abbrev pub entry_of : Keydir → Bytes → KeyDirEntry
entry_of snapshot key = elim (lookup key snapshot) [
  | none ↦ record { file_id = 0; file_offset = pos 0; record_size = 0; time_stamp = pos 0 }
  | some e ↦ e
]

-- One round of the loop over the keys.
unfoldable pub merge_record : Db → Merged → Bytes → DecodedRecord → KeyIo → Db × Result Merged
merge_record db m key rec io =
    let (db', r) =
      merge_target db m.full m.current (length (encode_data_record rec.timestamp key rec.value))
        io in
    elim r [
      | err e ↦ (db', err e)
      | ok (full, f) ↦ (
        db',
        elim (merge_write f key rec io) [
          | err e ↦ err e
          | ok (g, entry) ↦
              ok (record { full = full; current = some g; entries = insert key entry m.entries })
        ],
      )
    ]

unfoldable pub merge_key : Keydir → Db → Merged → Bytes → KeyIo → Db × Result Merged
merge_key snapshot db m key io =
    let (db', r) = read_record_at_entry db key (entry_of snapshot key) in
    elim r [ err e ↦ (db', err e) | ok rec ↦ merge_record db' m key rec io ]

unfoldable pub merge_keys : Keydir → (Bytes → KeyIo) → Db → Merged → List Bytes → Db × Result Merged
merge_keys snapshot io db m [] = (db, ok m)
merge_keys snapshot io db m (key ∷ keys) =
    let (db', r) = merge_key snapshot db m key (io key) in
    elim r [ err e ↦ (db', err e) | ok m' ↦ merge_keys snapshot io db' m' keys ]

-- The data files that are not active, and the entries that point into them.
unfoldable pub immutable_of : Db → List ℕ → List ℕ
immutable_of db [] = []
immutable_of db (id ∷ ids) =
    let rest = immutable_of db ids in if id == db.active_file_id then rest else id ∷ rest

unfoldable pub snapshot_of : List ℕ → Keydir → Keydir
snapshot_of ids [] = []
snapshot_of ids ((key, e) ∷ d) =
    let rest = snapshot_of ids d in if contains e.file_id ids then (key, e) ∷ rest else rest

-- `mergedFiles`
abbrev pub files_of : Merged → List MergeFile
files_of m = elim m.current [ none ↦ m.full | some f ↦ m.full ++ f ∷ [] ]

-- The first phase behind the snapshot; the last file is closed.
unfoldable pub collect : Db → Keydir → MergeIo → Db × Result Merged
collect db snapshot io =
    let (db', r) =
      merge_keys snapshot io.keys db (record { full = []; current = none; entries = [] })
        (sort_strings (keys_of snapshot)) in
    elim r [
      | err e ↦ (db', err e)
      | ok m ↦
          (db', elim m.current [ none ↦ ok m | some f ↦ if io.close then ok m else err io_error ])
    ]

-- The renames, in order; the first that fails ends the merge.
unfoldable pub rename_files : Db → List MergeFile → PublishIo → Db × Result (Unit {0})
rename_files db [] io = (db, ok tt)
rename_files db (f ∷ fs) io =
    let with_data = record db {
      data_files = set_file db.data_files f.file_id (some f.data_file);
    } in
    let with_hint = record with_data {
      hint_files = set_file db.hint_files f.file_id (some f.hint_file);
    } in
    let rest = rename_files with_hint fs io in
    if not (io.rename_data f.file_id)
    then (db, err io_error)
    else if not (io.rename_hint f.file_id)
    then (with_data, err io_error)
    else rest

-- A key whose entry is still that of the snapshot gets its new entry.
unfoldable pub point_entry : Keydir → Keydir → Bytes → KeyDirEntry → Keydir
point_entry snapshot keydir key new_entry = elim (lookup key keydir) [
  | none ↦ keydir
  | some current ↦
      if not (same_entry current (entry_of snapshot key))
      then keydir
      else insert key new_entry keydir
]

unfoldable pub point_entries : Keydir → Keydir → Keydir → Keydir
point_entries snapshot keydir [] = keydir
point_entries snapshot keydir ((key, e) ∷ entries) =
    point_entries snapshot (point_entry snapshot keydir key e) entries

-- `closeReaderLocked`
abbrev pub close_reader : ℕ → List ℕ → List ℕ
close_reader id [] = []
close_reader id (x ∷ xs) = let rest = close_reader id xs in if x == id then rest else x ∷ rest

abbrev pub remove_file : (ℕ → Option Bytes) → ℕ → Bool → ℕ → Option Bytes
remove_file files id done = if done then set_file files id none else files

-- A removal that fails is ignored.
abbrev pub remove_one : Db → ℕ → PublishIo → Db
remove_one db id io = record db {
  readers = close_reader id db.readers;
  data_files = remove_file db.data_files id (io.remove_data id);
  hint_files = remove_file db.hint_files id (io.remove_hint id);
}

unfoldable pub remove_old : Db → List ℕ → PublishIo → Db
remove_old db [] io = db
remove_old db (id ∷ ids) io = remove_old (remove_one db id io) ids io

-- The second phase.
unfoldable pub publish : Db → List ℕ → Keydir → Merged → PublishIo → Db × Result (Unit {0})
publish db immutable snapshot m io = elim (writable db) [
  | err e ↦ (db, err e)
  | ok _ ↦
      let (db', r) = rename_files db (files_of m) io in
      elim r [
        | err e ↦ (db', err e)
        | ok _ ↦ (
          remove_old (record db' { keydir = point_entries snapshot db'.keydir m.entries }) immutable
              io,
          ok tt,
        )
      ]
]

unfoldable pub merge_immutable : Db → List ℕ → MergeIo → Db × Result (Unit {0})
merge_immutable db [] io = (db, ok tt)
merge_immutable db (id ∷ ids) io =
    let snapshot = snapshot_of (id ∷ ids) db.keydir in
    let (db', r) = collect db snapshot io in
    elim r [ err e ↦ (db', err e) | ok m ↦ publish db' (id ∷ ids) snapshot m io.publish ]

-- The whole of Merge, with nothing else between its phases. No id but the active one means that
-- there is nothing to merge, as no id at all does.
unfoldable pub merge : Db → MergeIo → Db × Result (Unit {0})
merge db io = elim (writable db) [
  | err e ↦ (db, err e)
  | ok _ ↦ elim (list_data_file_ids io.listing) [
    | err e ↦ (db, err e)
    | ok ids ↦ merge_immutable db (immutable_of db ids) io
  ]
]
