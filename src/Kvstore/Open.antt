-- ===== src/Kvstore/Open.antt =====
-- kvstore/open.go: OpenWithOptions, and the writer lock.
pub mod Recover
use kvraft.Base.{
  ℕ, zero, suc, ◌+◌, ◌%◌, ◌^◌, Bool, true, false, not, ◌&&◌, Option, none, some, List, [], ◌∷◌,
  Bytes, length, take, ◌==◌, if◌then◌else◌,
}
use kvraft.Base.Int.{ℤ, pos, leb_ℤ}
use kvraft.Kvstore.Types.{Error, io_error, writer_locked, Result, ok, err, OpenOptions}
use kvraft.Kvstore.Keydir.{Keydir}
use kvraft.Kvstore.Names.{DirEntry, validate_layout, list_data_file_ids}
use kvraft.Kvstore.Scan.{ScanResult, scanned, failed, out_of_fuel, scan_data_file, scan_hint_file}
use kvraft.Kvstore.Store.Files.{Db, RotateIo, set_file, contents_of, create_new_active_file}

abbrev pub default_max_data_file_size : ℤ
default_max_data_file_size = pos 67108864

-- What flock answers.
pub data LockAnswer : Type 0 where
  granted would_block failed_lock : LockAnswer

-- What the calls of an open answer. `directory` is MkdirAll or Stat; the two readings of the
-- directory are `none` where they fail.
pub record OpenIo : Type 0 where
  pub directory : Bool
  pub layout : Option (List DirEntry)
  pub lock_open : Bool
  pub lock : LockAnswer
  pub listing : Option (List DirEntry)
  pub create : RotateIo
  pub truncate : Bool
  pub seek : Bool
  pub sync : Bool
  pub open_active : Bool
  pub stat : Bool

unfoldable pub acquire_writer_lock : Db → OpenIo → Db × Result (Unit {0})
acquire_writer_lock db io = if not io.lock_open then (db, err io_error) else elim io.lock [
  | granted ↦ (record db { lock_file = true }, ok tt)
  | would_block ↦ (db, err writer_locked)
  | failed_lock ↦ (db, err io_error)
]

unfoldable pub release_writer_lock : Db → Db
release_writer_lock db = record db { lock_file = false }

-- The torn end is cut off, the offset set, and the file synced.
unfoldable pub cut_tail : Db → ℕ → ℕ → OpenIo → Db × Result (Unit {0})
cut_tail db id size io = if not io.truncate then (db, err io_error) else (
  record db {
    data_files = set_file db.data_files id (some (take size (contents_of (db.data_files id))));
  },
  (if io.seek && io.sync then ok tt else err io_error),
)

-- What a scan leaves. No scan runs out of fuel.
after_scan : Db → ℕ → OpenIo → ScanResult → Db × Result (Unit {0})
unfolding cut_tail
after_scan db id io (scanned keydir none) = (record db { keydir = keydir }, ok tt)
after_scan db id io (scanned keydir (some size)) =
    cut_tail (record db { keydir = keydir }) id size io
after_scan db id io (failed keydir e) = (record db { keydir = keydir }, err e)
after_scan db id io out_of_fuel = (db, err io_error)

-- A file that is not there cannot be opened.
unfoldable pub scan_data_file_at : Db → ℕ → Bool → OpenIo → Db × Result (Unit {0})
unfolding after_scan
scan_data_file_at db id allow io = elim (db.data_files id) [
  | none ↦ (db, err io_error)
  | some contents ↦ after_scan db id io (scan_data_file id allow db.keydir contents)
]

unfoldable pub scan_hint_file_at : Db → ℕ → OpenIo → Db × Result (Unit {0})
unfolding after_scan
scan_hint_file_at db id io = elim (db.hint_files id) [
  | none ↦ (db, err io_error)
  | some contents ↦ after_scan db id io (scan_hint_file id db.keydir contents)
]

-- One file: the active one is scanned, another one read from its hints, or scanned if that fails.
unfoldable pub load_file : Db → ℕ → OpenIo → Db × Result (Unit {0})
load_file db id io =
    if id == db.active_file_id
    then scan_data_file_at db id db.opts.read_write io
    else let (db', r) = scan_hint_file_at db id io in
      elim r [ ok _ ↦ (db', ok tt) | err _ ↦ scan_data_file_at db' id false io ]

unfoldable pub load_files : Db → List ℕ → OpenIo → Db × Result (Unit {0})
load_files db [] io = (db, ok tt)
load_files db (id ∷ ids) io =
    let (db', r) = load_file db id io in
    elim r [ ok _ ↦ load_files db' ids io | err e ↦ (release_writer_lock db', err e) ]

-- The active file is opened for appending, at its size.
unfoldable pub open_active_file : Db → OpenIo → Db × Result (Unit {0})
open_active_file db io =
    if not (io.open_active && io.stat) then (release_writer_lock db, err io_error) else (
      record db {
        active_file = true;
        active_offset = length (contents_of (db.data_files db.active_file_id));
      },
      ok tt,
    )

abbrev pub last_id : ℕ → List ℕ → ℕ
last_id id [] = id
last_id id (next ∷ ids) = last_id next ids

-- A new directory gets its first file, an old one is loaded.
unfoldable pub open_files : Db → List ℕ → OpenIo → Db × Result (Unit {0})
open_files db [] io =
    if not db.opts.read_write
    then (db, ok tt)
    else let (db', r) = create_new_active_file db 1 io.create in
      elim r [
        | ok _ ↦ (record db' { next_file_id = 2 }, ok tt)
        | err e ↦ (release_writer_lock db', err e)
      ]
open_files db (id ∷ ids) io =
    let active = last_id id ids in
    let (db', r) =
      load_files (record db { active_file_id = active; next_file_id = (active + 1) % 2 ^ 64 })
        (id ∷ ids) io in
    elim r [
      | err e ↦ (db', err e)
      | ok _ ↦ if db'.opts.read_write then open_active_file db' io else (db', ok tt)
    ]

-- The database before anything is read; the files are what the directory holds.
unfoldable pub fresh_db : OpenOptions → (ℕ → Option Bytes) → (ℕ → Option Bytes) → Db
fresh_db opts data_files hint_files = record {
  opts =
      if leb_ℤ opts.max_data_file_size_bytes (pos 0)
      then record opts { max_data_file_size_bytes = default_max_data_file_size }
      else opts;
  keydir = [];
  active_file = false;
  active_file_id = 0;
  active_offset = 0;
  next_file_id = 0;
  readers = [];
  lock_file = false;
  is_closed = false;
  data_files = data_files;
  hint_files = hint_files;
}

-- Behind the check of the directory and the lock.
unfoldable pub open_listed : Db → OpenIo → Db × Result (Unit {0})
open_listed db io = elim (list_data_file_ids io.listing) [
  | err e ↦ (release_writer_lock db, err e)
  | ok ids ↦ open_files db ids io
]

-- A writer takes the lock first.
unfoldable pub open_checked : Db → OpenIo → Db × Result (Unit {0})
open_checked db io =
    if not db.opts.read_write
    then open_listed db io
    else let (db', r) = acquire_writer_lock db io in
      elim r [ err e ↦ (db', err e) | ok _ ↦ open_listed db' io ]

-- The database is thrown away where the result is an error; its files are then what is left.
unfoldable pub open_with_options :
    OpenOptions → (ℕ → Option Bytes) → (ℕ → Option Bytes) → OpenIo → Db × Result (Unit {0})
open_with_options opts data_files hint_files io =
    let db = fresh_db opts data_files hint_files in
    if not io.directory
    then (db, err io_error)
    else elim (validate_layout db.opts.read_write io.layout).1 [
      | err e ↦ (db, err e)
      | ok _ ↦ open_checked db io
    ]
