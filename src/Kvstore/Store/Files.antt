-- ===== src/Kvstore/Store/Files.antt =====
-- The database, its files, and appending to the active one.
pub mod Append
pub mod ShortWrite
use kvraft.Base.{
  ℕ, zero, suc, ◌+◌, ◌%◌, ◌^◌, Bool, true, false, not, ◌&&◌, Option, none, some, List, [], ◌∷◌,
  ◌++◌, Bytes, length, take, ltb, ◌==◌, if◌then◌else◌,
}
use kvraft.Base.Int.{ℤ, pos, ltb_ℤ}
use kvraft.Kvstore.Types.{
  Error, closed, read_only, no_active_file, io_error, Result, ok, err, ◌>>=◌, OpenOptions,
  KeyDirEntry,
}
use kvraft.Kvstore.Keydir.{Keydir}
use kvraft.Kvstore.Hint.{hint_file_of}

pub record Db : Type 0 where
  pub opts : OpenOptions
  pub keydir : Keydir
  -- `activeFile` is not nil
  pub active_file : Bool
  pub active_file_id : ℕ
  pub active_offset : ℕ
  pub next_file_id : ℕ
  pub readers : List ℕ
  -- `lockFile` is not nil
  pub lock_file : Bool
  pub is_closed : Bool
  pub data_files : ℕ → Option Bytes
  pub hint_files : ℕ → Option Bytes

abbrev pub set_file : (ℕ → Option Bytes) → ℕ → Option Bytes → ℕ → Option Bytes
set_file files id contents j = if id == j then contents else files j

abbrev pub contents_of : Option Bytes → Bytes
contents_of none = []
contents_of (some c) = c

-- What the calls of a rotation answer.
pub record RotateIo : Type 0 where
  pub sync : Bool
  pub close : Bool
  pub hint : Bool
  pub open_file : Bool
  pub stat : Bool

-- `write` is none where the whole record is written, and the number of bytes where the write fails
-- after those.
pub record AppendIo : Type 0 where
  pub rotate : RotateIo
  pub write : Option ℕ
  pub sync : Bool

unfoldable pub ensure_open : Db → Result (Unit {0})
ensure_open db = if db.is_closed then err closed else ok tt

unfoldable pub must_read_write : Db → Result (Unit {0})
must_read_write db = if db.opts.read_write then ok tt else err read_only

-- The file is created if it is not there, and its size becomes the offset.
unfoldable pub create_new_active_file : Db → ℕ → RotateIo → Db × Result (Unit {0})
create_new_active_file db id io =
    if not io.open_file
    then (db, err io_error)
    else if not io.stat
    then (
      record db { data_files = set_file db.data_files id (some (contents_of (db.data_files id))) },
      err io_error,
    )
    else (
      record db {
        data_files = set_file db.data_files id (some (contents_of (db.data_files id)));
        active_file = true;
        active_file_id = id;
        active_offset = length (contents_of (db.data_files id));
      },
      ok tt,
    )

-- The temporary file is renamed to the hint file at the end, or removed.
write_hint : Db → ℕ → Option (Result Bytes) → Db × Result (Unit {0})
write_hint db id none = (db, err io_error)
write_hint db id (some (err e)) = (db, err e)
write_hint db id (some (ok hints)) =
    (record db { hint_files = set_file db.hint_files id (some hints) }, ok tt)

unfoldable pub write_hint_for_data_file : Db → ℕ → Bool → Db × Result (Unit {0})
unfolding write_hint
write_hint_for_data_file db id io =
    if not io
    then (db, err io_error)
    else write_hint db id (hint_file_of (contents_of (db.data_files id)))

-- `newID` is `nextFileID`, or 1 where that is 0; a uint64 wraps.
open_next : Db → RotateIo → Db × Result (Unit {0})
open_next db io =
    let id = if db.next_file_id == 0 then 1 else db.next_file_id in
    let (db', r) = create_new_active_file db id io in
    elim r [
      | ok _ ↦ (record db' { next_file_id = (id + 1) % 2 ^ 64 }, ok tt)
      | err e ↦ (db', err e)
    ]

unfoldable pub rotate_active_file_locked : Db → RotateIo → Db × Result (Unit {0})
unfolding open_next
rotate_active_file_locked db io =
    if not db.active_file
    then open_next db io
    else if not (io.sync && io.close)
    then (db, err io_error)
    else let (db', r) =
        write_hint_for_data_file (record db { active_file = false }) db.active_file_id io.hint in
      elim r [ ok _ ↦ open_next db' io | err e ↦ (db', err e) ]

-- The write itself. `O_APPEND` puts the bytes at the end of the file.
unfoldable pub write_record : Db → Bytes → ℤ → AppendIo → Db × Result KeyDirEntry
write_record db rec ts io = elim io.write [
  | some k ↦ (
    record db {
      data_files =
          set_file db.data_files db.active_file_id
            (some (contents_of (db.data_files db.active_file_id) ++ take k rec));
    },
    err io_error,
  )
  | none ↦ (
    record db {
      data_files =
          set_file db.data_files db.active_file_id
            (some (contents_of (db.data_files db.active_file_id) ++ rec));
      active_offset = db.active_offset + length rec;
    },
    (if db.opts.sync_on_put && not io.sync
        then err io_error
        else ok (record {
          file_id = db.active_file_id;
          file_offset = pos db.active_offset;
          record_size = length rec % 2 ^ 32;
          time_stamp = ts;
        })),
  )
]

abbrev pub needs_rotation : Db → Bytes → Bool
needs_rotation db rec =
    ltb_ℤ db.opts.max_data_file_size_bytes (pos (db.active_offset + length rec))
    && ltb 0 db.active_offset

unfoldable pub append_record_locked : Db → Bytes → ℤ → AppendIo → Db × Result KeyDirEntry
unfolding write_record
append_record_locked db rec ts io =
    if not db.active_file
    then (db, err no_active_file)
    else let (db', r) =
        (if needs_rotation db rec then rotate_active_file_locked db io.rotate else (db, ok tt)) in
      elim r [ ok _ ↦ write_record db' rec ts io | err e ↦ (db', err e) ]
