-- ===== src/Kvstore/Store/Write.antt =====
-- kvstore/write.go: Put, Delete, Sync and Close.
use kvraft.Base.{Bool, true, false, not, ◌&&◌, [], Bytes, eq_bytes, if◌then◌else◌}
use kvraft.Base.Int.{ℤ}
use kvraft.Base.Assoc.{insert, delete, bytes_eq}
use kvraft.Kvstore.Types.{
  io_error, reserved_value, Result, ok, err, ◌>>=◌, KeyDirEntry, tombstone_value,
}
use kvraft.Kvstore.Codec.{encode_data_record}
use kvraft.Kvstore.Store.Files.{Db, AppendIo, ensure_open, must_read_write, append_record_locked}

-- The tests in front of every write.
unfoldable pub writable : Db → Result (Unit {0})
writable db = do _ ← ensure_open db; must_read_write db

finish_put : Db → Bytes → Result KeyDirEntry → Db × Result (Unit {0})
finish_put db key (ok entry) = (record db { keydir = insert key entry db.keydir }, ok tt)
finish_put db key (err e) = (db, err e)

put_record : Db → Bytes → Bytes → ℤ → AppendIo → Db × Result (Unit {0})
unfolding finish_put
put_record db key value ts io =
    let (db', r) = append_record_locked db (encode_data_record ts key value) ts io in
    finish_put db' key r

-- `ts` is the time at the call.
unfoldable pub put : Db → Bytes → Bytes → ℤ → AppendIo → Db × Result (Unit {0})
unfolding put_record
put db key value ts io = elim (writable db) [
  | err e ↦ (db, err e)
  | ok _ ↦
      if eq_bytes value tombstone_value
      then (db, err reserved_value)
      else put_record db key value ts io
]

finish_delete : Db → Bytes → Result KeyDirEntry → Db × Result (Unit {0})
finish_delete db key (ok entry) = (record db { keydir = delete key db.keydir }, ok tt)
finish_delete db key (err e) = (db, err e)

delete_record : Db → Bytes → ℤ → AppendIo → Db × Result (Unit {0})
unfolding finish_delete
delete_record db key ts io =
    let (db', r) = append_record_locked db (encode_data_record ts key tombstone_value) ts io in
    finish_delete db' key r

unfoldable pub delete_key : Db → Bytes → ℤ → AppendIo → Db × Result (Unit {0})
unfolding delete_record
delete_key db key ts io = elim (writable db) [
  | err e ↦ (db, err e)
  | ok _ ↦ delete_record db key ts io
]

unfoldable pub sync : Db → Bool → Result (Unit {0})
sync db io = do
  _ ← writable db
  if not db.active_file then ok tt else if io then ok tt else err io_error

-- A second call does nothing. The first error of the two calls on the active file is returned.
unfoldable pub close : Db → Bool → Bool → Db × Result (Unit {0})
close db sync_io close_io = if db.is_closed then (db, ok tt) else (
  record db { active_file = false; readers = []; lock_file = false; is_closed = true },
  (if db.active_file && not (sync_io && close_io) then err io_error else ok tt),
)
