-- ===== src/Kvstore/Store/Files/ShortWrite.antt =====
-- kvstore/write.go: what appendRecordLocked leaves behind when the write stops inside the record.
use kvraft.Base.{ℕ, ◌≡◌, false, some, ◌++◌, Bytes, arith, length, take, append_assoc}
use kvraft.Base.Int.{ℤ, pos}
use kvraft.Kvstore.Types.{ok, err, io_error, KeyDirEntry}
use kvraft.Kvstore.Store.Files.{Db, AppendIo, needs_rotation, append_record_locked, write_record}
use kvraft.Kvstore.Store.Files.Append.{IsWritable}

-- On a writable database, without a rotation, a write that stops after `k` bytes of the record
-- reports an error and leaves those bytes in the file, and the offset before them. The next record
-- that is appended, again without a rotation, stands behind those bytes, but its entry says that it
-- stands where they begin.
pub short_write_misplaces :
    (db : Db) (rec next : Bytes) (ts next_ts : ℤ) (io next_io : AppendIo) (k : ℕ) {db' : Db}
    {entry : KeyDirEntry}
    → (w : IsWritable db) → needs_rotation db rec ≡ false
    → io.write ≡ some k
    → needs_rotation db next ≡ false
    → append_record_locked (append_record_locked db rec ts io).0 next next_ts next_io
      ≡ (db', ok entry)
    → ((append_record_locked db rec ts io).1 ≡ err io_error)
      × (db'.data_files entry.file_id ≡ some (w.contents ++ (take k rec ++ next)))
      × (entry.file_offset ≡ pos (length w.contents))
unfolding append_record_locked write_record
short_write_misplaces db rec next ts next_ts io next_io k w stays short stays' h =
    ground (arith, w.active, w.active_is, w.offset, append_assoc w.contents (take k rec) next, h)
