-- ===== src/Kvstore/Store/Files/Append.antt =====
-- What appending a record does to the files: one grows by the record, none loses a byte.
use kvraft.Base.{
  ℕ, ◌+◌, ◌%◌, ◌^◌, ◌≤◌, ◌<◌, ◌≡◌, refl, ap, ◌∙◌, inl, inr, true, false, Option, none, some, [],
  ◌++◌, Bytes, arith, length, ◌==◌, Bool-cases, append-nil, append_assoc, length-append,
}
use kvraft.Base.Int.{ℤ, pos}
use kvraft.Kvstore.Types.{ok, KeyDirEntry}
use kvraft.Kvstore.Store.Files.{
  Db, RotateIo, AppendIo, set_file, create_new_active_file, write_hint_for_data_file,
  rotate_active_file_locked, write_record, needs_rotation, append_record_locked,
}

-- A database that can take a write: its offset is the size of the active file, and no file has the
-- next id or one behind it.
pub record IsWritable (db : Db) : Type 0 where
  pub opened : db.is_closed ≡ false
  pub read_write : db.opts.read_write ≡ true
  pub active : db.active_file ≡ true
  pub contents : Bytes
  pub active_is : db.data_files db.active_file_id ≡ some contents
  pub offset : db.active_offset ≡ length contents
  pub below : db.active_file_id < db.next_file_id
  pub no_wrap : db.next_file_id + 1 < 2 ^ 64
  pub fresh : (i : ℕ) → db.next_file_id ≤ i → db.data_files i ≡ none

-- Every file of `db` is in `db'`, with bytes behind it perhaps.
abbrev pub Grows : Db → Db → Type 0
Grows db db' =
    (i : ℕ) (c : Bytes)
    → db.data_files i ≡ some c
    → (d : Bytes) × (db'.data_files i ≡ some (c ++ d))

pub record Rotated (db db' : Db) : Type 0 where
  pub writable : db'.next_file_id + 1 < 2 ^ 64 → IsWritable db'
  pub keydir : db'.keydir ≡ db.keydir
  pub grows : Grows db db'
  pub next : db'.next_file_id ≤ db.next_file_id + 1

-- A rotation that succeeds goes on in a new, empty file under the next id.
abbrev pub rotated : Db → (ℕ → Option Bytes) → Db
rotated db hints = record db {
  data_files = set_file db.data_files db.next_file_id (some []);
  hint_files = hints;
  active_file = true;
  active_file_id = db.next_file_id;
  active_offset = 0;
  next_file_id = db.next_file_id + 1;
}

pub rotate-eq-rotated :
    (db : Db) (io : RotateIo) {db' : Db}
    → IsWritable db
    → rotate_active_file_locked db io ≡ (db', ok tt)
    → db' ≡ rotated db db'.hint_files
unfolding rotate_active_file_locked create_new_active_file write_hint_for_data_file
rotate-eq-rotated db io w h = ground (arith, w.fresh db.next_file_id)

pub rotated-Rotated :
    (db : Db) (hints : ℕ → Option Bytes) → IsWritable db → Rotated db (rotated db hints)
rotated-Rotated db hints w = record {
  writable = λ small. record {
    opened = w.opened;
    read_write = w.read_write;
    active = refl;
    contents = [];
    active_is = ground arith;
    offset = refl;
    below = omega arith;
    no_wrap = small;
    fresh = λ i at. ground (arith, w.fresh i);
  };
  keydir = refl;
  grows = λ i c found. ([], ground (arith, append-nil c, w.fresh i));
  next = omega arith;
}

-- The record that was appended, behind `pre`.
pub record Appended (db db' : Db) (rec : Bytes) (ts : ℤ) (entry : KeyDirEntry) : Type 0 where
  pub pre : Bytes
  pub stored : db'.data_files entry.file_id ≡ some (pre ++ rec)
  pub file_offset : entry.file_offset ≡ pos (length pre)
  pub record_size : entry.record_size ≡ length rec % 2 ^ 32
  pub time_stamp : entry.time_stamp ≡ ts
  pub writable : db'.next_file_id + 1 < 2 ^ 64 → IsWritable db'
  pub keydir : db'.keydir ≡ db.keydir
  pub grows : Grows db db'
  pub next : db'.next_file_id ≤ db.next_file_id + 1

abbrev pub written : Db → Bytes → Bytes → Db
written db contents rec = record db {
  data_files = set_file db.data_files db.active_file_id (some (contents ++ rec));
  active_offset = db.active_offset + length rec;
}

pub write-eq-written :
    (db : Db) (rec : Bytes) (ts : ℤ) (io : AppendIo) (contents : Bytes) {db' : Db}
    {entry : KeyDirEntry}
    → db.data_files db.active_file_id ≡ some contents
    → write_record db rec ts io ≡ (db', ok entry)
    → (db' ≡ written db contents rec)
      × (entry ≡ record {
        file_id = db.active_file_id;
        file_offset = pos db.active_offset;
        record_size = length rec % 2 ^ 32;
        time_stamp = ts;
      })
unfolding write_record
write-eq-written db rec ts io contents a h = ground arith

pub written-Appended :
    (db : Db) (rec : Bytes) (ts : ℤ)
    → (w : IsWritable db)
    → Appended db (written db w.contents rec) rec ts (record {
      file_id = db.active_file_id;
      file_offset = pos db.active_offset;
      record_size = length rec % 2 ^ 32;
      time_stamp = ts;
    })
written-Appended db rec ts w = record {
  pre = w.contents;
  stored = ground arith;
  file_offset = ap pos w.offset;
  record_size = refl;
  time_stamp = refl;
  writable = λ small. record {
    opened = w.opened;
    read_write = w.read_write;
    active = w.active;
    contents = w.contents ++ rec;
    active_is = ground arith;
    offset = omega (arith, w.offset, length-append w.contents rec);
    below = w.below;
    no_wrap = small;
    fresh = λ i at. ground (arith, w.fresh i, w.below);
  };
  keydir = refl;
  grows = λ i c found. grown i c found;
  next = omega arith;
}
  where
    grown : Grows db (written db w.contents rec)
    grown i c found = elim (Bool-cases (db.active_file_id == i)) [
      | inl here ↦ (rec, ground (arith, w.active_is, found, here))
      | inr other ↦ ([], ground (arith, found, other, append-nil c))
    ]

Grows-trans : (a b c : Db) → Grows a b → Grows b c → Grows a c
Grows-trans a b c f g i x found =
    let (d, in_b) = f i x found in
    let (e, in_c) = g i (x ++ d) in_b in (d ++ e, in_c ∙ ap some (append_assoc x d e))

module _ (db : Db) (rec : Bytes) (ts : ℤ) (io : AppendIo) {db' : Db} {entry : KeyDirEntry}
    (active : db.active_file ≡ true)
    (runs : append_record_locked db rec ts io ≡ (db', ok entry)) where
  pub append_in_place : needs_rotation db rec ≡ false → write_record db rec ts io ≡ (db', ok entry)
  unfolding append_record_locked
  append_in_place stays = ground arith

  pub append_after_rotation :
      needs_rotation db rec ≡ true
      → let mid = (rotate_active_file_locked db io.rotate).0 in
        (rotate_active_file_locked db io.rotate ≡ (mid, ok tt))
        × (write_record mid rec ts io ≡ (db', ok entry))
  unfolding append_record_locked
  append_after_rotation moves = ground arith

write-Appended :
    (db : Db) (rec : Bytes) (ts : ℤ) (io : AppendIo) {db' : Db} {entry : KeyDirEntry}
    → IsWritable db
    → write_record db rec ts io ≡ (db', ok entry)
    → Appended db db' rec ts entry × (db'.next_file_id ≡ db.next_file_id)
write-Appended db rec ts io w h =
    let (same, at) = write-eq-written db rec ts io w.contents w.active_is h in
    (rw (same, at) (written-Appended db rec ts w), rw same)

-- On a writable database with room for a rotation in its file ids, an append that succeeds leaves
-- the record at the end of a file, where the entry says, and no file loses a byte.
pub append_record_locked-Appended :
    (db : Db) (rec : Bytes) (ts : ℤ) (io : AppendIo) {db' : Db} {entry : KeyDirEntry}
    → IsWritable db
    → db.next_file_id + 2 < 2 ^ 64
    → append_record_locked db rec ts io ≡ (db', ok entry)
    → Appended db db' rec ts entry
append_record_locked-Appended db rec ts io {db'} {entry} w small h =
    elim (Bool-cases (needs_rotation db rec)) [
      | inr stays ↦
          (write-Appended db rec ts io w (append_in_place db rec ts io w.active h stays)).0
      | inl moves ↦
          let (turns, writes) = append_after_rotation db rec ts io w.active h moves in
          let mid = (rotate_active_file_locked db io.rotate).0 in
          let r =
            rw (← rotate-eq-rotated db io.rotate w turns) at
              (rotated-Rotated db mid.hint_files w) in
          let (a, next) =
            write-Appended mid rec ts io (r.writable (omega (arith, r.next))) writes in
          record {
            pre = a.pre;
            stored = a.stored;
            file_offset = a.file_offset;
            record_size = a.record_size;
            time_stamp = a.time_stamp;
            writable = a.writable;
            keydir = a.keydir ∙ r.keydir;
            grows = Grows-trans db mid db' r.grows a.grows;
            next = omega (arith, next, r.next);
          }
    ]
