-- ===== src/Kvstore/Open/Recover/Restart.antt =====
-- The store as a map from keys to values, over writes, restarts and crashes.
use kvraft.Base.{
  ℕ, ◌+◌, ◌^◌, ◌<◌, ◌≤◌, ◌≡◌, refl, sym, ap, subst, true, false, none, some, List, [], ◌∷◌, Bytes,
  All, arith, length,
}
use kvraft.Base.Int.{ℤ, pos, leb_ℤ}
use kvraft.Base.Assoc.{lookup, insert, delete, bytes_eq}
use kvraft.Kvstore.Types.{ok, DecodedRecord, tombstone_value, OpenOptions}
use kvraft.Kvstore.Codec.RoundTrip.{Fits}
use kvraft.Kvstore.Codec.Torn.{at_boundary}
use kvraft.Kvstore.Scan.Replay.{replay, record_bytes}
use kvraft.Kvstore.Store.Files.{Db, AppendIo, set_file, create_new_active_file}
use kvraft.Kvstore.Store.Files.Append.{IsWritable}
use kvraft.Kvstore.Store.Write.{put, delete_key}
use kvraft.Kvstore.Store.Read.{get}
use kvraft.Kvstore.Store.Durable.View.{
  View, Shows, answer_of, get-Shows, put-Shows, delete_key-Shows,
}
use kvraft.Kvstore.Names.{max_uint64}
use kvraft.Kvstore.Open.{
  OpenIo, open_with_options, open_files, fresh_db, open_checked, acquire_writer_lock, open_listed,
}
use kvraft.Kvstore.Open.Recover.{replay_segments, ids_below, Segment, IsSealed, data_ids}
use kvraft.Kvstore.Open.Recover.Writes.{NotBefore}
use kvraft.Kvstore.Open.Recover.Rotation.{
  IsRecoverable, put-IsRecoverable, delete_key-IsRecoverable,
}
use kvraft.Kvstore.Open.Recover.Reopen.{
  OpensWith, opened, torn_files, reopen_restores, crash_recovers,
}

-- Room for a rotation in the file ids, and for a hint of each record in the active file.
abbrev pub HasRoom : Db → Type 0
HasRoom db = (db.next_file_id + 2 < 2 ^ 64) × (db.active_offset < 2 ^ 63)

-- What happens to a database: writes that succeed, a restart, and a crash inside the write of a
-- record that is not at the border of two of its parts. The map changes by the writes only.
pub data Step : View → Db → View → Db → Type 0 where
  puts :
      {m : View} {db db' : Db} (key value : Bytes) (ts : ℤ) (io : AppendIo)
      → HasRoom db
      → NotBefore db key ts
      → Fits ts key value
      → 20 + length key + length value < 2 ^ 32
      → put db key value ts io ≡ (db', ok tt)
      → Step m db (insert key value m) db'
  deletes :
      {m : View} {db db' : Db} (key : Bytes) (ts : ℤ) (io : AppendIo)
      → HasRoom db
      → NotBefore db key ts
      → Fits ts key tombstone_value
      → delete_key db key ts io ≡ (db', ok tt)
      → Step m db (delete key m) db'
  restarts :
      {m : View} {db : Db} (io : OpenIo)
      → OpensWith (data_ids db) io
      → Step m db m (open_with_options db.opts db.data_files db.hint_files io).0
  crashes :
      {m : View} {db : Db} (io : OpenIo) (r : DecodedRecord) (n : ℕ)
      → OpensWith (data_ids db) io
      → Fits r.timestamp r.key r.value
      → n < record_bytes r
      → at_boundary (length r.key) n ≡ false
      → Step m db m (open_with_options db.opts (torn_files db r n) db.hint_files io).0

pub data Steps : View → Db → View → Db → Type 0 where
  stay : {m : View} {db : Db} → Steps m db m db
  and_then :
      {m m' m'' : View} {db db' db'' : Db}
      → Step m db m' db'
      → Steps m' db' m'' db''
      → Steps m db m'' db''

-- The readers and the lock are not part of what a database is.
IsWritable-opened : (db : Db) → IsWritable db → IsWritable (opened db)
IsWritable-opened db w = record {
  opened = w.opened;
  read_write = w.read_write;
  active = w.active;
  contents = w.contents;
  active_is = w.active_is;
  offset = w.offset;
  below = w.below;
  no_wrap = w.no_wrap;
  fresh = w.fresh;
}

Shows-opened : (m : View) (db : Db) → Shows m db → Shows m (opened db)
Shows-opened m db s = record {
  writable = IsWritable-opened db s.writable;
  held = λ key value at.
      let h = s.held key value at in
      record {
        ts = h.ts;
        file_id = h.file_id;
        pre = h.pre;
        post = h.post;
        fits = h.fits;
        small = h.small;
        live = h.live;
        indexed = h.indexed;
        stored = h.stored;
      };
  absent = s.absent;
}

IsSealed-opened :
    (db : Db) (gs : List Segment) → All (IsSealed db) gs → All (IsSealed (opened db)) gs
IsSealed-opened db [] all = tt
IsSealed-opened db (g ∷ gs) all = (
  record {
    contents = all.0.contents;
    fits = all.0.fits;
    hinted = all.0.hinted;
    before = all.0.before;
  },
  IsSealed-opened db gs all.1,
)

IsRecoverable-opened : (db : Db) → IsRecoverable db → IsRecoverable (opened db)
IsRecoverable-opened db (old, (rs, rec)) = (
  old,
  (
    rs,
    record {
      writable = IsWritable-opened db rec.writable;
      size_set = rec.size_set;
      sealed = IsSealed-opened db old rec.sealed;
      active = rec.active;
      listed = rec.listed;
      fits = rec.fits;
      next = rec.next;
      ascending = rec.ascending;
      keydir = rec.keydir;
      behind = rec.behind;
    },
  ),
)

abbrev pub IsGood : View → Db → Type 0
IsGood m db = Shows m db × IsRecoverable db

IsGood-opened : (m : View) (db now : Db) → now ≡ opened db → IsGood m db → IsGood m now
IsGood-opened m db now is (s, r) =
    subst (IsGood m) (sym is) (Shows-opened m db s, IsRecoverable-opened db r)

Step-IsGood : {m m' : View} {db db' : Db} → Step m db m' db' → IsGood m db → IsGood m' db'
Step-IsGood {m} {m'} {db} {db'} (puts key value ts io room later fit size runs) (s, r) = (
  put-Shows m db key value ts io s room.0 fit size runs,
  put-IsRecoverable db r room.0 room.1 key ts later io value fit runs,
)
Step-IsGood {m} {m'} {db} {db'} (deletes key ts io room later fit runs) (s, r) = (
  delete_key-Shows m db key ts io s room.0 runs,
  delete_key-IsRecoverable db r room.0 room.1 key ts later io fit runs,
)
Step-IsGood {m} {m'} {db} {db'} (restarts io good) (s, r) =
    let (old, (rs, rec)) = r in
    IsGood-opened m db db' (ap (λ x. x.0) (reopen_restores db old rs io rec good)) (s, r)
Step-IsGood {m} {m'} {db} {db'} (crashes io torn n good fit short inside) (s, r) =
    let (old, (rs, rec)) = r in
    IsGood-opened m db db'
      (ap (λ x. x.0) (crash_recovers db old rs io rec good torn n fit short inside)) (s, r)

Steps-IsGood : {m m' : View} {db db' : Db} → Steps m db m' db' → IsGood m db → IsGood m' db'
Steps-IsGood stay good = good
Steps-IsGood (and_then step steps) good = Steps-IsGood steps (Step-IsGood step good)

-- A new database, on a directory without files.
abbrev new_db : OpenOptions → Db
new_db opts = record {
  opts = opts;
  keydir = [];
  active_file = true;
  active_file_id = 1;
  active_offset = 0;
  next_file_id = 2;
  readers = [];
  lock_file = true;
  is_closed = false;
  data_files = set_file (λ i. none) 1 (some []);
  hint_files = λ i. none;
}

abbrev pub NewFile : OpenIo → Type 0
NewFile io = (io.create.open_file ≡ true) × (io.create.stat ≡ true)

open-new_db :
    (opts : OpenOptions) (io : OpenIo)
    → opts.read_write ≡ true
    → leb_ℤ opts.max_data_file_size_bytes (pos 0) ≡ false
    → OpensWith [] io
    → NewFile io
    → open_with_options opts (λ i. none) (λ i. none) io ≡ (new_db opts, ok tt)
unfolding open_with_options fresh_db open_checked acquire_writer_lock open_listed open_files
    create_new_active_file
open-new_db opts io w size good new =
    ground
      (arith, good.directory, good.layout, good.lock_open, good.lock, good.listing, new.0, new.1)

new_db-IsGood :
    (opts : OpenOptions)
    → opts.read_write ≡ true
    → leb_ℤ opts.max_data_file_size_bytes (pos 0) ≡ false
    → IsGood [] (new_db opts)
unfolding lookup
new_db-IsGood opts w size = (
  record {
    writable = writable;
    held = λ key value at. absurd (ground (arith, at));
    absent = λ key at. refl;
  },
  (
    [],
    (
      [],
      record {
        writable = writable;
        size_set = size;
        sealed = tt;
        active = refl;
        listed = unfold ids_below in ground arith;
        fits = tt;
        next = refl;
        ascending = let small : 1 ≤ max_uint64 = omega arith in (small, tt, tt);
        keydir = unfold replay in unfold replay_segments in refl;
        behind = λ key e at. absurd (ground (arith, at));
      },
    ),
  ),
)
  where
    writable : IsWritable (new_db opts)
    writable = record {
      opened = refl;
      read_write = w;
      active = refl;
      contents = [];
      active_is = refl;
      offset = refl;
      below = omega arith;
      no_wrap = omega arith;
      fresh = λ i beyond. ground (arith, beyond);
    }

-- From an empty directory that was opened for writing with a file size set, through any sequence
-- of writes that succeed, restarts, and crashes inside the write of a record but not at the border
-- of two of its parts, Get answers for every key with the value of its last Put, and with no such
-- key where there was none or a Delete came after it. The writes have room in the file ids and in
-- the active file, and each is no earlier than the one on record for its key; their records fit the
-- format: the timestamp is an int64, the key and the value have less than 2 ^ 32 bytes each, and
-- those of a put also together with the header. In each opening all calls succeed and the directory lists the data files.
pub get-Steps :
    (opts : OpenOptions) (io : OpenIo) {m : View} {db : Db} (key : Bytes)
    → opts.read_write ≡ true
    → leb_ℤ opts.max_data_file_size_bytes (pos 0) ≡ false
    → OpensWith [] io
    → NewFile io
    → Steps [] (open_with_options opts (λ i. none) (λ i. none) io).0 m db
    → (get db key).1 ≡ answer_of (lookup key m)
get-Steps opts io {m} {db} key w size good new steps =
    let opens = ap (λ x. x.0) (open-new_db opts io w size good new) in
    let start = subst (IsGood []) (sym opens) (new_db-IsGood opts w size) in
    get-Shows m db key (Steps-IsGood steps start).0
