-- ===== src/Kvstore/Open/Recover/Reopen.antt =====
-- Opening the directory of a database that was closed, or that stopped inside a write.
use kvraft.Base.{
  ℕ, ◌+◌, ◌^◌, ◌<◌, ◌≡◌, refl, sym, ◌∙◌, inl, inr, true, false, Option, none, some, List, [], ◌∷◌,
  ◌++◌, Bytes, All, arith, length, take, ◌==◌, Bool-cases, take-append_self,
}
use native.Mathlib.Nat.{mod-eq_of_lt}
use kvraft.Base.Int.{leb_ℤ, pos}
use kvraft.Kvstore.Types.{ok, DecodedRecord, OpenOptions}
use kvraft.Kvstore.Codec.RoundTrip.{Fits}
use kvraft.Kvstore.Codec.Torn.{at_boundary}
use kvraft.Kvstore.Keydir.{Keydir}
use kvraft.Kvstore.Names.{validate_layout, list_data_file_ids}
use kvraft.Kvstore.Scan.{scanned, scan_data_file}
use kvraft.Kvstore.Scan.Replay.{
  encode, encode_all, record_bytes, total_bytes, replay, length-encode_all, scan_data_file-replay,
  scan_data_file-torn,
}
use kvraft.Kvstore.Store.Files.{Db, set_file, contents_of}
use kvraft.Kvstore.Open.{
  OpenIo, granted, acquire_writer_lock, cut_tail, after_scan, scan_data_file_at, load_file,
  load_files, open_active_file, last_id, open_files, fresh_db, open_listed, open_checked,
  open_with_options,
}
use kvraft.Kvstore.Open.Recover.{
  data_ids, Segment, replay_segments, segment_ids, IsSealed, Recoverable, load_files-ok,
  load_files-IsSealed,
}

-- Every call of the opening succeeds, and the directory lists these ids.
pub record OpensWith (ids : List ℕ) (io : OpenIo) : Type 0 where
  pub directory : io.directory ≡ true
  pub layout : (validate_layout true io.layout).1 ≡ ok tt
  pub lock_open : io.lock_open ≡ true
  pub lock : io.lock ≡ granted
  pub listing : list_data_file_ids io.listing ≡ ok ids
  pub truncate : io.truncate ≡ true
  pub seek : io.seek ≡ true
  pub sync : io.sync ≡ true
  pub open_active : io.open_active ≡ true
  pub stat : io.stat ≡ true

last_id-append : (id : ℕ) (ids : List ℕ) (last : ℕ) → last_id id (ids ++ last ∷ []) ≡ last
last_id-append id [] last = refl
last_id-append id (next ∷ ids) last = last_id-append next ids last

-- The database that a load starts from.
abbrev started : Db → (ℕ → Option Bytes) → Db
started db files = record {
  opts = db.opts;
  keydir = [];
  active_file = false;
  active_file_id = db.active_file_id;
  active_offset = 0;
  next_file_id = db.active_file_id + 1;
  readers = [];
  lock_file = true;
  is_closed = false;
  data_files = files;
  hint_files = db.hint_files;
}

-- The segments are still sealed if only the active file is another.
IsSealed-started :
    (db : Db) (files : ℕ → Option Bytes) (gs : List Segment)
    → ((i : ℕ) → i < db.active_file_id → files i ≡ db.data_files i)
    → All (IsSealed db) gs
    → All (IsSealed (started db files)) gs
IsSealed-started db files [] same all = tt
IsSealed-started db files (g ∷ gs) same all = (
  record {
    contents = same g.file_id all.0.before ∙ all.0.contents;
    fits = all.0.fits;
    hinted = all.0.hinted;
    before = all.0.before;
  },
  IsSealed-started db files gs same all.1,
)

open_files-loads :
    (db db' : Db) (gs : List Segment) (active : ℕ) (io : OpenIo)
    → active + 1 < 2 ^ 64
    → load_files
        (record db { active_file_id = active; next_file_id = active + 1 })
        (segment_ids gs ++ active ∷ [])
        io
      ≡ (db', ok tt)
    → db'.opts.read_write ≡ true
    → open_files db (segment_ids gs ++ active ∷ []) io ≡ open_active_file db' io
unfolding open_files
open_files-loads db db' [] active io small h w = ground (arith, h, mod-eq_of_lt small)
open_files-loads db db' (g ∷ gs) active io small h w =
    ground (arith, h, mod-eq_of_lt small, last_id-append g.file_id (segment_ids gs) active)

-- Behind the check of the directory, the lock and the listing.
abbrev locked : OpenOptions → (ℕ → Option Bytes) → (ℕ → Option Bytes) → Db
locked opts files hints = record {
  opts = opts;
  keydir = [];
  active_file = false;
  active_file_id = 0;
  active_offset = 0;
  next_file_id = 0;
  readers = [];
  lock_file = true;
  is_closed = false;
  data_files = files;
  hint_files = hints;
}

open-open_files :
    (opts : OpenOptions) (files hints : ℕ → Option Bytes) (ids : List ℕ) (io : OpenIo)
    → opts.read_write ≡ true
    → leb_ℤ opts.max_data_file_size_bytes (pos 0) ≡ false
    → OpensWith ids io
    → open_with_options opts files hints io ≡ open_files (locked opts files hints) ids io
unfolding open_with_options fresh_db open_checked acquire_writer_lock open_listed
open-open_files opts files hints ids io w size good =
    ground (arith, good.directory, good.layout, good.lock_open, good.lock, good.listing)

-- The active file read to its end, or up to a torn end that is cut off.
load_active :
    (db : Db) (keydir : Keydir) (contents : Bytes) (rs : List DecodedRecord) (io : OpenIo)
    → db.opts.read_write ≡ true
    → db.data_files db.active_file_id ≡ some contents
    → scan_data_file db.active_file_id true db.keydir contents ≡ scanned keydir none
    → load_file db db.active_file_id io ≡ (record db { keydir = keydir }, ok tt)
unfolding load_file scan_data_file_at after_scan
load_active db keydir contents rs io w at reads = ground (arith, w, at, reads)

load_torn :
    (db : Db) (keydir : Keydir) (contents : Bytes) (size : ℕ) (io : OpenIo)
    → db.opts.read_write ≡ true
    → db.data_files db.active_file_id ≡ some contents
    → scan_data_file db.active_file_id true db.keydir contents ≡ scanned keydir (some size)
    → (io.truncate ≡ true) × (io.seek ≡ true) × (io.sync ≡ true)
    → load_file db db.active_file_id io ≡ (
      record db {
        keydir = keydir;
        data_files = set_file db.data_files db.active_file_id (some (take size contents));
      },
      ok tt,
    )
unfolding load_file scan_data_file_at after_scan cut_tail
load_torn db keydir contents size io w at reads good = ground (arith, w, at, reads)

abbrev pub opened : Db → Db
opened db = record db { readers = []; lock_file = true }

-- What is left to do once the active file is loaded.
module _ (db : Db) (old : List Segment) (rs : List DecodedRecord) (files : ℕ → Option Bytes)
    (io : OpenIo) (rec : Recoverable old rs db)
    (good : OpensWith (segment_ids old ++ db.active_file_id ∷ []) io)
    (same : (i : ℕ) → i < db.active_file_id → files i ≡ db.data_files i) where
  before_active : Db
  before_active = record (started db files) { keydir = replay_segments [] old }

  opens_active :
      let now = record (started db files) { keydir = db.keydir; data_files = db.data_files } in
      open_active_file now io ≡ (opened db, ok tt)
  unfolding open_active_file
  opens_active = ground (
    arith, good.open_active, good.stat, rec.writable.active, rec.writable.opened,
    rec.writable.active_is, rec.writable.offset, rec.next,
  )

  reopen_active :
      load_file before_active db.active_file_id io
        ≡ (record (started db files) { keydir = db.keydir; data_files = db.data_files }, ok tt)
      → open_with_options db.opts files db.hint_files io ≡ (opened db, ok tt)
  unfolding before_active load_files
  reopen_active loads =
      let w = rec.writable in
      let now = record (started db files) { keydir = db.keydir; data_files = db.data_files } in
      open-open_files db.opts files db.hint_files _ io w.read_write rec.size_set good
      ∙ open_files-loads (locked db.opts files db.hint_files) now old db.active_file_id io
          (omega (arith, w.no_wrap, rec.next))
          (load_files-IsSealed (started db files) old (db.active_file_id ∷ []) io
              (IsSealed-started db files old same rec.sealed)
            ∙ load_files-ok before_active now db.active_file_id [] io loads)
          w.read_write
      ∙ opens_active

-- The files after a write of a record that stopped behind its first bytes.
abbrev pub torn_files : Db → DecodedRecord → ℕ → ℕ → Option Bytes
torn_files db r n =
    set_file db.data_files db.active_file_id
      (some (contents_of (db.data_files db.active_file_id) ++ take n (encode r)))

module _ (db : Db) (old : List Segment) (rs : List DecodedRecord) (io : OpenIo)
    (rec : Recoverable old rs db) (good : OpensWith (data_ids db) io) where
  -- A database whose keydir is what its files say, whose active file is followed by no other, and
  -- whose file size is set, comes back from its directory exactly as it was, with no cached reader
  -- and with the lock, if every call of the opening succeeds and the directory lists its data
  -- files.
  pub reopen_restores :
      open_with_options db.opts db.data_files db.hint_files io ≡ (opened db, ok tt)
  unfolding before_active
  reopen_restores =
      reopen_active db old rs db.data_files io rec (rw rec.listed at good) (λ i below. refl)
        (load_active
            (before_active db old rs db.data_files io rec (rw rec.listed at good) (λ i below. refl))
            (replay db.active_file_id 0 (replay_segments [] old) rs) (encode_all rs) rs io
            rec.writable.read_write rec.active
            (scan_data_file-replay db.active_file_id true (replay_segments [] old) rs rec.fits)
          ∙ ground (arith, rec.keydir))

  -- The cut leaves the files as they were in front of the write.
  cut_files :
      (r : DecodedRecord) (n : ℕ)
      → set_file (torn_files db r n) db.active_file_id (some (encode_all rs)) ≡ db.data_files
  cut_files r n = λ i j. cut j i
    where
      cut :
          (j : ℕ)
          → set_file (torn_files db r n) db.active_file_id (some (encode_all rs)) j
            ≡ db.data_files j
      cut j = elim (Bool-cases (db.active_file_id == j)) [
        | inl here ↦ ground (arith, here, rec.active)
        | inr other ↦ ground (arith, other)
      ]

  -- The same database that stopped inside a further record, so that only the first bytes of it
  -- reached the active file, comes back exactly as it was in front of the write, its files too, if
  -- the write did not stop between two parts of the record, and every call of the opening succeeds
  -- and the directory lists its data files.
  pub crash_recovers :
      (r : DecodedRecord) (n : ℕ)
      → Fits r.timestamp r.key r.value
      → n < record_bytes r
      → at_boundary (length r.key) n ≡ false
      → open_with_options db.opts (torn_files db r n) db.hint_files io ≡ (opened db, ok tt)
  unfolding before_active
  crash_recovers r n fit short inside =
      let torn = encode_all rs ++ take n (encode r) in
      let same : (i : ℕ) → i < db.active_file_id → torn_files db r n i ≡ db.data_files i =
        λ i below. ground (arith, below) in
      reopen_active db old rs (torn_files db r n) io rec (rw rec.listed at good) same (
        load_torn (before_active db old rs (torn_files db r n) io rec (rw rec.listed at good) same)
          (replay db.active_file_id 0 (replay_segments [] old) rs) torn (total_bytes rs) io
          rec.writable.read_write (ground (arith, rec.active))
          (scan_data_file-torn db.active_file_id true (replay_segments [] old) rs rec.fits r n fit
              short
            ∙ ground (arith, inside))
          (good.truncate, good.seek, good.sync)
        ∙ ground (
          arith,
          rec.keydir,
          cut_files r n,
          take-append_self (total_bytes rs) (encode_all rs) (take n (encode r))
              (sym (length-encode_all rs)),
        ))
