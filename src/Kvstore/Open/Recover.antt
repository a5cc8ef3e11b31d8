-- ===== src/Kvstore/Open/Recover.antt =====
-- Opening a directory restores the keydir of the database that wrote it.
pub mod Reopen
pub mod Writes
pub mod Rotation
pub mod Restart
use kvraft.Base.{
  ℕ, zero, suc, ◌+◌, ◌-◌, ◌%◌, ◌^◌, ◌≤◌, ◌<◌, ◌≡◌, ◌≢◌, refl, sym, ap, ◌∙◌, ◌⊎◌, inl, inr, Bool,
  true, false, not, ◌&&◌, Option, none, some, List, [], ◌∷◌, ◌++◌, Bytes, All, arith, length, take,
  ◌==◌, if◌then◌else◌,
}
use kvraft.Base.Int.{ℤ, pos, leb_ℤ}
use kvraft.Base.Assoc.{lookup, bytes_eq}
use kvraft.Kvstore.Types.{Error, Result, ok, err, KeyDirEntry, DecodedRecord}
use kvraft.Kvstore.Keydir.{Keydir}
use kvraft.Kvstore.Names.Layout.{AreAscending}
use kvraft.Kvstore.Scan.{ScanResult, scanned, scan_data_file, scan_hint_file}
use kvraft.Kvstore.Scan.Replay.{encode_all, AllFit, replay, scan_data_file-replay}
use kvraft.Kvstore.Store.Files.{Db}
use kvraft.Kvstore.Store.Files.Append.{IsWritable}
use kvraft.Kvstore.Open.{OpenIo, scan_data_file_at, scan_hint_file_at, load_file, load_files}

-- A file that is written no more, by its records.
pub record Segment : Type 0 where
  pub file_id : ℕ
  pub records : List DecodedRecord

unfoldable pub replay_segments : Keydir → List Segment → Keydir
replay_segments keydir [] = keydir
replay_segments keydir (g ∷ gs) = replay_segments (replay g.file_id 0 keydir g.records) gs

abbrev pub segment_ids : List Segment → List ℕ
segment_ids [] = []
segment_ids (g ∷ gs) = g.file_id ∷ segment_ids gs

-- The hint file of a segment, if there is one, stands for the segment's records.
abbrev pub HintAgrees : Option Bytes → Segment → Type 0
HintAgrees none g = Unit
HintAgrees (some hints) g =
    (keydir : Keydir)
    → scan_hint_file g.file_id keydir hints ≡ scanned (replay g.file_id 0 keydir g.records) none

pub record IsSealed (db : Db) (g : Segment) : Type 0 where
  pub contents : db.data_files g.file_id ≡ some (encode_all g.records)
  pub fits : AllFit g.records
  pub hinted : HintAgrees (db.hint_files g.file_id) g
  pub before : g.file_id < db.active_file_id

abbrev pub is_there : Option Bytes → Bool
is_there none = false
is_there (some _) = true

-- The ids below a bound that a file has, in ascending order.
unfoldable pub ids_below : (ℕ → Option Bytes) → ℕ → List ℕ
ids_below files zero = []
ids_below files (suc n) =
    let rest = ids_below files n in if is_there (files n) then rest ++ n ∷ [] else rest

abbrev pub data_ids : Db → List ℕ
data_ids db = ids_below db.data_files db.next_file_id

pub ids_below-same :
    (f g : ℕ → Option Bytes) (n : ℕ)
    → ((i : ℕ) → i < n → is_there (f i) ≡ is_there (g i))
    → ids_below f n ≡ ids_below g n
unfolding ids_below
ids_below-same f g zero same = refl
ids_below-same f g (suc n) same =
    ground
      (arith, same n (omega arith), ids_below-same f g n (λ i below. same i (omega (arith, below))))

pub ids_below-next :
    (f : ℕ → Option Bytes) (n : ℕ)
    → is_there (f n) ≡ true
    → ids_below f (n + 1) ≡ ids_below f n ++ n ∷ []
unfolding ids_below
ids_below-next f n found = let e : n + 1 ≡ suc n = omega arith in rw e (ground (arith, found))

-- An entry that points in front of the end of the active file.
abbrev pub IsBehind : Db → KeyDirEntry → Type 0
IsBehind db e =
    (e.file_id < db.active_file_id)
    ⊎ ((e.file_id ≡ db.active_file_id)
        × ((at : ℕ) × (e.file_offset ≡ pos at) × (at < db.active_offset)))

-- A database whose keydir is what its files say: sealed segments of ascending ids, and the active
-- file with the records `rs`.
pub record Recoverable (old : List Segment) (rs : List DecodedRecord) (db : Db) : Type 0 where
  pub writable : IsWritable db
  pub size_set : leb_ℤ db.opts.max_data_file_size_bytes (pos 0) ≡ false
  pub sealed : All (IsSealed db) old
  pub active : db.data_files db.active_file_id ≡ some (encode_all rs)
  pub listed : data_ids db ≡ segment_ids old ++ db.active_file_id ∷ []
  pub fits : AllFit rs
  pub next : db.next_file_id ≡ db.active_file_id + 1
  pub ascending : AreAscending (segment_ids old ++ db.active_file_id ∷ [])
  pub keydir : db.keydir ≡ replay db.active_file_id 0 (replay_segments [] old) rs
  pub behind : (key : Bytes) (e : KeyDirEntry) → lookup key db.keydir ≡ some e → IsBehind db e

-- A sealed segment is loaded, from its hints or from its data.
load_file-IsSealed :
    (db : Db) (g : Segment) (io : OpenIo)
    → IsSealed db g
    → load_file db g.file_id io
      ≡ (record db { keydir = replay g.file_id 0 db.keydir g.records }, ok tt)
unfolding load_file scan_data_file_at scan_hint_file_at
load_file-IsSealed db g io s = go (db.hint_files g.file_id) refl s.hinted
  where
    go :
        (hints : Option Bytes)
        → db.hint_files g.file_id ≡ hints
        → HintAgrees hints g
        → load_file db g.file_id io
          ≡ (record db { keydir = replay g.file_id 0 db.keydir g.records }, ok tt)
    go none at agrees = ground (
      arith,
      at,
      s.before,
      s.contents,
      scan_data_file-replay g.file_id false db.keydir g.records s.fits,
    )
    go (some hints) at agrees = ground (arith, at, s.before, agrees db.keydir)

-- The keydir does not matter for what the files are.
IsSealed-keydir :
    (db : Db) (keydir : Keydir) (gs : List Segment)
    → All (IsSealed db) gs
    → All (IsSealed (record db { keydir = keydir })) gs
IsSealed-keydir db keydir [] all = tt
IsSealed-keydir db keydir (g ∷ gs) all = (
  record {
    contents = all.0.contents;
    fits = all.0.fits;
    hinted = all.0.hinted;
    before = all.0.before;
  },
  IsSealed-keydir db keydir gs all.1,
)

-- Loading goes on from where one file leaves it.
load_files-ok :
    (db db' : Db) (id : ℕ) (ids : List ℕ) (io : OpenIo)
    → load_file db id io ≡ (db', ok tt)
    → load_files db (id ∷ ids) io ≡ load_files db' ids io
unfolding load_files
load_files-ok db db' id ids io h = ground (arith, h)

pub load_files-IsSealed :
    (db : Db) (gs : List Segment) (ids : List ℕ) (io : OpenIo)
    → All (IsSealed db) gs
    → load_files db (segment_ids gs ++ ids) io
      ≡ load_files (record db { keydir = replay_segments db.keydir gs }) ids io
unfolding load_files replay_segments
load_files-IsSealed db [] ids io all = refl
load_files-IsSealed db (g ∷ gs) ids io all =
    let now = record db { keydir = replay g.file_id 0 db.keydir g.records } in
    load_files-ok db now g.file_id (segment_ids gs ++ ids) io (load_file-IsSealed db g io all.0)
    ∙ load_files-IsSealed now gs ids io (IsSealed-keydir db now.keydir gs all.1)
