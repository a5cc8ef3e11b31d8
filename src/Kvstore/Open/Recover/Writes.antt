-- ===== src/Kvstore/Open/Recover/Writes.antt =====
-- Put and Delete keep the keydir to what the files say.
use kvraft.Base.{
  ℕ, ◌+◌, ◌%◌, ◌^◌, ◌≡◌, refl, sym, ap, ◌∙◌, ◌⊎◌, inl, inr, Bool, true, false, Option, none, some,
  List, [], ◌∷◌, ◌++◌, Bytes, All, arith, length, eq_bytes, ◌==◌, if◌then◌else◌, Bool-cases,
  append-nil, append_assoc,
}
use kvraft.Base.Int.{ℤ, pos, ltb_ℤ}
use kvraft.Base.Assoc.{lookup, insert, delete, lookup-insert, lookup-delete, bytes_eq}
use kvraft.Kvstore.Types.{KeyDirEntry, DecodedRecord, tombstone_value}
use kvraft.Kvstore.Codec.RoundTrip.{Fits, length-encode}
use kvraft.Kvstore.Keydir.{Keydir, should_replace, apply_keydir_update}
use kvraft.Kvstore.Scan.{scan_record}
use kvraft.Kvstore.Scan.Replay.{
  encode, encode_all, record_bytes, total_bytes, AllFit, replay, length-encode_all,
}
use kvraft.Kvstore.Store.Files.{Db}
use kvraft.Kvstore.Store.Files.Append.{IsWritable, written}
use kvraft.Kvstore.Open.Recover.{
  is_there, ids_below-same, Segment, replay_segments, segment_ids, IsSealed, IsBehind, Recoverable,
}

replay-append :
    (file_id offset : ℕ) (keydir : Keydir) (rs : List DecodedRecord) (r : DecodedRecord)
    → replay file_id offset keydir (rs ++ r ∷ [])
      ≡ scan_record file_id
          (offset + total_bytes rs)
          (replay file_id offset keydir rs)
          r
          (record_bytes r)
unfolding replay
replay-append file_id offset keydir [] r =
    ap (λ (at : ℕ). scan_record file_id at keydir r (record_bytes r)) (omega arith)
replay-append file_id offset keydir (s ∷ rs) r =
    replay-append file_id (offset + record_bytes s)
      (scan_record file_id offset keydir s (record_bytes s)) rs r
    ∙ ap
        (λ (at : ℕ).
          scan_record file_id at
            (replay file_id (offset + record_bytes s)
              (scan_record file_id offset keydir s (record_bytes s)) rs)
            r (record_bytes r))
        (omega arith)

encode_all-append :
    (rs : List DecodedRecord) (r : DecodedRecord)
    → encode_all (rs ++ r ∷ []) ≡ encode_all rs ++ encode r
encode_all-append [] r = append-nil (encode r)
encode_all-append (s ∷ rs) r =
    ap (λ (x : Bytes). encode s ++ x) (encode_all-append rs r)
    ∙ sym (append_assoc (encode s) (encode_all rs) (encode r))

AllFit-append :
    (rs : List DecodedRecord) (r : DecodedRecord)
    → AllFit rs
    → Fits r.timestamp r.key r.value
    → AllFit (rs ++ r ∷ [])
AllFit-append [] r fits fit = (fit, tt)
AllFit-append (s ∷ rs) r fits fit = (fits.0, AllFit-append rs r fits.1 fit)

pub replay_segments-append :
    (keydir : Keydir) (gs : List Segment) (g : Segment)
    → replay_segments keydir (gs ++ g ∷ [])
      ≡ replay g.file_id 0 (replay_segments keydir gs) g.records
unfolding replay_segments
replay_segments-append keydir [] g = refl
replay_segments-append keydir (h ∷ gs) g =
    replay_segments-append (replay h.file_id 0 keydir h.records) gs g

pub segment_ids-append :
    (gs : List Segment) (g : Segment)
    → segment_ids (gs ++ g ∷ []) ≡ segment_ids gs ++ g.file_id ∷ []
segment_ids-append [] g = refl
segment_ids-append (h ∷ gs) g = ap (λ (x : List ℕ). h.file_id ∷ x) (segment_ids-append gs g)

-- An entry that is behind the end, and not later, gives way to one at the end.
behind-replaced :
    (db : Db) (e : KeyDirEntry) (size : ℕ) (ts : ℤ)
    → IsBehind db e
    → ltb_ℤ ts e.time_stamp ≡ false
    → should_replace e (record {
      file_id = db.active_file_id;
      file_offset = pos db.active_offset;
      record_size = size;
      time_stamp = ts;
    })
      ≡ true
unfolding should_replace
behind-replaced db e size ts (inl below) later = ground (arith, below)
behind-replaced db e size ts (inr (here, (at, offset, below))) later =
    ground (arith, here, offset, below)

-- The time of a write of the key is not before that of the write on record.
abbrev pub NotBefore : Db → Bytes → ℤ → Type 0
NotBefore db key ts =
    (e : KeyDirEntry) → lookup key db.keydir ≡ some e → ltb_ℤ ts e.time_stamp ≡ false

-- The entry of a record at the end of the active file.
abbrev pub end_entry : Db → DecodedRecord → KeyDirEntry
end_entry db r = record {
  file_id = db.active_file_id;
  file_offset = pos db.active_offset;
  record_size = record_bytes r % 2 ^ 32;
  time_stamp = r.timestamp;
}

abbrev is_tombstone : DecodedRecord → Bool
is_tombstone r = eq_bytes r.value tombstone_value

-- What a write does to the keydir.
abbrev pub written_keydir : Db → DecodedRecord → Keydir
written_keydir db r =
    if is_tombstone r then delete r.key db.keydir else insert r.key (end_entry db r) db.keydir

module _ (db : Db) (r : DecodedRecord)
    (behind : (key : Bytes) (e : KeyDirEntry) → lookup key db.keydir ≡ some e → IsBehind db e)
    (later : NotBefore db r.key r.timestamp) where
  -- A scan that comes to the record does what the write did.
  scanned_keydir :
      scan_record db.active_file_id db.active_offset db.keydir r (record_bytes r)
      ≡ written_keydir db r
  unfolding scan_record apply_keydir_update
  scanned_keydir = go (lookup r.key db.keydir) refl
    where
      go :
          (o : Option KeyDirEntry)
          → lookup r.key db.keydir ≡ o
          → scan_record db.active_file_id db.active_offset db.keydir r (record_bytes r)
            ≡ written_keydir db r
      go none at = ground (arith, at)
      go (some e) at = ground (
        arith,
        at,
        behind-replaced db e (record_bytes r % 2 ^ 32) r.timestamp (behind r.key e at) (later e at),
      )

  written_entry :
      (j : Bytes) (e : KeyDirEntry)
      → lookup j (written_keydir db r) ≡ some e
      → (e ≡ end_entry db r) ⊎ (lookup j db.keydir ≡ some e)
  written_entry j e at = elim (Bool-cases (is_tombstone r)) [
    | inl gone ↦ ground (arith, at, gone, lookup-delete r.key j db.keydir)
    | inr live ↦ ground (arith, at, live, lookup-insert r.key j (end_entry db r) db.keydir)
  ]

  written_behind :
      (contents : Bytes) (j : Bytes) (e : KeyDirEntry)
      → lookup j (written_keydir db r) ≡ some e
      → IsBehind (record (written db contents (encode r)) { keydir = written_keydir db r }) e
  written_behind contents j e at = elim (written_entry j e at) [
    | inl end ↦ inr (
      ap (λ (x : KeyDirEntry). x.file_id) end,
      (
        db.active_offset,
        ap (λ (x : KeyDirEntry). x.file_offset) end,
        omega (arith, length-encode r.timestamp r.key r.value),
      ),
    )
    | inr was ↦ elim (behind j e was) [
      | inl below ↦ inl below
      | inr (here, (x, offset, below)) ↦ inr (here, (x, offset, omega arith))
    ]
  ]

-- The database behind a write that stayed in the active file.
abbrev pub put_at_end : Db → Bytes → DecodedRecord → Db
put_at_end db contents r = record (written db contents (encode r)) { keydir = written_keydir db r }

IsSealed-written :
    (db : Db) (contents : Bytes) (keydir : Keydir) (r : DecodedRecord) (gs : List Segment)
    → All (IsSealed db) gs
    → All (IsSealed (record (written db contents (encode r)) { keydir = keydir })) gs
IsSealed-written db contents keydir r [] all = tt
IsSealed-written db contents keydir r (g ∷ gs) all = (
  record {
    contents = ground (arith, all.0.contents, all.0.before);
    fits = all.0.fits;
    hinted = all.0.hinted;
    before = all.0.before;
  },
  IsSealed-written db contents keydir r gs all.1,
)

-- The active file of a recoverable database is the records, and its size the offset.
pub active_contents :
    (old : List Segment) (rs : List DecodedRecord) (db : Db)
    → (rec : Recoverable old rs db)
    → (rec.writable.contents ≡ encode_all rs) × (db.active_offset ≡ total_bytes rs)
active_contents old rs db rec =
    let same : rec.writable.contents ≡ encode_all rs = (cc (rec.writable.active_is, rec.active)) in
    (same, rec.writable.offset ∙ ap (λ (x : Bytes). length x) same ∙ length-encode_all rs)

-- A write of a record that fits the format, no earlier than the one on record for its key.
pub put_at_end-Recoverable :
    (old : List Segment) (rs : List DecodedRecord) (db : Db) (r : DecodedRecord)
    → (rec : Recoverable old rs db) → Fits r.timestamp r.key r.value
    → NotBefore db r.key r.timestamp
    → IsWritable (put_at_end db (encode_all rs) r)
    → Recoverable old (rs ++ r ∷ []) (put_at_end db (encode_all rs) r)
put_at_end-Recoverable old rs db r rec fit later writable =
    let (same, offset) = active_contents old rs db rec in
    let at : 0 + total_bytes rs ≡ db.active_offset = omega (arith, offset) in
    record {
      writable = writable;
      size_set = rec.size_set;
      sealed = IsSealed-written db (encode_all rs) (written_keydir db r) r old rec.sealed;
      active = ground (arith, encode_all-append rs r);
      listed =
          ids_below-same (put_at_end db (encode_all rs) r).data_files db.data_files db.next_file_id
            (λ i below. kept i)
          ∙ rec.listed;
      fits = AllFit-append rs r rec.fits fit;
      next = rec.next;
      ascending = rec.ascending;
      keydir = sym (
          replay-append db.active_file_id 0 (replay_segments [] old) rs r
          ∙ rw (← rec.keydir, at) (scanned_keydir db r rec.behind later));
      behind = written_behind db r rec.behind later (encode_all rs);
    }
  where
    kept :
        (i : ℕ)
        → is_there ((put_at_end db (encode_all rs) r).data_files i) ≡ is_there (db.data_files i)
    kept i = elim (Bool-cases (db.active_file_id == i)) [
      | inl here ↦ ground (arith, here, rec.active)
      | inr other ↦ ground (arith, other)
    ]
