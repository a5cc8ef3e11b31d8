-- ===== src/Kvstore/Open/Recover/Rotation.antt =====
-- Rotation seals the active file, and every write that succeeds keeps the database recoverable.
use kvraft.Base.{
  ℕ, ◌+◌, ◌^◌, ◌<◌, ◌≡◌, refl, sym, ap, subst, ◌∙◌, inl, inr, true, Option, none, some, List, [],
  ◌∷◌, ◌++◌, Bytes, All, All-append, arith, if◌then◌else◌, Bool-cases, eq_bytes,
}
use kvraft.Base.Int.{ℤ}
use kvraft.Base.Assoc.{insert, delete, bytes_eq}
use kvraft.Kvstore.Types.{ok, KeyDirEntry, DecodedRecord, tombstone_value}
use kvraft.Kvstore.Codec.RoundTrip.{Fits, length-encode}
use kvraft.Kvstore.Keydir.{Keydir}
use kvraft.Kvstore.Names.Layout.{AreAscending-next}
use kvraft.Kvstore.Scan.{scanned, scan_hint_file}
use kvraft.Kvstore.Scan.Replay.{encode, encode_all, replay, scan_data_file-replay}
use kvraft.Kvstore.Hint.{hint_file_of}
use kvraft.Kvstore.Hint.Equivalent.{hint_file-equivalent}
use kvraft.Kvstore.Store.Files.{
  Db, RotateIo, AppendIo, set_file, create_new_active_file, write_hint_for_data_file,
  rotate_active_file_locked, write_record, needs_rotation, append_record_locked,
}
use kvraft.Kvstore.Store.Files.Append.{
  IsWritable, rotated, rotate-eq-rotated, rotated-Rotated, written, write-eq-written,
  written-Appended, append_in_place, append_after_rotation,
}
use kvraft.Kvstore.Store.Write.{put, delete_key}
use kvraft.Kvstore.Store.Durable.{IsWritable-keydir, put-inversion, delete_key-inversion}
use kvraft.Kvstore.Open.Recover.{
  data_ids, ids_below-next, ids_below-same, Segment, segment_ids, IsSealed, Recoverable,
}
use kvraft.Kvstore.Open.Recover.Writes.{
  replay_segments-append, segment_ids-append, NotBefore, end_entry, written_keydir, active_contents,
  put_at_end-Recoverable,
}

-- The active file as a segment.
abbrev seal : Db → List DecodedRecord → Segment
seal db rs = record { file_id = db.active_file_id; records = rs }

rotate-hints :
    (db : Db) (io : RotateIo) (contents hints : Bytes) {db' : Db}
    → IsWritable db
    → db.data_files db.active_file_id ≡ some contents
    → hint_file_of contents ≡ some (ok hints)
    → rotate_active_file_locked db io ≡ (db', ok tt)
    → db'.hint_files ≡ set_file db.hint_files db.active_file_id (some hints)
unfolding rotate_active_file_locked create_new_active_file write_hint_for_data_file
rotate-hints db io contents hints w at writes h = ground (arith, at, writes, w.active)

-- The new file is listed behind the others.
data_ids-rotated :
    (db : Db) (hints : ℕ → Option Bytes)
    → data_ids (rotated db hints) ≡ data_ids db ++ db.next_file_id ∷ []
data_ids-rotated db hints =
    ids_below-next (rotated db hints).data_files db.next_file_id (ground arith)
    ∙ ap (λ (x : List ℕ). x ++ db.next_file_id ∷ [])
        (ids_below-same (rotated db hints).data_files db.data_files db.next_file_id
          (λ i below. ground (arith, below)))

IsSealed-rotated :
    (db : Db) (hints : Bytes) (gs : List Segment)
    → db.active_file_id < db.next_file_id
    → All (IsSealed db) gs
    → All (IsSealed (rotated db (set_file db.hint_files db.active_file_id (some hints)))) gs
IsSealed-rotated db hints [] below all = tt
IsSealed-rotated db hints (g ∷ gs) below all =
    let same : set_file db.hint_files db.active_file_id (some hints) g.file_id
        ≡ db.hint_files g.file_id =
      ground (arith, all.0.before) in
    (
      record {
        contents = ground (arith, all.0.contents, all.0.before);
        fits = all.0.fits;
        hinted = rw same all.0.hinted;
        before = omega (arith, all.0.before);
      },
      IsSealed-rotated db hints gs below all.1,
    )

module _ (old : List Segment) (rs : List DecodedRecord) (db : Db) (rec : Recoverable old rs db)
    (room : db.next_file_id + 2 < 2 ^ 64) (small : db.active_offset < 2 ^ 63) where
  -- The old active file becomes a sealed segment, with the hint file that the rotation wrote.
  rotated-Recoverable :
      (hints : Bytes)
      → hint_file_of (encode_all rs) ≡ some (ok hints)
      → ((keydir : Keydir)
          → scan_hint_file db.active_file_id keydir hints
            ≡ scanned (replay db.active_file_id 0 keydir rs) none)
      → Recoverable
          (old ++ seal db rs ∷ [])
          []
          (rotated db (set_file db.hint_files db.active_file_id (some hints)))
  unfolding replay
  rotated-Recoverable hints writes agrees =
      let w = rec.writable in
      let now = rotated db (set_file db.hint_files db.active_file_id (some hints)) in
      let here : now.hint_files db.active_file_id ≡ some hints = ground arith in
      record {
        writable = (rotated-Rotated db now.hint_files w).writable (omega (arith, room));
        size_set = rec.size_set;
        sealed =
            All-append (IsSealed now) old (seal db rs ∷ [])
              (IsSealed-rotated db hints old w.below rec.sealed)
              (
                (record {
                  contents = ground (arith, rec.active, w.below);
                  fits = rec.fits;
                  hinted = rw here agrees;
                  before = w.below;
                }),
                tt,
              );
        active = ground arith;
        listed = rw (segment_ids-append old (seal db rs)) (
            data_ids-rotated db now.hint_files
            ∙ ap (λ (x : List ℕ). x ++ db.next_file_id ∷ []) rec.listed);
        fits = tt;
        next = refl;
        ascending = rw (segment_ids-append old (seal db rs)) (
            AreAscending-next (segment_ids old) db.active_file_id db.next_file_id rec.ascending
              w.below (omega (arith, w.no_wrap)));
        keydir = rec.keydir ∙ sym (replay_segments-append [] old (seal db rs));
        behind = λ key e at. elim (rec.behind key e at) [
          | inl before ↦ inl (omega (arith, w.below))
          | inr (here, _) ↦ inl (omega (arith, w.below))
        ];
      }

  rotation-Recoverable :
      (io : RotateIo) {db' : Db}
      → rotate_active_file_locked db io ≡ (db', ok tt)
      → Recoverable (old ++ seal db rs ∷ []) [] db'
        × (db'.keydir ≡ db.keydir)
        × (db'.next_file_id ≡ db.next_file_id + 1)
  rotation-Recoverable io {db'} turns =
      let (same, offset) = active_contents old rs db rec in
      let (hints, writes, agrees) =
        hint_file-equivalent db.active_file_id true db.keydir rs rec.fits (omega (arith, offset)) in
      let all_agree : (keydir : Keydir)
          → scan_hint_file db.active_file_id keydir hints
            ≡ scanned (replay db.active_file_id 0 keydir rs) none =
        λ keydir.
          let (other, writes', agrees') =
            hint_file-equivalent db.active_file_id true keydir rs rec.fits
              (omega (arith, offset)) in
          let e : other ≡ hints = cc (writes, writes') in
          rw e at agrees' ∙ scan_data_file-replay db.active_file_id true keydir rs rec.fits in
      let is : db' ≡ rotated db (set_file db.hint_files db.active_file_id (some hints)) =
        rotate-eq-rotated db io rec.writable turns
        ∙ ap (rotated db) (rotate-hints db io _ hints rec.writable rec.active writes turns) in
      (
        subst (Recoverable (old ++ seal db rs ∷ []) []) (sym is)
            (rotated-Recoverable hints writes all_agree),
        ap (λ (x : Db). x.keydir) is,
        ap (λ (x : Db). x.next_file_id) is,
      )

-- The write itself, of a record that fits the format and is no earlier than the key's.
written-Recoverable :
    (old : List Segment) (rs : List DecodedRecord) (db : Db) (r : DecodedRecord) (io : AppendIo)
    {db' : Db} {entry : KeyDirEntry}
    → Recoverable old rs db
    → db.next_file_id + 1 < 2 ^ 64
    → Fits r.timestamp r.key r.value
    → NotBefore db r.key r.timestamp
    → write_record db (encode r) r.timestamp io ≡ (db', ok entry)
    → (entry ≡ end_entry db r)
      × (db'.keydir ≡ db.keydir)
      × Recoverable old (rs ++ r ∷ []) (record db' { keydir = written_keydir db r })
written-Recoverable old rs db r io {db'} {entry} rec room fit later writes =
    let (is, at) =
      write-eq-written db (encode r) r.timestamp io (encode_all rs) rec.active writes in
    let (same, _) = active_contents old rs db rec in
    let w = (rw same at (written-Appended db (encode r) r.timestamp rec.writable)).writable room in
    (
      at ∙ ground (arith, length-encode r.timestamp r.key r.value),
      ap (λ (x : Db). x.keydir) is,
      subst (λ (x : Db). Recoverable old (rs ++ r ∷ []) (record x { keydir = written_keydir db r }))
          (sym is)
          (put_at_end-Recoverable old rs db r rec fit later
            (IsWritable-keydir (written db (encode_all rs) (encode r)) (written_keydir db r) w)),
    )

-- The database after a write has some sealed segments and some records in the active file.
abbrev pub IsRecoverable : Db → Type 0
IsRecoverable db = (old : List Segment) × ((rs : List DecodedRecord) × Recoverable old rs db)

append-IsRecoverable :
    (old : List Segment) (rs : List DecodedRecord) (db : Db) (r : DecodedRecord) (io : AppendIo)
    {mid : Db} {entry : KeyDirEntry}
    → Recoverable old rs db
    → db.next_file_id + 2 < 2 ^ 64
    → db.active_offset < 2 ^ 63
    → Fits r.timestamp r.key r.value
    → NotBefore db r.key r.timestamp
    → append_record_locked db (encode r) r.timestamp io ≡ (mid, ok entry)
    → IsRecoverable (record mid {
      keydir =
          if eq_bytes r.value tombstone_value
          then delete r.key mid.keydir
          else insert r.key entry mid.keydir;
    })
append-IsRecoverable old rs db r io {mid} {entry} rec room small fit later runs =
    elim (Bool-cases (needs_rotation db (encode r))) [
      | inr stays ↦
          let (at, same, now) =
            written-Recoverable old rs db r io rec (omega (arith, room)) fit later
              (append_in_place db (encode r) r.timestamp io rec.writable.active runs stays) in
          (old, (rs ++ r ∷ [], rw (at, same) now))
      | inl moves ↦
          let (turns, writes) =
            append_after_rotation db (encode r) r.timestamp io rec.writable.active runs moves in
          let turned = (rotate_active_file_locked db io.rotate).0 in
          let (rec', keeps, next) = rotation-Recoverable old rs db rec room small io.rotate turns in
          let later' : NotBefore turned r.key r.timestamp =
            λ e found. later e (rw keeps at found) in
          let (at, same, now) =
            written-Recoverable (old ++ seal db rs ∷ []) [] turned r io rec'
              (omega (arith, room, next)) fit later' writes in
          (old ++ seal db rs ∷ [], (r ∷ [], rw (at, same) now))
    ]

module _ (db : Db) (is : IsRecoverable db) (room : db.next_file_id + 2 < 2 ^ 64)
    (small : db.active_offset < 2 ^ 63) (key : Bytes) (ts : ℤ) (later : NotBefore db key ts)
    (io : AppendIo) where
  pub put-IsRecoverable :
      (value : Bytes) {db' : Db}
      → Fits ts key value
      → put db key value ts io ≡ (db', ok tt)
      → IsRecoverable db'
  put-IsRecoverable value {db'} fit runs =
      let (old, (rs, rec)) = is in
      let (entry, live, appends, same) = put-inversion db key value ts io runs in
      let r : DecodedRecord = record { timestamp = ts; key = key; value = value } in
      rw same (rw live at (append-IsRecoverable old rs db r io rec room small fit later appends))

  pub delete_key-IsRecoverable :
      {db' : Db}
      → Fits ts key tombstone_value
      → delete_key db key ts io ≡ (db', ok tt)
      → IsRecoverable db'
  unfolding eq_bytes
  delete_key-IsRecoverable {db'} fit runs =
      let (old, (rs, rec)) = is in
      let (entry, appends, same) = delete_key-inversion db key ts io runs in
      let r : DecodedRecord = record { timestamp = ts; key = key; value = tombstone_value } in
      rw same (append-IsRecoverable old rs db r io rec room small fit later appends)
