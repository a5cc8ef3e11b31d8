-- ===== src/Kvstore/Merge/Collect/Rounds.antt =====
-- The rounds of the loop over the keys, and the whole first phase.
use kvraft.Base.{
  ℕ, ◌+◌, ◌^◌, ◌≤◌, ◌<◌, ◌≡◌, ◌≢◌, refl, ap, ◌∙◌, inl, inr, true, false, none, some, List, [], ◌∷◌,
  Bytes, All, arith, length, eq_bytes_iff, Option-cases,
}
use kvraft.Base.Assoc.{lookup, lookup-insert, bytes_eq}
use kvraft.Kvstore.Types.{ok, KeyDirEntry, DecodedRecord, Result-cases}
use kvraft.Kvstore.Codec.{encode_data_record}
use kvraft.Kvstore.Keydir.{Keydir}
use kvraft.Kvstore.Store.Files.{Db}
use kvraft.Kvstore.Store.Read.{read_record_at_entry}
use kvraft.Kvstore.Store.Durable.{Holds}
use kvraft.Kvstore.Store.Keys.{keys_of, sort_strings}
use kvraft.Kvstore.Store.Keys.Sorted.{
  member, member-keys_of, member-sort_strings, every_member, member_of_All,
}
use kvraft.Kvstore.Merge.{
  MergeFile, KeyIo, MergeIo, Merged, merge_target, merge_write, entry_of, merge_record, merge_key,
  merge_keys, collect,
}
use kvraft.Kvstore.Merge.Files.{renamed, read-Holds}
use kvraft.Kvstore.Merge.Collect.{Collecting, target-Collecting}
use kvraft.Kvstore.Merge.Collect.Writing.{rec_of, after_write, write-Collecting}

-- One key: the record is read, and written to the file at hand or a new one.
merge_record-inversion :
    (now now' : Db) (m m' : Merged) (key : Bytes) (rec : DecodedRecord) (io : KeyIo)
    → merge_record now m key rec io ≡ (now', ok m')
    → (full : List MergeFile) × (f : MergeFile) × (g : MergeFile) × (e : KeyDirEntry)
      × (merge_target now m.full m.current
            (length (encode_data_record rec.timestamp key rec.value))
            io
          ≡ (now', ok (full, f)))
      × (merge_write f key rec io ≡ ok (g, e))
      × (m' ≡ after_write m full g key e)
unfolding merge_record
merge_record-inversion now now' m m' key rec io h =
    elim (Result-cases
      (merge_target now m.full m.current (length (encode_data_record rec.timestamp key rec.value))
        io).1) [
          | inr (e, bad) ↦ absurd (ground (arith, bad))
          | inl ((full, f), good) ↦ elim (Result-cases (merge_write f key rec io)) [
            | inr (e, bad) ↦ absurd (ground (arith, good, bad))
            | inl ((g, e), writes) ↦
                (full, f, g, e, ground (arith, good, writes), writes, ground (arith, good, writes))
          ]
        ]

-- The entries after a round are those before it and the key's.
Keeps : Merged → Merged → Type 0
Keeps m m' = (j : Bytes) → lookup j m.entries ≢ none → lookup j m'.entries ≢ none

module _ (snapshot : Keydir) (db now now' : Db) (m m' : Merged) (key value : Bytes) (io : KeyIo)
    (c : Collecting snapshot db now m) (h : Holds db key value)
    (at_entry : lookup key db.keydir ≡ some (entry_of snapshot key))
    (some_id : 0 < now.next_file_id) (room : now.next_file_id + 1 < 2 ^ 64)
    (opened : now.is_closed ≡ false) where
  merge_record-Collecting :
      merge_record now m key (rec_of h) io ≡ (now', ok m')
      → Collecting snapshot db now' m'
        × (now'.next_file_id ≤ now.next_file_id + 1)
        × Keeps m m'
        × (lookup key m'.entries ≢ none)
  unfolding Keeps
  merge_record-Collecting runs =
      let (full, f, g, e, targets, writes, is) =
        merge_record-inversion now now' m m' key (rec_of h) io runs in
      let (c', next) =
        target-Collecting snapshot db now m c now' full f _ io opened some_id room targets in
      rw is (
        write-Collecting snapshot db now' m full f g key value e io c' h at_entry writes,
        next,
        (λ j there. ground (arith, there, lookup-insert key j e m.entries)),
        ground (arith, lookup-insert key key e m.entries, eq_bytes_iff key key),
      )

Holds-same :
    (db now : Db) (key value : Bytes)
    → now.keydir ≡ db.keydir
    → now.data_files ≡ db.data_files
    → (h : Holds db key value) → Holds now key value
Holds-same db now key value keys files h = record {
  ts = h.ts;
  file_id = h.file_id;
  pre = h.pre;
  post = h.post;
  fits = h.fits;
  small = h.small;
  live = h.live;
  indexed = rw keys h.indexed;
  stored = rw files h.stored;
}

Collecting-readers :
    (snapshot : Keydir) (db now : Db) (m : Merged) (readers : List ℕ)
    → Collecting snapshot db now m
    → Collecting snapshot db (record now { readers = readers }) m
Collecting-readers snapshot db now m readers c = record {
  same = ap (λ (x : Db). record x { readers = readers }) c.same;
  next = c.next;
  above = c.above;
  below = c.below;
  offset = c.offset;
  distinct = c.distinct;
  copies = c.copies;
}

module _ (snapshot : Keydir) (db now : Db) (m : Merged) (key value : Bytes)
    (c : Collecting snapshot db now m) (h : Holds db key value) (opened : db.is_closed ≡ false)
    (at : lookup key db.keydir ≡ some (entry_of snapshot key)) where
  read_lem :
      (readers : List ℕ) × (read_record_at_entry now key (entry_of snapshot key)
        ≡ (record now { readers = readers }, ok (rec_of h)))
  unfolding Holds-same
  read_lem =
      let keys = ap (λ (x : Db). x.keydir) c.same in
      let files = ap (λ (x : Db). x.data_files) c.same in
      let still = ap (λ (x : Db). x.is_closed) c.same ∙ opened in
      (
        (read_record_at_entry now key (entry_of snapshot key)).0.readers,
        read-Holds now key value still (Holds-same db now key value keys files h)
            (entry_of snapshot key) (rw keys at),
      )

  merge_key-Collecting :
      (now' : Db) (m' : Merged) (io : KeyIo)
      → 0 < now.next_file_id
      → now.next_file_id + 1 < 2 ^ 64
      → merge_key snapshot now m key io ≡ (now', ok m')
      → Collecting snapshot db now' m'
        × (now'.next_file_id ≤ now.next_file_id + 1)
        × Keeps m m'
        × (lookup key m'.entries ≢ none)
  unfolding merge_key
  merge_key-Collecting now' m' io some_id room runs =
      let (readers, reads) = read_lem in
      let still = ap (λ (x : Db). x.is_closed) c.same ∙ opened in
      merge_record-Collecting snapshot db (record now { readers = readers }) now' m m' key value io
        (Collecting-readers snapshot db now m readers c) h at some_id room still
        (ground (arith, reads, runs))

merge_keys-inversion :
    (snapshot : Keydir) (io : Bytes → KeyIo) (now now' : Db) (m m' : Merged) (key : Bytes)
    (keys : List Bytes)
    → merge_keys snapshot io now m (key ∷ keys) ≡ (now', ok m')
    → (mid : Db) × (m1 : Merged) × (merge_key snapshot now m key (io key) ≡ (mid, ok m1))
      × (merge_keys snapshot io mid m1 keys ≡ (now', ok m'))
unfolding merge_keys
merge_keys-inversion snapshot io now now' m m' key keys h =
    elim (Result-cases (merge_key snapshot now m key (io key)).1) [
      | inr (e, bad) ↦ absurd (ground (arith, bad))
      | inl (m1, good) ↦ (
        (merge_key snapshot now m key (io key)).0,
        m1,
        ground (arith, good),
        ground (arith, good),
      )
    ]

-- Each key is held, with the entry of the snapshot.
abbrev pub AllHeld : Keydir → Db → List Bytes → Type 0
AllHeld snapshot db keys =
    All
      (λ key.
        (value : Bytes) × Holds db key value
        × (lookup key db.keydir ≡ some (entry_of snapshot key)))
      keys

merge_keys-Collecting :
    (snapshot : Keydir) (io : Bytes → KeyIo) (db now now' : Db) (m m' : Merged) (keys : List Bytes)
    → Collecting snapshot db now m
    → AllHeld snapshot db keys
    → db.is_closed ≡ false
    → 0 < db.next_file_id
    → now.next_file_id + length keys < 2 ^ 64
    → merge_keys snapshot io now m keys ≡ (now', ok m')
    → Collecting snapshot db now' m'
      × (now'.next_file_id ≤ now.next_file_id + length keys)
      × Keeps m m'
      × All (λ key. lookup key m'.entries ≢ none) keys
unfolding Keeps merge_keys
merge_keys-Collecting snapshot io db now now' m m' [] c held opened some_id room runs =
    let is_now : now ≡ now' = ap (λ x. x.0) runs in
    let is_m : m ≡ m' = ground (arith, runs) in
    rw (← is_now, ← is_m) (c, omega arith, (λ j there. there), tt)
merge_keys-Collecting snapshot io db now now' m m' (key ∷ keys) c held opened some_id room runs =
    let (mid, m1, first, rest) = merge_keys-inversion snapshot io now now' m m' key keys runs in
    let (value, h, at) = held.0 in
    let (c1, next1, keeps1, there1) =
      merge_key-Collecting snapshot db now m key value c h opened at mid m1 (io key)
        (omega (arith, c.next)) (omega arith) first in
    let (c2, next2, keeps2, there2) =
      merge_keys-Collecting snapshot io db mid now' m1 m' keys c1 held.1 opened some_id
        (omega (arith, next1)) rest in
    (
      c2,
      omega (arith, next1, next2),
      (λ j there. keeps2 j (keeps1 j there)),
      (keeps2 key there1, there2),
    )

collect-inversion :
    (db now : Db) (snapshot : Keydir) (io : MergeIo) (m : Merged)
    → collect db snapshot io ≡ (now, ok m)
    → merge_keys snapshot io.keys db
        (record { full = []; current = none; entries = [] })
        (sort_strings (keys_of snapshot))
      ≡ (now, ok m)
unfolding collect
collect-inversion db now snapshot io m runs =
    elim (Result-cases
      (merge_keys snapshot io.keys db (record { full = []; current = none; entries = [] })
        (sort_strings (keys_of snapshot))).1) [
          | inr (e, bad) ↦ absurd (ground (arith, bad))
          | inl (m1, good) ↦ elim (Option-cases m1.current) [
            | inl here ↦ ground (arith, good, here)
            | inr (f, here) ↦ ground (arith, good, here)
          ]
        ]

nothing-Collecting :
    (snapshot : Keydir) (db : Db)
    → Collecting snapshot db db (record { full = []; current = none; entries = [] })
unfolding lookup renamed
nothing-Collecting snapshot db = record {
  same = refl;
  next = omega arith;
  above = λ i at. refl;
  below = λ i at. refl;
  offset = λ f at. absurd (ground (arith, at));
  distinct = tt;
  copies = λ key e at. absurd (ground (arith, at));
}

-- A first phase that succeeds, on keys that are held with the entries of the snapshot, copies each
-- of them.
pub collect-Collecting :
    (db now : Db) (snapshot : Keydir) (io : MergeIo) (m : Merged)
    → db.is_closed ≡ false
    → 0 < db.next_file_id
    → db.next_file_id + length (sort_strings (keys_of snapshot)) < 2 ^ 64
    → ((key : Bytes)
        → lookup key snapshot ≢ none
        → (value : Bytes) × Holds db key value
          × (lookup key db.keydir ≡ some (entry_of snapshot key)))
    → collect db snapshot io ≡ (now, ok m)
    → Collecting snapshot db now m
      × (now.next_file_id ≤ db.next_file_id + length (sort_strings (keys_of snapshot)))
      × ((key : Bytes) → lookup key snapshot ≢ none → lookup key m.entries ≢ none)
collect-Collecting db now snapshot io m opened some_id room held runs =
    let keys = sort_strings (keys_of snapshot) in
    let of_member : (key : Bytes) → member key keys ≡ true → lookup key snapshot ≢ none =
      λ key there.
        (member-keys_of key snapshot).0
          (rw (member-sort_strings key (keys_of snapshot)) at there) in
    let to_member : (key : Bytes) → lookup key snapshot ≢ none → member key keys ≡ true =
      λ key there.
        rw (member-sort_strings key (keys_of snapshot)) ((member-keys_of key snapshot).1 there) in
    let (c, next, _, there) =
      merge_keys-Collecting snapshot io.keys db db now
        (record { full = []; current = none; entries = [] }) m keys (nothing-Collecting snapshot db)
        (every_member _ keys (λ key is. held key (of_member key is))) opened some_id room
        (collect-inversion db now snapshot io m runs) in
    (c, next, λ key is. member_of_All _ keys key there (to_member key is))
