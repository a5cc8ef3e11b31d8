-- ===== src/Kvstore/Store/Durable/View.antt =====
-- kvstore/: the store as a plain map from keys to values.
use kvraft.Base.{
  ℕ, List, Option-cases, ◌⊎◌, ◌+◌, ◌^◌, ◌≤◌, ◌<◌, ◌≡◌, ◌≢◌, ◌∙◌, inl, inr, Option, none, some,
  Bytes, arith, length, eq_bytes_iff,
}
use kvraft.Base.Int.{ℤ}
use kvraft.Base.Assoc.{Assoc, lookup, insert, delete, bytes_eq, lookup-insert, lookup-delete}
use kvraft.Kvstore.Types.{Result, ok, err, key_not_found, tombstone_value}
use kvraft.Kvstore.Codec.{encode_data_record}
use kvraft.Kvstore.Codec.RoundTrip.{Fits}
use kvraft.Kvstore.Store.Files.{Db, AppendIo, append_record_locked}
use kvraft.Kvstore.Store.Files.Append.{IsWritable, append_record_locked-Appended}
use kvraft.Kvstore.Store.Write.{put, delete_key}
use kvraft.Kvstore.Store.Read.{get}
use kvraft.Kvstore.Store.Durable.{
  Holds, get-Holds, put-Holds, delete_key-Holds, put-inversion, delete_key-inversion, get-missing,
}

abbrev pub View : Type 0
View = Assoc Bytes Bytes

-- The database is open for writing, holds each binding of the view and indexes no other key.
pub record Shows (m : View) (db : Db) : Type 0 where
  pub writable : IsWritable db
  pub held : (key value : Bytes) → lookup key m ≡ some value → Holds db key value
  pub absent : (key : Bytes) → lookup key m ≡ none → lookup key db.keydir ≡ none

-- More readers and used up file ids change nothing that is shown.
pub Shows-later :
    (view : View) (db : Db) (readers : List ℕ) (next : ℕ)
    → db.next_file_id ≤ next
    → next + 1 < 2 ^ 64
    → Shows view db
    → Shows view (record db { readers = readers; next_file_id = next })
Shows-later view db readers next up room s =
    let w = s.writable in
    record {
      writable = record {
        opened = w.opened;
        read_write = w.read_write;
        active = w.active;
        contents = w.contents;
        active_is = w.active_is;
        offset = w.offset;
        below = omega (arith, w.below);
        no_wrap = room;
        fresh = λ i at. w.fresh i (omega (arith, at));
      };
      held = λ key value at.
          let h = s.held key value at in
          record {
            ts = h.ts;
            file_id = h.file_id;
            pre = h.pre;
            post = h.post;
            fits = h.fits;
            small = h.small;
            live = h.live;
            indexed = h.indexed;
            stored = h.stored;
          };
      absent = s.absent;
    }

-- What a Get says of the view.
abbrev pub answer_of : Option Bytes → Result Bytes
answer_of none = err key_not_found
answer_of (some value) = ok value

pub get-Shows :
    (m : View) (db : Db) (key : Bytes) → Shows m db → (get db key).1 ≡ answer_of (lookup key m)
get-Shows m db key s = elim (Option-cases (lookup key m)) [
  | inl missing ↦ rw missing (get-missing db key s.writable.opened (s.absent key missing))
  | inr (value, found) ↦
      rw found (get-Holds db key value s.writable.opened (s.held key value found))
]

module _ (db : Db) (key value : Bytes) (ts : ℤ) (io : AppendIo) {db' : Db} (w : IsWritable db)
    (small : db.next_file_id + 2 < 2 ^ 64) (runs : put db key value ts io ≡ (db', ok tt)) where
  pub put-others :
      (db'.next_file_id ≤ db.next_file_id + 1)
      × ((j : Bytes) → j ≢ key → lookup j db'.keydir ≡ lookup j db.keydir)
  put-others =
      let (entry, _, appends, same) = put-inversion db key value ts io runs in
      let mid = (append_record_locked db (encode_data_record ts key value) ts io).0 in
      let a =
        append_record_locked-Appended db (encode_data_record ts key value) ts io w small appends in
      rw same (
        a.next,
        λ j other.
            lookup-insert key j entry mid.keydir ∙ ground (arith, eq_bytes_iff key j, a.keydir),
      )

module _ (db : Db) (key : Bytes) (ts : ℤ) (io : AppendIo) {db' : Db} (w : IsWritable db)
    (small : db.next_file_id + 2 < 2 ^ 64) (runs : delete_key db key ts io ≡ (db', ok tt)) where
  pub delete_key-others :
      (db'.next_file_id ≤ db.next_file_id + 1)
      × (lookup key db'.keydir ≡ none)
      × ((j : Bytes) → j ≢ key → lookup j db'.keydir ≡ lookup j db.keydir)
  delete_key-others =
      let (entry, appends, same) = delete_key-inversion db key ts io runs in
      let rec = encode_data_record ts key tombstone_value in
      let mid = (append_record_locked db rec ts io).0 in
      let a = append_record_locked-Appended db rec ts io w small appends in
      rw same (
        a.next,
        lookup-delete key key mid.keydir ∙ ground (arith, eq_bytes_iff key key),
        λ j other. lookup-delete key j mid.keydir ∙ ground (arith, eq_bytes_iff key j, a.keydir),
      )

same_or_not : (j key : Bytes) → (j ≡ key) ⊎ (j ≢ key)
same_or_not j key = ground (arith, eq_bytes_iff j key)

pub put-Shows :
    (m : View) (db : Db) (key value : Bytes) (ts : ℤ) (io : AppendIo) {db' : Db}
    → Shows m db
    → db.next_file_id + 2 < 2 ^ 64
    → Fits ts key value
    → 20 + length key + length value < 2 ^ 32
    → put db key value ts io ≡ (db', ok tt)
    → Shows (insert key value m) db'
put-Shows m db key value ts io {db'} s small fits size h =
    let (now, _, others, writable') = put-Holds db key value ts io s.writable small fits size h in
    let (_, entries) = put-others db key value ts io s.writable small h in
    record {
      writable = writable';
      held = λ j v at. elim (same_or_not j key) [
        | inl e ↦
            let same : v ≡ value =
              ground (arith, at, e, lookup-insert key j value m, eq_bytes_iff key j) in
            rw (e, same) now
        | inr ne ↦
            others j v ne
              (s.held j v (ground (arith, at, lookup-insert key j value m, eq_bytes_iff key j)))
      ];
      absent = λ j at. elim (same_or_not j key) [
        | inl e ↦ absurd (ground (arith, at, e, lookup-insert key j value m, eq_bytes_iff key j))
        | inr ne ↦
            entries j ne
            ∙ s.absent j (ground (arith, at, lookup-insert key j value m, eq_bytes_iff key j))
      ];
    }

pub delete_key-Shows :
    (m : View) (db : Db) (key : Bytes) (ts : ℤ) (io : AppendIo) {db' : Db}
    → Shows m db
    → db.next_file_id + 2 < 2 ^ 64
    → delete_key db key ts io ≡ (db', ok tt)
    → Shows (delete key m) db'
delete_key-Shows m db key ts io {db'} s small h =
    let (_, others, writable') = delete_key-Holds db key ts io s.writable small h in
    let (_, gone, entries) = delete_key-others db key ts io s.writable small h in
    record {
      writable = writable';
      held = λ j v at. elim (same_or_not j key) [
        | inl e ↦ absurd (ground (arith, at, e, lookup-delete key j m, eq_bytes_iff key j))
        | inr ne ↦
            others j v ne
              (s.held j v (ground (arith, at, lookup-delete key j m, eq_bytes_iff key j)))
      ];
      absent = λ j at. elim (same_or_not j key) [
        | inl e ↦ rw e gone
        | inr ne ↦
            entries j ne
            ∙ s.absent j (ground (arith, at, lookup-delete key j m, eq_bytes_iff key j))
      ];
    }
