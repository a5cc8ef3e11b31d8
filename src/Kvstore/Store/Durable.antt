-- ===== src/Kvstore/Store/Durable.antt =====
-- What Put and Delete leave for Get: the database as a map from keys to values.
pub mod View
use kvraft.Kvstore.Keydir.{Keydir}
use kvraft.Base.{
  ℕ, zero, suc, ◌+◌, ◌%◌, ◌^◌, ◌≤◌, ◌<◌, ◌≡◌, ◌≢◌, refl, sym, ap, ◌∙◌, ◌⊎◌, inl, inr, Bool, true,
  false, not, Option, none, some, List, [], ◌∷◌, ◌++◌, Bytes, arith, length, take, drop, eq_bytes,
  eq_bytes_iff, ltb, ◌==◌, if◌then◌else◌, Bool-cases, append-nil, append_assoc, length-append,
  take-append_self, drop-append_self,
}
use native.Mathlib.Nat.{mod-eq_of_lt}
use kvraft.Base.Int.{ℤ, pos}
use kvraft.Base.Assoc.{lookup, insert, delete, lookup-insert, lookup-delete, bytes_eq}
use kvraft.Kvstore.Types.{
  Result-cases, Error, key_not_found, Result, ok, err, KeyDirEntry, DecodedRecord, tombstone_value,
  ◌>>=◌,
}
use kvraft.Kvstore.Codec.{decode_data_record, encode_data_record}
use kvraft.Kvstore.Codec.RoundTrip.{Fits, decode-encode, length-encode}
use kvraft.Kvstore.Store.Files.{Db, AppendIo, ensure_open, must_read_write, append_record_locked}
use kvraft.Kvstore.Store.Files.Append.{IsWritable, Grows, Appended, append_record_locked-Appended}
use kvraft.Kvstore.Store.Write.{writable, put, delete_key}
use kvraft.Kvstore.Store.Read.{open_reader, read_record_at_entry, get}

-- The keydir leads from `key` to a whole record with `value`, somewhere in a file.
pub record Holds (db : Db) (key value : Bytes) : Type 0 where
  pub ts : ℤ
  pub file_id : ℕ
  pub pre : Bytes
  pub post : Bytes
  pub fits : Fits ts key value
  pub small : 20 + length key + length value < 2 ^ 32
  pub live : eq_bytes value tombstone_value ≡ false
  pub indexed :
      lookup key db.keydir
      ≡ some (record {
        file_id = file_id;
        file_offset = pos (length pre);
        record_size = 20 + length key + length value;
        time_stamp = ts;
      })
  pub stored : db.data_files file_id ≡ some (pre ++ (encode_data_record ts key value ++ post))

pub section_lem :
    (pre rec post : Bytes) (n : ℕ)
    → n ≡ length rec
    → take n (drop (length pre) (pre ++ (rec ++ post))) ≡ rec
section_lem pre rec post n e =
    ap (take n) (drop-append_self (length pre) pre (rec ++ post) refl)
    ∙ take-append_self n rec post e

pub decode_whole :
    (ts : ℤ) (key value : Bytes)
    → Fits ts key value
    → decode_data_record (encode_data_record ts key value)
      ≡ ok (record { timestamp = ts; key = key; value = value }, 20 + length key + length value, [])
decode_whole ts key value fits =
    rw (append-nil (encode_data_record ts key value)) at (decode-encode ts key value [] fits)

-- Get returns the value that the database holds.
pub get-Holds :
    (db : Db) (key value : Bytes)
    → db.is_closed ≡ false
    → Holds db key value
    → (get db key).1 ≡ ok value
unfolding get read_record_at_entry open_reader
get-Holds db key value opened h = ground (
  arith,
  h.live,
  h.indexed,
  h.stored,
  section_lem h.pre (encode_data_record h.ts key value) h.post (20 + length key + length value)
      (sym (length-encode h.ts key value)),
  decode_whole h.ts key value h.fits,
  eq_bytes_iff key key,
  mod-eq_of_lt h.small,
)

-- A Put that succeeds appended the record and pointed the key at it.
pub put-inversion :
    (db : Db) (key value : Bytes) (ts : ℤ) (io : AppendIo) {db' : Db}
    → put db key value ts io ≡ (db', ok tt)
    → (entry : KeyDirEntry) × (eq_bytes value tombstone_value ≡ false)
      × (append_record_locked db (encode_data_record ts key value) ts io
          ≡ ((append_record_locked db (encode_data_record ts key value) ts io).0, ok entry))
      × (db' ≡ (
          let mid = (append_record_locked db (encode_data_record ts key value) ts io).0 in
          record mid { keydir = insert key entry mid.keydir }))
unfolding put writable ensure_open must_read_write
put-inversion db key value ts io h =
    elim (Result-cases (append_record_locked db (encode_data_record ts key value) ts io).1) [
      | inl (entry, good) ↦
          (entry, ground (arith, good), ground (arith, good), ground (arith, good))
      | inr (e, bad) ↦ absurd (ground (arith, bad))
    ]

pub delete_key-inversion :
    (db : Db) (key : Bytes) (ts : ℤ) (io : AppendIo) {db' : Db}
    → delete_key db key ts io ≡ (db', ok tt)
    → (entry : KeyDirEntry) × (append_record_locked db
          (encode_data_record ts key tombstone_value)
          ts
          io
        ≡ ((append_record_locked db (encode_data_record ts key tombstone_value) ts io).0, ok entry))
      × (db' ≡ (
          let mid = (append_record_locked db (encode_data_record ts key tombstone_value) ts io).0 in
          record mid { keydir = delete key mid.keydir }))
unfolding delete_key writable ensure_open must_read_write
delete_key-inversion db key ts io h =
    elim (Result-cases
      (append_record_locked db (encode_data_record ts key tombstone_value) ts io).1) [
        | inl (entry, good) ↦ (entry, ground (arith, good), ground (arith, good))
        | inr (e, bad) ↦ absurd (ground (arith, bad))
      ]

-- What a database holds for a key stays held while the files grow and the key's entry stays.
pub Holds-grow :
    (db db' : Db) (j w : Bytes)
    → Grows db db'
    → lookup j db'.keydir ≡ lookup j db.keydir
    → Holds db j w
    → Holds db' j w
Holds-grow db db' j w grows same h =
    let (more, found) =
      grows h.file_id (h.pre ++ (encode_data_record h.ts j w ++ h.post)) h.stored in
    record {
      ts = h.ts;
      file_id = h.file_id;
      pre = h.pre;
      post = h.post ++ more;
      fits = h.fits;
      small = h.small;
      live = h.live;
      indexed = same ∙ h.indexed;
      stored = found ∙ ap some (simp append_assoc);
    }

abbrev indexed_at : Db → Bytes → KeyDirEntry → Db
indexed_at db key entry = record db { keydir = insert key entry db.keydir }

pub IsWritable-keydir :
    (db : Db) (keydir : Keydir) → IsWritable db → IsWritable (record db { keydir = keydir })
IsWritable-keydir db keydir w = record {
  opened = w.opened;
  read_write = w.read_write;
  active = w.active;
  contents = w.contents;
  active_is = w.active_is;
  offset = w.offset;
  below = w.below;
  no_wrap = w.no_wrap;
  fresh = w.fresh;
}

pub get-missing :
    (db : Db) (key : Bytes)
    → db.is_closed ≡ false
    → lookup key db.keydir ≡ none
    → (get db key).1 ≡ err key_not_found
unfolding get
get-missing db key opened missing = ground (arith, opened, missing)

-- On a writable database with room for a rotation in its file ids, a Put that succeeds, of a key
-- and a value whose sizes and timestamp fit a record of fewer than 2 ^ 32 bytes, makes Get of the
-- key return the value; every other key that was held is held with its value, and the database
-- can take the next write.
pub put-Holds :
    (db : Db) (key value : Bytes) (ts : ℤ) (io : AppendIo) {db' : Db}
    → IsWritable db
    → db.next_file_id + 2 < 2 ^ 64
    → Fits ts key value
    → 20 + length key + length value < 2 ^ 32
    → put db key value ts io ≡ (db', ok tt)
    → Holds db' key value
      × ((get db' key).1 ≡ ok value)
      × ((j w : Bytes) → j ≢ key → Holds db j w → Holds db' j w)
      × IsWritable db'
put-Holds db key value ts io {db'} w small fits size h =
    let (entry, live, appends, same) = put-inversion db key value ts io h in
    let mid = (append_record_locked db (encode_data_record ts key value) ts io).0 in
    let a =
      append_record_locked-Appended db (encode_data_record ts key value) ts io w small appends in
    let held = put_held mid entry a live in
    rw same (
      held,
      get-Holds (indexed_at mid key entry) key value (a.writable (omega (arith, a.next))).opened
          held,
      (λ j x other was.
          Holds-grow db (indexed_at mid key entry) j x a.grows (unchanged mid entry a j other) was),
      IsWritable-keydir mid (insert key entry mid.keydir) (a.writable (omega (arith, a.next))),
    )
  where
    put_held :
        (mid : Db) (entry : KeyDirEntry)
        → Appended db mid (encode_data_record ts key value) ts entry
        → eq_bytes value tombstone_value ≡ false
        → Holds (indexed_at mid key entry) key value
    put_held mid entry a live = record {
      ts = ts;
      file_id = entry.file_id;
      pre = a.pre;
      post = [];
      fits = fits;
      small = size;
      live = live;
      indexed =
          lookup-insert key key entry mid.keydir
          ∙ ground (
            arith,
            eq_bytes_iff key key,
            a.file_offset,
            a.record_size,
            a.time_stamp,
            length-encode ts key value,
            mod-eq_of_lt size,
          );
      stored =
          a.stored
          ∙ ap (λ (x : Bytes). some (a.pre ++ x))
              (sym (append-nil (encode_data_record ts key value)));
    }

    unchanged :
        (mid : Db) (entry : KeyDirEntry)
        → Appended db mid (encode_data_record ts key value) ts entry
        → (j : Bytes) → j ≢ key
        → lookup j (insert key entry mid.keydir) ≡ lookup j db.keydir
    unchanged mid entry a j other =
        lookup-insert key j entry mid.keydir ∙ ground (arith, eq_bytes_iff key j, a.keydir)

-- On a writable database with room for a rotation in its file ids, after a Delete that succeeds
-- Get does not find the key, every other key that was held is held with its value, and the
-- database can take the next write.
pub delete_key-Holds :
    (db : Db) (key : Bytes) (ts : ℤ) (io : AppendIo) {db' : Db}
    → IsWritable db
    → db.next_file_id + 2 < 2 ^ 64
    → delete_key db key ts io ≡ (db', ok tt)
    → ((get db' key).1 ≡ err key_not_found)
      × ((j w : Bytes) → j ≢ key → Holds db j w → Holds db' j w)
      × IsWritable db'
delete_key-Holds db key ts io {db'} w small h =
    let (entry, appends, same) = delete_key-inversion db key ts io h in
    let mid = (append_record_locked db (encode_data_record ts key tombstone_value) ts io).0 in
    let a =
      append_record_locked-Appended db (encode_data_record ts key tombstone_value) ts io w small
        appends in
    let writable' = a.writable (omega (arith, a.next)) in
    let now = record mid { keydir = delete key mid.keydir } in
    rw same (
      get-missing now key writable'.opened
          (lookup-delete key key mid.keydir ∙ ground (arith, eq_bytes_iff key key)),
      (λ j x other was.
          Holds-grow db now j x a.grows
            (lookup-delete key j mid.keydir ∙ ground (arith, eq_bytes_iff key j, a.keydir)) was),
      IsWritable-keydir mid (delete key mid.keydir) writable',
    )
