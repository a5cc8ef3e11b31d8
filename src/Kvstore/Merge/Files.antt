-- ===== src/Kvstore/Merge/Files.antt =====
-- The files that a merge writes, by their ids, and the records in them.
use kvraft.Base.{
  ℕ, ◌+◌, ◌^◌, ◌<◌, ◌≡◌, refl, sym, ap, ◌∙◌, false, Option, none, some, List, [], ◌∷◌, ◌++◌, Bytes,
  arith, length, eq_bytes, eq_bytes_iff, append_assoc,
}
use native.Mathlib.Nat.{mod-eq_of_lt}
use kvraft.Base.Int.{ℤ, pos}
use kvraft.Base.Assoc.{lookup, bytes_eq}
use kvraft.Kvstore.Types.{ok, KeyDirEntry, tombstone_value}
use kvraft.Kvstore.Codec.{encode_data_record}
use kvraft.Kvstore.Codec.RoundTrip.{Fits, length-encode}
use kvraft.Kvstore.Store.Files.{Db, set_file}
use kvraft.Kvstore.Store.Read.{open_reader, read_record_at_entry}
use kvraft.Kvstore.Store.Durable.{Holds, section_lem, decode_whole}
use kvraft.Kvstore.Merge.{MergeFile, Merged, files_of}

-- The files after the renames.
unfoldable pub renamed : (ℕ → Option Bytes) → List MergeFile → ℕ → Option Bytes
renamed files [] = files
renamed files (f ∷ fs) = renamed (set_file files f.file_id (some f.data_file)) fs

abbrev pub no_files : ℕ → Option Bytes
no_files i = none

abbrev pub out_files : Merged → ℕ → Option Bytes
out_files m = renamed no_files (files_of m)

pub renamed-append :
    (files : ℕ → Option Bytes) (fs : List MergeFile) (f : MergeFile)
    → renamed files (fs ++ f ∷ []) ≡ set_file (renamed files fs) f.file_id (some f.data_file)
unfolding renamed
renamed-append files [] f = refl
renamed-append files (g ∷ fs) f = renamed-append (set_file files g.file_id (some g.data_file)) fs f

-- What the renames put down does not depend on what was there.
pub renamed-over :
    (f g : ℕ → Option Bytes) (fs : List MergeFile) (i : ℕ) (c : Bytes)
    → (f i ≡ some c → g i ≡ some c)
    → renamed f fs i ≡ some c
    → renamed g fs i ≡ some c
unfolding renamed
renamed-over f g [] i c over at = over at
renamed-over f g (h ∷ fs) i c over at =
    renamed-over (set_file f h.file_id (some h.data_file)) (set_file g h.file_id (some h.data_file))
      fs i c (λ x. ground (arith, x, over)) at

-- Where the renames put nothing down, what was there stays.
pub renamed-stays :
    (f g : ℕ → Option Bytes) (fs : List MergeFile) (i : ℕ)
    → renamed f fs i ≡ none
    → (f i ≡ none) × (renamed g fs i ≡ g i)
unfolding renamed
renamed-stays f g [] i at = (at, refl)
renamed-stays f g (h ∷ fs) i at =
    let (before, stays) =
      renamed-stays (set_file f h.file_id (some h.data_file))
        (set_file g h.file_id (some h.data_file)) fs i at in
    (ground (arith, before), stays ∙ ground (arith, before))

-- A whole record of the key and the value where the entry says.
pub record StoredIn (files : ℕ → Option Bytes) (key value : Bytes) (e : KeyDirEntry) : Type 0 where
  pub ts : ℤ
  pub file_id : ℕ
  pub pre : Bytes
  pub post : Bytes
  pub fits : Fits ts key value
  pub small : 20 + length key + length value < 2 ^ 32
  pub live : eq_bytes value tombstone_value ≡ false
  pub entry : e ≡ record {
    file_id = file_id;
    file_offset = pos (length pre);
    record_size = 20 + length key + length value;
    time_stamp = ts;
  }
  pub stored : files file_id ≡ some (pre ++ (encode_data_record ts key value ++ post))

-- The record stays where files only grow.
pub StoredIn-grow :
    (f g : ℕ → Option Bytes) (key value : Bytes) (e : KeyDirEntry)
    → ((i : ℕ) (c : Bytes) → f i ≡ some c → (d : Bytes) × (g i ≡ some (c ++ d)))
    → StoredIn f key value e
    → StoredIn g key value e
StoredIn-grow f g key value e grows s =
    let (more, found) =
      grows s.file_id (s.pre ++ (encode_data_record s.ts key value ++ s.post)) s.stored in
    record {
      ts = s.ts;
      file_id = s.file_id;
      pre = s.pre;
      post = s.post ++ more;
      fits = s.fits;
      small = s.small;
      live = s.live;
      entry = s.entry;
      stored = found ∙ ap some (simp append_assoc);
    }

-- An entry of the keydir with its record is what the database holds.
pub StoredIn-Holds :
    (db : Db) (key value : Bytes) (e : KeyDirEntry)
    → lookup key db.keydir ≡ some e
    → StoredIn db.data_files key value e
    → Holds db key value
StoredIn-Holds db key value e at s = record {
  ts = s.ts;
  file_id = s.file_id;
  pre = s.pre;
  post = s.post;
  fits = s.fits;
  small = s.small;
  live = s.live;
  indexed = at ∙ ap some s.entry;
  stored = s.stored;
}

-- What the database holds is read as the record that was written.
pub read-Holds :
    (db : Db) (key value : Bytes)
    → db.is_closed ≡ false
    → (h : Holds db key value) → (e : KeyDirEntry) → lookup key db.keydir ≡ some e
    → read_record_at_entry db key e ≡ (
      record db { readers = (read_record_at_entry db key e).0.readers },
      ok (record { timestamp = h.ts; key = key; value = value }),
    )
unfolding read_record_at_entry open_reader
read-Holds db key value opened h e at = ground (
  arith,
  at,
  h.indexed,
  h.stored,
  section_lem h.pre (encode_data_record h.ts key value) h.post (20 + length key + length value)
      (sym (length-encode h.ts key value)),
  decode_whole h.ts key value h.fits,
  eq_bytes_iff key key,
  mod-eq_of_lt h.small,
)
