-- ===== src/Kvstore/Merge/Collect/Writing.antt =====
-- One write to a merge file keeps what the first phase has copied.
use kvraft.Base.{
  ℕ, ◌+◌, ◌%◌, ◌^◌, ◌≡◌, refl, ◌∙◌, inl, inr, none, some, List, [], ◌++◌, Bytes, arith, length,
  eq_bytes, eq_bytes_iff, ◌==◌, Bool-cases, append-nil, length-append,
}
use native.Mathlib.Nat.{mod-eq_of_lt}
use kvraft.Base.Int.{pos}
use kvraft.Base.Assoc.{lookup, insert, lookup-insert, insert-IsDistinct, bytes_eq}
use kvraft.Kvstore.Types.{ok, KeyDirEntry, DecodedRecord}
use kvraft.Kvstore.Codec.{encode_data_record}
use kvraft.Kvstore.Codec.RoundTrip.{length-encode}
use kvraft.Kvstore.Keydir.{Keydir}
use kvraft.Kvstore.Store.Files.{Db, set_file}
use kvraft.Kvstore.Store.Durable.{Holds}
use kvraft.Kvstore.Merge.{MergeFile, KeyIo, Merged, merge_write, entry_of}
use kvraft.Kvstore.Merge.Files.{
  renamed, no_files, out_files, renamed-append, StoredIn, StoredIn-grow,
}
use kvraft.Kvstore.Merge.Collect.{Collecting, at_target}

abbrev pub rec_of : {db : Db} {key value : Bytes} → Holds db key value → DecodedRecord
rec_of {db} {key} {value} h = record { timestamp = h.ts; key = key; value = value }

-- The file and the entry behind a write that succeeds.
merge_write_lem :
    (f g : MergeFile) (e : KeyDirEntry) (key : Bytes) (rec : DecodedRecord) (io : KeyIo)
    → merge_write f key rec io ≡ ok (g, e)
    → let bytes = encode_data_record rec.timestamp key rec.value in
      (g.file_id ≡ f.file_id)
      × (g.data_file ≡ f.data_file ++ bytes)
      × (g.offset ≡ f.offset + length bytes)
      × (e ≡ record {
        file_id = f.file_id;
        file_offset = pos f.offset;
        record_size = length bytes % 2 ^ 32;
        time_stamp = rec.timestamp;
      })
unfolding merge_write
merge_write_lem f g e key rec io h = ground arith

abbrev pub after_write : Merged → List MergeFile → MergeFile → Bytes → KeyDirEntry → Merged
after_write m full g key e = record {
  full = full;
  current = some g;
  entries = insert key e m.entries;
}

module _ (snapshot : Keydir) (db now : Db) (m : Merged) (full : List MergeFile) (f g : MergeFile)
    (key value : Bytes) (e : KeyDirEntry) (io : KeyIo)
    (c : Collecting snapshot db now (at_target m full f)) (h : Holds db key value)
    (at_entry : lookup key db.keydir ≡ some (entry_of snapshot key))
    (writes : merge_write f key (rec_of h) io ≡ ok (g, e)) where
  out_before :
      out_files (at_target m full f) ≡ set_file (renamed no_files full) f.file_id (some f.data_file)
  out_before = renamed-append no_files full f

  out_after :
      out_files (after_write m full g key e)
      ≡ set_file
          (renamed no_files full)
          f.file_id
          (some (f.data_file ++ encode_data_record h.ts key value))
  out_after =
      let (id, contents, _, _) = merge_write_lem f g e key (rec_of h) io writes in
      rw (← id, ← contents) (renamed-append no_files full g)

  out-grows :
      (i : ℕ) (x : Bytes)
      → out_files (at_target m full f) i ≡ some x
      → (d : Bytes) × (out_files (after_write m full g key e) i ≡ some (x ++ d))
  out-grows i x found = elim (Bool-cases (f.file_id == i)) [
    | inl here ↦ (
      encode_data_record h.ts key value,
      rw out_after (ground (arith, here, rw out_before at found)),
    )
    | inr other ↦ ([], rw out_after (ground (arith, other, rw out_before at found, append-nil x)))
  ]

  out-none :
      (i : ℕ)
      → out_files (at_target m full f) i ≡ none
      → out_files (after_write m full g key e) i ≡ none
  out-none i missing = rw out_after (ground (arith, rw out_before at missing))

  new_copy : StoredIn (out_files (after_write m full g key e)) key value e
  new_copy =
      let (_, _, _, at) = merge_write_lem f g e key (rec_of h) io writes in
      record {
        ts = h.ts;
        file_id = f.file_id;
        pre = f.data_file;
        post = [];
        fits = h.fits;
        small = h.small;
        live = h.live;
        entry =
            at
            ∙ ground (arith, c.offset f refl, length-encode h.ts key value, mod-eq_of_lt h.small);
        stored = rw (out_after, append-nil (encode_data_record h.ts key value)) (ground arith);
      }

  pub write-Collecting : Collecting snapshot db now (after_write m full g key e)
  write-Collecting =
      let (_, contents, offset, _) = merge_write_lem f g e key (rec_of h) io writes in
      record {
        same = c.same;
        next = c.next;
        above = λ i at. out-none i (c.above i at);
        below = λ i at. out-none i (c.below i at);
        offset = λ x at. ground (
          arith,
          at,
          offset,
          contents,
          c.offset f refl,
          length-append f.data_file (encode_data_record h.ts key value),
        );
        distinct = insert-IsDistinct key e m.entries c.distinct;
        copies = λ j x at. elim (Bool-cases (eq_bytes key j)) [
          | inl here ↦
              let same_key : key ≡ j = (eq_bytes_iff key j).0 here in
              let same_entry : e ≡ x = ground (arith, at, here, lookup-insert key j e m.entries) in
              rw (← same_key, ← same_entry) (value, h, at_entry, new_copy)
          | inr other ↦
              let (v, holds, at_v, copy) =
                c.copies j x (ground (arith, at, other, lookup-insert key j e m.entries)) in
              (
                v,
                holds,
                at_v,
                StoredIn-grow (out_files (at_target m full f))
                    (out_files (after_write m full g key e)) j v x out-grows copy,
              )
        ];
      }
