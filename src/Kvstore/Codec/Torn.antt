-- ===== src/Kvstore/Codec/Torn.antt =====
-- What the reader makes of a record of which only the first bytes are there.
use kvraft.Base.{
  ℕ, zero, suc, ◌+◌, ◌-◌, ◌≤◌, ◌<◌, ◌≡◌, refl, ap, ◌∙◌, Bool, ◌||◌, [], ◌∷◌, ◌++◌, Bytes, arith,
  length, take, drop, ◌==◌, if◌then◌else◌, length-append, length-take, dec_lt,
}
use kvraft.Base.Int.{ℤ}
use kvraft.Kvstore.Types.{Error, Result, ok, err, eof, unexpected_eof}
use kvraft.Kvstore.Words.{le_value, length-le_bytes}
use kvraft.Kvstore.Codec.{read_full, decode_data_record, encode_data_record, data_meta}
use kvraft.Kvstore.Codec.RoundTrip.{
  Fits, crc_of, length-data_meta, meta_key_size, meta_value_size, read_full-append,
}

-- The error of a read that finds `n` bytes, too few.
abbrev pub short_error : ℕ → Error
short_error n = if n == 0 then eof else unexpected_eof

read_full-short : (k : ℕ) (r : Bytes) → length r < k → read_full k r ≡ err (short_error (length r))
unfolding read_full
read_full-short zero r h = elim h [ ]
read_full-short (suc k) [] h = refl
read_full-short (suc k) (x ∷ r) h = ground arith

-- The first `n` bytes of `a ++ b` where they end inside `a`, and where they do not.
take-append_before : (n : ℕ) (a b : Bytes) → n ≤ length a → length (take n (a ++ b)) ≡ n
take-append_before n a b h = omega (arith, length-take n (a ++ b), length-append a b)

take-append_behind :
    (n : ℕ) (a b : Bytes) → length a ≤ n → take n (a ++ b) ≡ a ++ take (n - length a) b
take-append_behind n [] b h = let e : n - 0 ≡ n = omega arith in rw e
take-append_behind zero (x ∷ a) b h = absurd (omega arith)
take-append_behind (suc n) (x ∷ a) b h =
    let e : suc n - suc (length a) ≡ n - length a = omega arith in
    rw e (ap (◌∷◌ x) (take-append_behind n a b (omega arith)))

fails : ℕ → Result (Bytes × Bytes)
fails n = err (short_error n)

module _ (k n : ℕ) (a b : Bytes) (whole : k ≡ length a) where
  read_inside : n < k → read_full k (take n (a ++ b)) ≡ err (short_error n)
  unfolding fails
  read_inside h =
      let found = take-append_before n a b (omega arith) in
      read_full-short k (take n (a ++ b)) (omega arith) ∙ ap fails found

  read_past : k ≤ n → read_full k (take n (a ++ b)) ≡ ok (a, take (n - k) b)
  read_past h =
      rw (take-append_behind n a b (omega arith))
        (rw (← whole) (read_full-append k a (take (n - k) b) whole))

-- `decode_data_record` returns the error of the read that fails.
module _ (r crc r1 meta r2 key r3 : Bytes) (e : Error) where
  stops_at_crc : read_full 4 r ≡ err e → decode_data_record r ≡ err e
  unfolding decode_data_record
  stops_at_crc a = rw a

  stops_at_meta :
      read_full 4 r ≡ ok (crc, r1) → read_full 16 r1 ≡ err e → decode_data_record r ≡ err e
  unfolding decode_data_record
  stops_at_meta a b = rw a (rw b)

  stops_at_key :
      read_full 4 r ≡ ok (crc, r1)
      → read_full 16 r1 ≡ ok (meta, r2)
      → read_full (le_value (take 4 (drop 8 meta))) r2 ≡ err e
      → decode_data_record r ≡ err e
  unfolding decode_data_record
  stops_at_key a b c = rw a (rw b (rw c))

  stops_at_value :
      read_full 4 r ≡ ok (crc, r1)
      → read_full 16 r1 ≡ ok (meta, r2)
      → read_full (le_value (take 4 (drop 8 meta))) r2 ≡ ok (key, r3)
      → read_full (le_value (take 4 (drop 12 meta))) r3 ≡ err e
      → decode_data_record r ≡ err e
  unfolding decode_data_record
  stops_at_value a b c d = rw a (rw b (rw c (rw d)))

-- The places between the parts of a record: its start, behind the checksum, behind the sizes and
-- behind the key.
abbrev pub at_boundary : ℕ → ℕ → Bool
at_boundary key_size n = n == 0 || (n == 4 || (n == 20 || n == 20 + key_size))

module _ (ts : ℤ) (key value : Bytes) (n : ℕ) (fits : Fits ts key value) where
  abbrev torn : Bytes
  torn = take n (crc_of ts key value ++ (data_meta ts key value ++ (key ++ value)))

  -- The reads that succeed, with the bytes left behind each.
  crc_read :
      4 ≤ n
      → read_full 4 torn
        ≡ ok (crc_of ts key value, take (n - 4) (data_meta ts key value ++ (key ++ value)))
  crc_read = read_past 4 n (crc_of ts key value) _ (omega (arith, length-le_bytes))

  meta_read :
      20 ≤ n
      → read_full 16 (take (n - 4) (data_meta ts key value ++ (key ++ value)))
        ≡ ok (data_meta ts key value, take (n - 4 - 16) (key ++ value))
  meta_read h =
      read_past 16 (n - 4) (data_meta ts key value) _ (omega (arith, length-data_meta ts key value))
        (omega arith)

  key_read :
      20 + length key ≤ n
      → read_full
          (le_value (take 4 (drop 8 (data_meta ts key value))))
          (take (n - 4 - 16) (key ++ value))
        ≡ ok (key, take (n - 4 - 16 - length key) value)
  key_read h =
      rw (meta_key_size ts key value fits.key_fits)
        (read_past (length key) (n - 4 - 16) key value refl (omega arith))

  in_crc : n < 4 → decode_data_record torn ≡ err (short_error n)
  in_crc h =
      stops_at_crc torn [] [] [] [] [] [] _
        (read_inside 4 n (crc_of ts key value) _ (omega (arith, length-le_bytes)) h)

  in_meta : 4 ≤ n → n < 20 → decode_data_record torn ≡ err (short_error (n - 4))
  in_meta h k = stops_at_meta torn (crc_of ts key value) _ [] [] [] [] _ (crc_read h) (
      read_inside 16 (n - 4) (data_meta ts key value) _
        (omega (arith, length-data_meta ts key value)) (omega arith))

  in_key : 20 ≤ n → n < 20 + length key → decode_data_record torn ≡ err (short_error (n - 4 - 16))
  in_key h k =
      stops_at_key torn (crc_of ts key value) _ (data_meta ts key value) _ [] [] _
        (crc_read (omega arith)) (meta_read h)
        (rw (meta_key_size ts key value fits.key_fits)
          (read_inside (length key) (n - 4 - 16) key value refl (omega arith)))

  in_value :
      20 + length key ≤ n
      → n < 20 + length key + length value
      → decode_data_record torn ≡ err (short_error (n - 4 - 16 - length key))
  in_value h k =
      stops_at_value torn (crc_of ts key value) _ (data_meta ts key value) _ key _ _
        (crc_read (omega arith)) (meta_read (omega arith)) (key_read h)
        (rw (meta_value_size ts key value fits.value_fits) short)
    where
      rest : Bytes
      rest = take (n - 4 - 16 - length key) value

      found : length rest ≡ n - 4 - 16 - length key
      found = omega (arith, length-take (n - 4 - 16 - length key) value)

      short : read_full (length value) rest ≡ err (short_error (n - 4 - 16 - length key))
      short =
          read_full-short (length value) rest (omega (arith, found))
          ∙ (unfold fails in ap fails found)

-- The first `n` bytes of a record that fits the format, fewer than all, never read as a record.
-- The reader says EOF, as at the end of a whole file, exactly where the bytes end between two
-- parts, and otherwise unexpected EOF.
pub decode_torn :
    (ts : ℤ) (key value : Bytes) (n : ℕ)
    → Fits ts key value
    → n < 20 + length key + length value
    → decode_data_record (take n (encode_data_record ts key value))
      ≡ err (if at_boundary (length key) n then eof else unexpected_eof)
unfolding encode_data_record
decode_torn ts key value n fits h = elim (dec_lt n 4) [
  | yes a ↦ in_crc ts key value n fits a ∙ ap err (ground arith)
  | no a ↦ elim (dec_lt n 20) [
    | yes b ↦ in_meta ts key value n fits (omega arith) b ∙ ap err (ground arith)
    | no b ↦ elim (dec_lt n (20 + length key)) [
      | yes c ↦ in_key ts key value n fits (omega arith) c ∙ ap err (ground arith)
      | no c ↦ in_value ts key value n fits (omega arith) h ∙ ap err (ground arith)
    ]
  ]
]
