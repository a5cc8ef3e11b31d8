-- ===== src/Kvstore/Names/RoundTrip.antt =====
-- The name of a file gives its id back.
use kvraft.Base.{
  drop-append_add, ℕ, zero, suc, ◌+◌, ◌-◌, ◌*◌, ◌/◌, ◌%◌, ◌^◌, ◌≤◌, ◌<◌, ◌≡◌, refl, ◌∙◌, true,
  false, none, some, [], ◌∷◌, ◌++◌, Bytes, arith, length, drop, length-append, take-append_self,
  drop-append_self, eq_bytes, eq_bytes_iff,
}
use kvraft.Kvstore.Names.{
  tmp_file_suffix, data_file_extension, hint_file_extension, print_digits, data_file_name,
  hint_file_name, max_uint64, read_digits, parse_uint, has_suffix, trim_suffix, parse_file_id,
}

length-print_digits : (k n : ℕ) (out : Bytes) → length (print_digits k n out) ≡ k + length out
unfolding print_digits
length-print_digits zero n out = omega arith
length-print_digits (suc k) n out =
    omega (arith, length-print_digits k (n / 10) ((b'0' + n % 10) ∷ out))

read_last_digit :
    (n : ℕ) (out : Bytes)
    → n ≤ max_uint64
    → read_digits ((b'0' + n % 10) ∷ out) (n / 10) ≡ read_digits out n
unfolding read_digits
read_last_digit n out h =
    let e : (n / 10 * 10 + (b'0' + n % 10 - b'0')) % 18446744073709551616 ≡ n = omega arith in
    rw e (ground (arith, h))

read_digits-print_digits :
    (k n : ℕ) (out : Bytes)
    → n < 10 ^ k
    → n ≤ max_uint64
    → read_digits (print_digits k n out) 0 ≡ read_digits out n
unfolding print_digits
read_digits-print_digits zero n out small fits = let e : n ≡ 0 = omega arith in rw e refl
read_digits-print_digits (suc k) n out small fits =
    read_digits-print_digits k (n / 10) ((b'0' + n % 10) ∷ out) (omega arith) (omega arith)
    ∙ read_last_digit n out fits

parse_uint_lem : (s : Bytes) → 0 < length s → parse_uint s ≡ read_digits s 0
parse_uint_lem [] h = absurd (omega arith)
parse_uint_lem (c ∷ s) h = refl

module _ (s suffix : Bytes) where
  cut : length (s ++ suffix) - length suffix ≡ length s
  cut = omega (arith, length-append s suffix)

  pub trim_suffix-append : trim_suffix (s ++ suffix) suffix ≡ s
  trim_suffix-append = take-append_self _ s suffix cut

  pub has_suffix-append : has_suffix (s ++ suffix) suffix ≡ true
  has_suffix-append =
      rw (drop-append_self _ s suffix cut)
        (ground (arith, length-append s suffix, eq_bytes_iff suffix suffix))

-- A number printed with any width of one digit or more that holds it, in front of an extension, is
-- read as that number.
pub parse_file_id-print_digits :
    (k id : ℕ) (suffix : Bytes)
    → id < 10 ^ suc k
    → id ≤ max_uint64
    → parse_file_id (print_digits (suc k) id [] ++ suffix) suffix ≡ some id
unfolding parse_file_id
parse_file_id-print_digits k id suffix small fits =
    rw
      (
        has_suffix-append (print_digits (suc k) id []) suffix,
        trim_suffix-append (print_digits (suc k) id []) suffix,
      )
      (parse_uint_lem (print_digits (suc k) id [])
          (omega (arith, length-print_digits (suc k) id []))
        ∙ read_digits-print_digits (suc k) id [] small fits
        ∙ (unfold read_digits in refl))

other_extension :
    (s a b : Bytes) → length a ≡ length b → eq_bytes a b ≡ false → has_suffix (s ++ a) b ≡ false
other_extension s a b same differ =
    let e : length (s ++ a) - length b ≡ length s = omega (arith, length-append s a) in
    let d : drop (length (s ++ a) - length b) (s ++ a) ≡ a = drop-append_self _ s a e in
    ground (arith, d, differ)

-- An extension of the same length that is not there.
pub other_suffix :
    (s a b : Bytes) → length a ≡ length b → eq_bytes a b ≡ false → parse_file_id (s ++ a) b ≡ none
unfolding parse_file_id
other_suffix s a b same differ = ground (arith, other_extension s a b same differ)

not_temporary :
    (s a : Bytes)
    → length a ≡ 5
    → eq_bytes (drop 1 a) tmp_file_suffix ≡ false
    → has_suffix (s ++ a) tmp_file_suffix ≡ false
not_temporary s a five differ =
    let e : length (s ++ a) - 4 ≡ length s + 1 = omega (arith, length-append s a) in
    let d : drop (length (s ++ a) - 4) (s ++ a) ≡ drop 1 a = drop-append_add _ 1 s a e in
    ground (arith, d, differ)

pub file_name_not_temporary :
    (id : ℕ)
    → (has_suffix (data_file_name id) tmp_file_suffix ≡ false)
      × (has_suffix (hint_file_name id) tmp_file_suffix ≡ false)
unfolding data_file_name hint_file_name eq_bytes
file_name_not_temporary id = (
  not_temporary (print_digits 20 id []) data_file_extension refl refl,
  not_temporary (print_digits 20 id []) hint_file_extension refl refl,
)

-- Each name has its own extension only.
pub file_name_suffixes :
    (id : ℕ)
    → (has_suffix (data_file_name id) data_file_extension ≡ true)
      × (has_suffix (hint_file_name id) data_file_extension ≡ false)
unfolding data_file_name hint_file_name eq_bytes
file_name_suffixes id = (
  has_suffix-append (print_digits 20 id []) data_file_extension,
  other_extension (print_digits 20 id []) hint_file_extension data_file_extension refl refl,
)

-- The file name of each uint64 is read back as that number by its own extension, and not as a number
-- at all by the other one.
pub file_name_roundtrip :
    (id : ℕ)
    → id ≤ max_uint64
    → (parse_file_id (data_file_name id) data_file_extension ≡ some id)
      × (parse_file_id (hint_file_name id) hint_file_extension ≡ some id)
      × (parse_file_id (hint_file_name id) data_file_extension ≡ none)
      × (parse_file_id (data_file_name id) hint_file_extension ≡ none)
unfolding data_file_name hint_file_name eq_bytes
file_name_roundtrip id fits = (
  parse_file_id-print_digits 19 id data_file_extension (omega arith) fits,
  parse_file_id-print_digits 19 id hint_file_extension (omega arith) fits,
  other_suffix (print_digits 20 id []) hint_file_extension data_file_extension refl refl,
  other_suffix (print_digits 20 id []) data_file_extension hint_file_extension refl refl,
)
