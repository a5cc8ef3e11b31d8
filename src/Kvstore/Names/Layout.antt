-- ===== src/Kvstore/Names/Layout.antt =====
-- What validateLayout accepts, what it removes, and which ids a directory lists.
use kvraft.Base.{
  ◌++◌, ap, ◌∙◌, eq_bytes_iff, not, ◌&&◌, ℕ, ◌≤◌, ◌<◌, ◌≡◌, ◌≢◌, ◌↔◌, refl, ◌⊎◌, inl, inr, Bool,
  true, false, none, some, List, [], ◌∷◌, Bytes, All, arith, eq_bytes, if◌then◌else◌, Bool-cases,
}
use kvraft.Kvstore.Types.{ok}
use kvraft.Kvstore.Names.RoundTrip.{
  file_name_roundtrip, file_name_not_temporary, file_name_suffixes,
}
use kvraft.Kvstore.Names.{
  data_file_name, hint_file_name, max_uint64, data_file_extension, hint_file_extension,
  tmp_file_suffix, writer_lock_file_name, has_suffix, parse_file_id, DirEntry, check_dir_entry,
  validate_entries, insert_id, sort_ids, file_ids, list_data_file_ids,
}

-- What may stand in the directory: a directory, the lock, a temporary file that is removed, or a
-- data or hint file with a number.
abbrev pub IsAccepted : Bool → DirEntry → Type 0
IsAccepted read_write e =
    (e.is_dir ≡ true)
    ⊎ (e.name ≡ writer_lock_file_name)
    ⊎ ((has_suffix e.name tmp_file_suffix ≡ true) × (read_write ≡ true))
    ⊎ ((has_suffix e.name tmp_file_suffix ≡ false)
        × ((parse_file_id e.name data_file_extension ≢ none)
            ⊎ ((has_suffix e.name data_file_extension ≡ false)
                × (parse_file_id e.name hint_file_extension ≢ none))))

is_temporary : DirEntry → Bool
is_temporary e =
    not e.is_dir
    && (not (eq_bytes e.name writer_lock_file_name) && has_suffix e.name tmp_file_suffix)

pub temporary_names : List DirEntry → List Bytes
unfolding is_temporary
temporary_names [] = []
temporary_names (e ∷ es) =
    let rest = temporary_names es in if is_temporary e then e.name ∷ rest else rest

-- A number is read only behind its extension.
parse_file_id_suffix :
    (name suffix : Bytes) → has_suffix name suffix ≡ false → parse_file_id name suffix ≡ none
unfolding parse_file_id
parse_file_id_suffix name suffix h = ground (arith, h)

check_dir_entry_lem :
    (read_write : Bool) (e : DirEntry)
    → ((check_dir_entry read_write e).1 ≡ none) ↔ IsAccepted read_write e
unfolding check_dir_entry
check_dir_entry_lem read_write e = ground (
  arith,
  eq_bytes_iff e.name writer_lock_file_name,
  parse_file_id_suffix e.name data_file_extension,
  parse_file_id_suffix e.name hint_file_extension,
)

check_dir_entry-removes :
    (e : DirEntry) → (check_dir_entry true e).1 ≡ none → (check_dir_entry true e).0 ≡ is_temporary e
unfolding check_dir_entry is_temporary
check_dir_entry-removes e h = ground arith

-- The check of a directory passes exactly when each of its entries is a directory, the lock, a
-- temporary file, if the opener may write, or a data or hint file whose name is a number.
pub validate_entries_lem :
    (read_write : Bool) (es : List DirEntry)
    → ((validate_entries read_write es).1 ≡ ok tt) ↔ All (IsAccepted read_write) es
unfolding validate_entries
validate_entries_lem read_write [] = ((λ _. tt), (λ _. refl))
validate_entries_lem read_write (e ∷ es) =
    ground (arith, validate_entries_lem read_write es, check_dir_entry_lem read_write e)

-- Where the check passes for an opener that may write, exactly the temporary files are removed.
pub validate_entries-removes :
    (es : List DirEntry)
    → (validate_entries true es).1 ≡ ok tt
    → (validate_entries true es).0 ≡ temporary_names es
unfolding validate_entries temporary_names
validate_entries-removes [] h = refl
validate_entries-removes (e ∷ es) h =
    ground (arith, validate_entries-removes es, check_dir_entry-removes e)

-- The entries of a directory with a data file for each id, and perhaps a hint file, and the lock.
pub record Listed : Type 0 where
  pub file_id : ℕ
  pub with_hint : Bool

pub entries_of : List Listed → List DirEntry
entries_of [] = record { name = writer_lock_file_name; is_dir = false } ∷ []
entries_of (f ∷ fs) =
    let rest = entries_of fs in
    record { name = data_file_name f.file_id; is_dir = false }
    ∷ (if f.with_hint
        then record { name = hint_file_name f.file_id; is_dir = false } ∷ rest
        else rest)

abbrev pub ids_of : List Listed → List ℕ
ids_of [] = []
ids_of (f ∷ fs) = f.file_id ∷ ids_of fs

-- Each id is below those behind it, and a uint64.
abbrev pub AreAscending : List ℕ → Type 0
AreAscending [] = Unit
AreAscending (x ∷ xs) = (x ≤ max_uint64) × All (λ y. x < y) xs × AreAscending xs

All-below :
    (x : ℕ) (ids : List ℕ) (last next : ℕ)
    → All (λ y. x < y) (ids ++ last ∷ [])
    → last < next
    → All (λ y. x < y) ((ids ++ last ∷ []) ++ next ∷ [])
All-below x [] last next h up =
    let beyond : x < next = omega (arith, h.0, up) in (h.0, (beyond, tt))
All-below x (y ∷ ids) last next h up = (h.0, All-below x ids last next h.1 up)

-- One more id at the end.
pub AreAscending-next :
    (ids : List ℕ) (last next : ℕ)
    → AreAscending (ids ++ last ∷ [])
    → last < next
    → next ≤ max_uint64
    → AreAscending ((ids ++ last ∷ []) ++ next ∷ [])
AreAscending-next [] last next h up fits = (h.0, (up, tt), (fits, tt, tt))
AreAscending-next (x ∷ ids) last next h up fits =
    (h.0, All-below x ids last next h.1 up, AreAscending-next ids last next h.2 up fits)

insert_id-below : (x : ℕ) (xs : List ℕ) → All (λ y. x < y) xs → insert_id x xs ≡ x ∷ xs
unfolding insert_id
insert_id-below x [] h = refl
insert_id-below x (y ∷ ys) h = ground (arith, h.0)

sort_ids-ascending : (xs : List ℕ) → AreAscending xs → sort_ids xs ≡ xs
unfolding sort_ids
sort_ids-ascending [] h = refl
sort_ids-ascending (x ∷ xs) h = rw (sort_ids-ascending xs h.2) (insert_id-below x xs h.1)

lock_is_no_data_file : parse_file_id writer_lock_file_name data_file_extension ≡ none
unfolding parse_file_id eq_bytes
lock_is_no_data_file = refl

file_ids-entries_of :
    (fs : List Listed) → AreAscending (ids_of fs) → file_ids (entries_of fs) ≡ ids_of fs
unfolding file_ids entries_of
file_ids-entries_of [] h = ground (arith, lock_is_no_data_file)
file_ids-entries_of (f ∷ fs) h =
    let (at, _, other, _) = file_name_roundtrip f.file_id h.0 in
    ground (arith, at, other, file_ids-entries_of fs h.2)

lock_is_no_hint_file : parse_file_id writer_lock_file_name hint_file_extension ≡ none
unfolding parse_file_id eq_bytes
lock_is_no_hint_file = refl

lock_passes :
    (read_write : Bool)
    → check_dir_entry read_write (record { name = writer_lock_file_name; is_dir = false })
      ≡ (false, none)
unfolding check_dir_entry eq_bytes
lock_passes read_write = refl

not_the_lock :
    (name suffix : Bytes)
    → parse_file_id writer_lock_file_name suffix ≡ none
    → parse_file_id name suffix ≢ none
    → eq_bytes name writer_lock_file_name ≡ false
not_the_lock name suffix no_lock number = elim (Bool-cases (eq_bytes name writer_lock_file_name)) [
  | inl same ↦
      let e = (eq_bytes_iff name writer_lock_file_name).0 same in absurd (number (rw e no_lock))
  | inr other ↦ other
]

module _ (read_write : Bool) (id : ℕ) (fits : id ≤ max_uint64) where
  data_entry_passes :
      check_dir_entry read_write (record { name = data_file_name id; is_dir = false })
      ≡ (false, none)
  unfolding check_dir_entry
  data_entry_passes =
      let (at, _, _, _) = file_name_roundtrip id fits in
      ground (
        arith,
        at,
        (file_name_not_temporary id).0,
        parse_file_id_suffix (data_file_name id) data_file_extension,
        not_the_lock (data_file_name id) data_file_extension lock_is_no_data_file,
      )

  hint_entry_passes :
      check_dir_entry read_write (record { name = hint_file_name id; is_dir = false })
      ≡ (false, none)
  unfolding check_dir_entry
  hint_entry_passes =
      let (_, at, other, _) = file_name_roundtrip id fits in
      ground (
        arith,
        at,
        other,
        (file_name_not_temporary id).1,
        (file_name_suffixes id).1,
        parse_file_id_suffix (hint_file_name id) hint_file_extension,
        not_the_lock (hint_file_name id) hint_file_extension lock_is_no_hint_file,
      )

validate-entries_of :
    (read_write : Bool) (fs : List Listed)
    → AreAscending (ids_of fs)
    → validate_entries read_write (entries_of fs) ≡ ([], ok tt)
unfolding validate_entries entries_of
validate-entries_of read_write [] h = ground (arith, lock_passes read_write)
validate-entries_of read_write (f ∷ fs) h = ground (
  arith,
  data_entry_passes read_write f.file_id h.0,
  hint_entry_passes read_write f.file_id h.0,
  validate-entries_of read_write fs h.2,
)

-- A directory with data files of ascending ids, hint files beside some of them, and the lock passes
-- the check, loses nothing by it, and lists exactly these ids in this order.
pub entries_of-listed :
    (read_write : Bool) (fs : List Listed)
    → AreAscending (ids_of fs)
    → (validate_entries read_write (entries_of fs) ≡ ([], ok tt))
      × (list_data_file_ids (some (entries_of fs)) ≡ ok (ids_of fs))
unfolding list_data_file_ids
entries_of-listed read_write fs h = (
  validate-entries_of read_write fs h,
  ap ok (ap sort_ids (file_ids-entries_of fs h) ∙ sort_ids-ascending (ids_of fs) h),
)
