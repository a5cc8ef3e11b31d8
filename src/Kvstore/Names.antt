-- ===== src/Kvstore/Names.antt =====
-- kvstore/paths.go: file names, the check of the directory and the list of its data files.
pub mod RoundTrip
pub mod Layout
use kvraft.Base.{
  ℕ, zero, suc, ◌+◌, ◌-◌, ◌*◌, ◌/◌, ◌%◌, Bool, true, false, not, ◌&&◌, ◌||◌, Option, none, some,
  List, [], ◌∷◌, ◌++◌, Bytes, codes, eq_bytes, length, take, drop, ltb, leb, if◌then◌else◌, ◌>>=◌,
}
use kvraft.Kvstore.Types.{Error, bad_layout, io_error, Result, ok, err}

abbrev pub data_file_extension : Bytes
data_file_extension = codes ".data"

abbrev pub hint_file_extension : Bytes
hint_file_extension = codes ".hint"

abbrev pub tmp_file_suffix : Bytes
tmp_file_suffix = codes ".tmp"

abbrev pub writer_lock_file_name : Bytes
writer_lock_file_name = codes "bitcask.write.lock"

-- The last `k` decimal digits of a number, in front of `out`.
unfoldable pub print_digits : ℕ → ℕ → Bytes → Bytes
print_digits zero n out = out
print_digits (suc k) n out = print_digits k (n / 10) ((b'0' + n % 10) ∷ out)

-- `%020d` of a uint64, which has at most twenty digits, and the extension.
unfoldable pub data_file_name : ℕ → Bytes
data_file_name file_id = print_digits 20 file_id [] ++ data_file_extension

unfoldable pub hint_file_name : ℕ → Bytes
hint_file_name file_id = print_digits 20 file_id [] ++ hint_file_extension

abbrev pub max_uint64 : ℕ
max_uint64 = 18446744073709551615

-- The loop of strconv.ParseUint in base 10; `cutoff` is `maxUint64/10 + 1`, and uint64 wraps.
unfoldable pub read_digits : Bytes → ℕ → Option ℕ
read_digits [] n = some n
read_digits (c ∷ s) n =
    let next = (n * 10 + (c - b'0')) % 18446744073709551616 in
    let rest = read_digits s next in
    if ltb c b'0' || ltb b'9' c
    then none
    else if leb 1844674407370955162 n
    then none
    else if ltb next (n * 10)
    then none
    else rest

abbrev pub parse_uint : Bytes → Option ℕ
parse_uint [] = none
parse_uint (c ∷ s) = read_digits (c ∷ s) 0

abbrev pub has_suffix : Bytes → Bytes → Bool
has_suffix name suffix =
    leb (length suffix) (length name) && eq_bytes (drop (length name - length suffix) name) suffix

abbrev pub trim_suffix : Bytes → Bytes → Bytes
trim_suffix name suffix = take (length name - length suffix) name

-- `none` for the false of the second result. An empty base is no number.
unfoldable pub parse_file_id : Bytes → Bytes → Option ℕ
parse_file_id name suffix =
    if not (has_suffix name suffix) then none else parse_uint (trim_suffix name suffix)

-- An entry of os.ReadDir.
pub record DirEntry : Type 0 where
  pub name : Bytes
  pub is_dir : Bool

-- The names that are removed on the way, and the result.
abbrev pub Checked : Type 0
Checked = List Bytes × Result (Unit {0})

-- One entry: `none` goes on, and the Bool says that the file is removed.
unfoldable pub check_dir_entry : Bool → DirEntry → Bool × Option Error
check_dir_entry read_write e =
    if e.is_dir
    then (false, none)
    else if eq_bytes e.name writer_lock_file_name
    then (false, none)
    else if has_suffix e.name tmp_file_suffix
    then (if read_write then (true, none) else (false, some bad_layout))
    else if has_suffix e.name data_file_extension
    then (
      false,
      elim (parse_file_id e.name data_file_extension) [ none ↦ some bad_layout | some _ ↦ none ],
    )
    else if has_suffix e.name hint_file_extension
    then (
      false,
      elim (parse_file_id e.name hint_file_extension) [ none ↦ some bad_layout | some _ ↦ none ],
    )
    else (false, some bad_layout)

-- The loop stops at the first entry that is refused; a removal that fails is ignored.
unfoldable pub validate_entries : Bool → List DirEntry → Checked
validate_entries read_write [] = ([], ok tt)
validate_entries read_write (e ∷ es) =
    let rest = validate_entries read_write es in
    let (removed, refused) = check_dir_entry read_write e in
    elim refused [
      | some error ↦ ([], err error)
      | none ↦ ((if removed then e.name ∷ rest.0 else rest.0), rest.1)
    ]

-- The names of os.ReadDir, or its failure.
unfoldable pub validate_layout : Bool → Option (List DirEntry) → Checked
validate_layout read_write none = ([], err io_error)
validate_layout read_write (some es) = validate_entries read_write es

insert_id : ℕ → List ℕ → List ℕ
insert_id x [] = x ∷ []
insert_id x (y ∷ ys) = let rest = insert_id x ys in if leb x y then x ∷ y ∷ ys else y ∷ rest

-- `sort.Slice` of numbers by `<`.
sort_ids : List ℕ → List ℕ
unfolding insert_id
sort_ids [] = []
sort_ids (x ∷ xs) = insert_id x (sort_ids xs)

file_ids : List DirEntry → List ℕ
file_ids [] = []
file_ids (e ∷ es) =
    let rest = file_ids es in
    if e.is_dir
    then rest
    else elim (parse_file_id e.name data_file_extension) [ none ↦ rest | some id ↦ id ∷ rest ]

unfoldable pub list_data_file_ids : Option (List DirEntry) → Result (List ℕ)
unfolding sort_ids file_ids
list_data_file_ids none = err io_error
list_data_file_ids (some es) = ok (sort_ids (file_ids es))
