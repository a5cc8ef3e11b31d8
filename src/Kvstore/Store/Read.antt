-- ===== src/Kvstore/Store/Read.antt =====
-- kvstore/read.go: Get and the readers.
use kvraft.Base.{
  ℕ, ◌%◌, ◌^◌, Bool, false, not, ◌||◌, none, some, List, [], ◌∷◌, Bytes, take, drop, eq_bytes, ◌==◌,
  if◌then◌else◌,
}
use kvraft.Base.Int.{ℤ, pos, negsuc}
use kvraft.Base.Assoc.{lookup, bytes_eq}
use kvraft.Kvstore.Types.{
  closed, key_not_found, corrupt_data, io_error, Result, ok, err, ◌>>=◌, KeyDirEntry, DecodedRecord,
  tombstone_value,
}
use kvraft.Kvstore.Codec.{decode_data_record}
use kvraft.Kvstore.Store.Files.{Db}

unfoldable pub contains : ℕ → List ℕ → Bool
contains id [] = false
contains id (x ∷ xs) = x == id || contains id xs

-- The contents behind the descriptor; a file that is not there cannot be opened.
unfoldable pub open_reader : Db → ℕ → Db × Result Bytes
unfolding contains
open_reader db id = if db.is_closed then (db, err closed) else elim (db.data_files id) [
  | none ↦ (db, err io_error)
  | some c ↦ (if contains id db.readers then db else record db { readers = id ∷ db.readers }, ok c)
]

-- `io.NewSectionReader(f, off, n)`
abbrev section : Bytes → ℤ → ℕ → Result Bytes
section c (pos off) n = ok (take n (drop off c))
section c (negsuc _) n = err io_error

check_entry : Bytes → KeyDirEntry → DecodedRecord → ℕ → Result DecodedRecord
check_entry key entry rec size =
    if not (eq_bytes rec.key key) || not (size % 2 ^ 32 == entry.record_size)
    then err corrupt_data
    else ok rec

read_section : Bytes → KeyDirEntry → Bytes → Result DecodedRecord
unfolding check_entry
read_section key entry c = do
  sr ← section c entry.file_offset entry.record_size
  (rec, size, _) ← decode_data_record sr
  check_entry key entry rec size

unfoldable pub read_record_at_entry : Db → Bytes → KeyDirEntry → Db × Result DecodedRecord
unfolding read_section
read_record_at_entry db key entry =
    let (db', r) = open_reader db entry.file_id in (db', r >>= read_section key entry)

value_of : DecodedRecord → Result Bytes
value_of rec = if eq_bytes rec.value tombstone_value then err key_not_found else ok rec.value

unfoldable pub get : Db → Bytes → Db × Result Bytes
unfolding value_of
get db key = if db.is_closed then (db, err closed) else elim (lookup key db.keydir) [
  | none ↦ (db, err key_not_found)
  | some entry ↦ let (db', r) = read_record_at_entry db key entry in (db', r >>= value_of)
]
