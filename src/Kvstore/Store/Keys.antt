-- ===== src/Kvstore/Store/Keys.antt =====
-- kvstore/read.go and write.go: ListKeys, Keys and sortedKeys. `sort.Strings` sorts by insertion here;
-- a sorted list of given strings is the same whichever way it was made.
pub mod Sorted
use kvraft.Base.{
  Bool, true, false, ◌||◌, ◌&&◌, List, [], ◌∷◌, Bytes, eq_bytes, ltb, ◌==◌, if◌then◌else◌,
}
use kvraft.Kvstore.Keydir.{Keydir}
use kvraft.Kvstore.Store.Files.{Db}

-- `<=` of strings.
unfoldable pub leb_bytes : Bytes → Bytes → Bool
leb_bytes [] ys = true
leb_bytes (x ∷ xs) [] = false
leb_bytes (x ∷ xs) (y ∷ ys) = ltb x y || ((x == y) && leb_bytes xs ys)

unfoldable pub insert_sorted : Bytes → List Bytes → List Bytes
insert_sorted x [] = x ∷ []
insert_sorted x (y ∷ ys) =
    let rest = insert_sorted x ys in if leb_bytes x y then x ∷ y ∷ ys else y ∷ rest

unfoldable pub sort_strings : List Bytes → List Bytes
sort_strings [] = []
sort_strings (x ∷ xs) = insert_sorted x (sort_strings xs)

-- The keys of a map, in some order.
unfoldable pub keys_of : Keydir → List Bytes
keys_of [] = []
keys_of ((key, entry) ∷ d) = key ∷ keys_of d

unfoldable pub list_keys : Db → List Bytes
list_keys db = sort_strings (keys_of db.keydir)
