-- ===== src/Kvstore/Store/Keys/Sorted.antt =====
-- ListKeys: the keys that Get finds, in order.
use kvraft.Base.{
  ◌+◌, length, ◌≡◌, ◌≢◌, ◌↔◌, refl, inl, inr, Bool, true, false, ◌||◌, none, List, [], ◌∷◌, Bytes,
  All, arith, eq_bytes, eq_bytes_iff, subst, Bool-cases,
}
use kvraft.Base.Assoc.{lookup, bytes_eq}
use kvraft.Kvstore.Keydir.{Keydir}
use kvraft.Kvstore.Store.Files.{Db}
use kvraft.Kvstore.Store.Keys.{leb_bytes, insert_sorted, sort_strings, keys_of, list_keys}

leb_bytes_trans :
    (a b c : Bytes) → leb_bytes a b ≡ true → leb_bytes b c ≡ true → leb_bytes a c ≡ true
unfolding leb_bytes
leb_bytes_trans [] b c f g = refl
leb_bytes_trans (x ∷ a) [] c f g = ground (arith, f)
leb_bytes_trans (x ∷ a) (y ∷ b) [] f g = ground (arith, g)
leb_bytes_trans (x ∷ a) (y ∷ b) (z ∷ c) f g = ground (arith, f, g, leb_bytes_trans a b c)

leb_bytes_total : (a b : Bytes) → leb_bytes a b ≡ false → leb_bytes b a ≡ true
unfolding leb_bytes
leb_bytes_total [] b f = ground (arith, f)
leb_bytes_total (x ∷ a) [] f = refl
leb_bytes_total (x ∷ a) (y ∷ b) f = ground (arith, f, leb_bytes_total a b)

-- `x` is below every key of the list.
abbrev pub Below : Bytes → List Bytes → Type 0
Below x = All (λ y. leb_bytes x y ≡ true)

abbrev pub IsSorted : List Bytes → Type 0
IsSorted [] = Unit
IsSorted (x ∷ xs) = Below x xs × IsSorted xs

pub member : Bytes → List Bytes → Bool
member key [] = false
member key (x ∷ xs) = eq_bytes x key || member key xs

Below-trans : (a b : Bytes) (xs : List Bytes) → leb_bytes a b ≡ true → Below b xs → Below a xs
Below-trans a b [] h below = tt
Below-trans a b (x ∷ xs) h below = (leb_bytes_trans a b x h below.0, Below-trans a b xs h below.1)

Below-insert_sorted :
    (a x : Bytes) (xs : List Bytes)
    → leb_bytes a x ≡ true
    → Below a xs
    → Below a (insert_sorted x xs)
unfolding insert_sorted
Below-insert_sorted a x [] h below = (h, tt)
Below-insert_sorted a x (y ∷ ys) h below = elim (Bool-cases (leb_bytes x y)) [
  | inl first ↦ rw (insert_sorted, first) (h, below)
  | inr later ↦ rw (insert_sorted, later) (below.0, Below-insert_sorted a x ys h below.1)
]

insert_sorted-IsSorted : (x : Bytes) (xs : List Bytes) → IsSorted xs → IsSorted (insert_sorted x xs)
unfolding insert_sorted
insert_sorted-IsSorted x [] s = (tt, tt)
insert_sorted-IsSorted x (y ∷ ys) s = elim (Bool-cases (leb_bytes x y)) [
  | inl first ↦ rw (insert_sorted, first) ((first, Below-trans x y ys first s.0), s)
  | inr later ↦
      rw (insert_sorted, later)
        (
          Below-insert_sorted y x ys (leb_bytes_total x y later) s.0,
          insert_sorted-IsSorted x ys s.1,
        )
]

sort_strings-IsSorted : (xs : List Bytes) → IsSorted (sort_strings xs)
unfolding sort_strings
sort_strings-IsSorted [] = tt
sort_strings-IsSorted (x ∷ xs) =
    insert_sorted-IsSorted x (sort_strings xs) (sort_strings-IsSorted xs)

member-insert_sorted :
    (key x : Bytes) (xs : List Bytes)
    → member key (insert_sorted x xs) ≡ (eq_bytes x key || member key xs)
unfolding insert_sorted member
member-insert_sorted key x [] = refl
member-insert_sorted key x (y ∷ ys) = ground (arith, member-insert_sorted key x ys)

pub member-sort_strings :
    (key : Bytes) (xs : List Bytes) → member key (sort_strings xs) ≡ member key xs
unfolding sort_strings member
member-sort_strings key [] = refl
member-sort_strings key (x ∷ xs) =
    ground (arith, member-sort_strings key xs, member-insert_sorted key x (sort_strings xs))

pub member-keys_of :
    (key : Bytes) (d : Keydir) → (member key (keys_of d) ≡ true) ↔ (lookup key d ≢ none)
unfolding keys_of member lookup
member-keys_of key [] = ground arith
member-keys_of key ((j, entry) ∷ d) = ground (arith, member-keys_of key d)

length-insert_sorted : (x : Bytes) (xs : List Bytes) → length (insert_sorted x xs) ≡ length xs + 1
unfolding insert_sorted
length-insert_sorted x [] = omega arith
length-insert_sorted x (y ∷ ys) = ground (arith, length-insert_sorted x ys)

pub length-sort_strings : (xs : List Bytes) → length (sort_strings xs) ≡ length xs
unfolding sort_strings
length-sort_strings [] = refl
length-sort_strings (x ∷ xs) =
    omega (arith, length-insert_sorted x (sort_strings xs), length-sort_strings xs)

pub length-keys_of : (d : Keydir) → length (keys_of d) ≡ length d
unfolding keys_of
length-keys_of [] = refl
length-keys_of ((key, e) ∷ d) = omega (arith, length-keys_of d)

pub every_member :
    (P : Bytes → Type 0) (xs : List Bytes)
    → ((key : Bytes) → member key xs ≡ true → P key)
    → All P xs
unfolding member
every_member P [] all = tt
every_member P (x ∷ xs) all = (
  all x (ground (arith, eq_bytes_iff x x)),
  every_member P xs (λ key is. all key (ground (arith, is))),
)

pub member_of_All :
    (P : Bytes → Type 0) (xs : List Bytes) (key : Bytes) → All P xs → member key xs ≡ true → P key
unfolding member
member_of_All P [] key all is = absurd (ground (arith, is))
member_of_All P (x ∷ xs) key all is = elim (Bool-cases (eq_bytes x key)) [
  | inl here ↦ let same : x ≡ key = (eq_bytes_iff x key).0 here in subst P same all.0
  | inr other ↦ member_of_All P xs key all.1 (ground (arith, is, other))
]

-- ListKeys gives its keys in order, and gives exactly the keys that the keydir has an entry of.
pub list_keys-IsSorted :
    (db : Db)
    → IsSorted (list_keys db)
      × ((key : Bytes) → (member key (list_keys db) ≡ true) ↔ (lookup key db.keydir ≢ none))
unfolding list_keys
list_keys-IsSorted db = (
  sort_strings-IsSorted (keys_of db.keydir),
  λ key. rw (member-sort_strings key (keys_of db.keydir)) (member-keys_of key db.keydir),
)
