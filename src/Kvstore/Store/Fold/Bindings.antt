-- ===== src/Kvstore/Store/Fold/Bindings.antt =====
-- Fold hands over the bindings of the store, in the order of the keys.
use kvraft.Base.{
  ◌≡◌, refl, sym, subst, inl, inr, none, some, List, [], ◌∷◌, Bytes, arith, Option-cases,
}
use kvraft.Base.Assoc.{lookup, bytes_eq}
use kvraft.Kvstore.Types.{Result, ok, err, Result-cases}
use kvraft.Kvstore.Store.Files.{Db}
use kvraft.Kvstore.Store.Read.{get, read_record_at_entry, open_reader}
use kvraft.Kvstore.Store.Keys.{keys_of, sort_strings, list_keys}
use kvraft.Kvstore.Store.Durable.View.{View, Shows, get-Shows, Shows-later}
use kvraft.Kvstore.Store.Fold.{fold_keys, fold}

-- The bindings of some keys, those without one left out.
abbrev pub bindings : View → List Bytes → List (Bytes × Bytes)
bindings m [] = []
bindings m (key ∷ keys) = elim (lookup key m) [
  | none ↦ bindings m keys
  | some value ↦ (key, value) ∷ bindings m keys
]

-- Only the cached readers change.
get-readers :
    (db : Db) (key : Bytes) → (get db key).0 ≡ record db { readers = (get db key).0.readers }
unfolding get read_record_at_entry open_reader
get-readers db key = elim (Option-cases (lookup key db.keydir)) [
  | inl missing ↦ ground (arith, missing)
  | inr (e, found) ↦ ground (arith, found)
]

get-keeps : (m : View) (db : Db) (key : Bytes) → Shows m db → Shows m (get db key).0
get-keeps m db key s =
    subst (Shows m) (sym (get-readers db key))
      (Shows-later m db (get db key).0.readers db.next_file_id (omega arith) s.writable.no_wrap s)

module _ {ℓ} {S : Type ℓ} (fn : Bytes → Bytes → S → S × Result (Unit {0})) where
  -- The function on one binding after another, up to its first error.
  pub visit : S → List (Bytes × Bytes) → S × Result (Unit {0})
  visit s [] = (s, ok tt)
  visit s ((key, value) ∷ rest) =
      let (s', answer) = fn key value s in
      elim answer [ err e ↦ (s', err e) | ok _ ↦ visit s' rest ]

  fold_keys-visit :
      (m : View) (db : Db) (s : S) (keys : List Bytes)
      → Shows m db
      → (fold_keys fn db s keys).1 ≡ (visit s (bindings m keys)).0
        × ((fold_keys fn db s keys).2 ≡ (visit s (bindings m keys)).1)
  unfolding fold_keys visit
  fold_keys-visit m db s [] shows = (refl, refl)
  fold_keys-visit m db s (key ∷ keys) shows =
      let answers = get-Shows m db key shows in
      let later = get-keeps m db key shows in
      elim (Option-cases (lookup key m)) [
        | inl missing ↦
            let rest = fold_keys-visit m (get db key).0 s keys later in
            ground (arith, answers, missing, rest)
        | inr (value, found) ↦ elim (Result-cases (fn key value s).1) [
          | inr (e, stops) ↦ ground (arith, answers, found, stops)
          | inl (u, goes_on) ↦
              let rest = fold_keys-visit m (get db key).0 (fn key value s).0 keys later in
              ground (arith, answers, found, goes_on, rest)
        ]
      ]

  -- On an open database that is the map `m`, Fold calls its function on the bindings of `m` in the
  -- order in which ListKeys gives their keys, up to the first error of the function, and returns
  -- that error.
  pub fold-visit :
      (m : View) (db : Db) (s : S)
      → Shows m db
      → ((fold fn db s).1 ≡ (visit s (bindings m (list_keys db))).0)
        × ((fold fn db s).2 ≡ (visit s (bindings m (list_keys db))).1)
  unfolding fold list_keys
  fold-visit m db s shows =
      let rest = fold_keys-visit m db s (sort_strings (keys_of db.keydir)) shows in
      ground (arith, shows.writable.opened, rest)
