-- ===== src/Kvstore/Store/Fold.antt =====
-- kvstore/read.go: Fold, with nothing else between its calls of Get. The function that is folded acts
-- on a state of its own.
pub mod Bindings
use kvraft.Base.{Bool, true, false, List, [], ◌∷◌, Bytes, if◌then◌else◌}
use kvraft.Kvstore.Types.{Error, closed, key_not_found, Result, ok, err}
use kvraft.Kvstore.Store.Files.{Db}
use kvraft.Kvstore.Store.Read.{get}
use kvraft.Kvstore.Store.Keys.{keys_of, sort_strings}

-- `errors.Is(err, ErrKeyNotFound)`
abbrev is_key_not_found : Error → Bool
is_key_not_found key_not_found = true
is_key_not_found _ = false

module _ {ℓ} {S : Type ℓ} (fn : Bytes → Bytes → S → S × Result (Unit {0})) where
  unfoldable pub fold_keys : Db → S → List Bytes → Db × S × Result (Unit {0})
  fold_keys db s [] = (db, s, ok tt)
  fold_keys db s (key ∷ keys) =
      let (db', r) = get db key in
      elim r [
        | err e ↦ if is_key_not_found e then fold_keys db' s keys else (db', s, err e)
        | ok value ↦
            let (s', answer) = fn key value s in
            elim answer [ err e ↦ (db', s', err e) | ok _ ↦ fold_keys db' s' keys ]
      ]

  unfoldable pub fold : Db → S → Db × S × Result (Unit {0})
  fold db s =
      if db.is_closed
      then (db, s, err closed)
      else fold_keys db s (sort_strings (keys_of db.keydir))
