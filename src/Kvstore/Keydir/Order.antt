-- ===== src/Kvstore/Keydir/Order.antt =====
-- The order in which updates win, and what a deletion leaves behind.
use kvraft.Base.{
  eq_bytes_iff, ◌≡◌, ◌⊎◌, true, false, Option, none, some, Bytes, arith, if◌then◌else◌, eq_bytes,
}
use kvraft.Base.Int.{eq_ℤ_iff}
use kvraft.Base.Assoc.{lookup, lookup-insert, lookup-delete, bytes_eq}
use kvraft.Kvstore.Types.{KeyDirEntry}
use kvraft.Kvstore.Keydir.{Keydir, should_replace, apply_keydir_update}

irreflexive : (a : KeyDirEntry) → should_replace a a ≡ false
unfolding should_replace
irreflexive a = ground arith

transitive :
    (a b c : KeyDirEntry)
    → should_replace a b ≡ true
    → should_replace b c ≡ true
    → should_replace a c ≡ true
unfolding should_replace
transitive a b c h k = ground arith

asymmetric : (a b : KeyDirEntry) → should_replace a b ≡ true → should_replace b a ≡ false
unfolding should_replace
asymmetric a b h = ground arith

-- Two entries at one place and of one time.
abbrev pub SamePlace : KeyDirEntry → KeyDirEntry → Type 0
SamePlace a b =
    (a.time_stamp ≡ b.time_stamp) × (a.file_id ≡ b.file_id) × (a.file_offset ≡ b.file_offset)

total :
    (a b : KeyDirEntry) → should_replace a b ≡ false → should_replace b a ≡ false → SamePlace a b
unfolding should_replace
total a b h k =
    ground (arith, eq_ℤ_iff a.time_stamp b.time_stamp, eq_ℤ_iff a.file_offset b.file_offset)

-- Replacement is a strict total order on time, file and offset: no entry replaces itself, a chain
-- of replacements is one, of two entries at most one replaces the other, and neither does only
-- where they are at one place and of one time.
pub should_replace-order :
    (a b c : KeyDirEntry)
    → (should_replace a a ≡ false)
      × (should_replace a b ≡ true → should_replace b c ≡ true → should_replace a c ≡ true)
      × (should_replace a b ≡ true → should_replace b a ≡ false)
      × (should_replace a b ≡ false → should_replace b a ≡ false → SamePlace a b)
should_replace-order a b c = (irreflexive a, transitive a b c, asymmetric a b, total a b)

-- The entry of a key after an update that is no deletion: the newer of the two.
abbrev pub newer : Option KeyDirEntry → KeyDirEntry → KeyDirEntry
newer none incoming = incoming
newer (some current) incoming = if should_replace current incoming then incoming else current

pub lookup-apply_keydir_update :
    (d : Keydir) (key j : Bytes) (incoming : KeyDirEntry)
    → lookup j (apply_keydir_update d key incoming false)
      ≡ (if eq_bytes key j then some (newer (lookup key d) incoming) else lookup j d)
unfolding apply_keydir_update
lookup-apply_keydir_update d key j incoming =
    ground (arith, lookup-insert key j incoming d, eq_bytes_iff key j)

abbrev Distinct : KeyDirEntry → KeyDirEntry → Type 0
Distinct e1 e2 = (should_replace e1 e2 ≡ true) ⊎ (should_replace e2 e1 ≡ true)

newer_comm :
    (o : Option KeyDirEntry) (e1 e2 : KeyDirEntry)
    → Distinct e1 e2
    → newer (some (newer o e1)) e2 ≡ newer (some (newer o e2)) e1
newer_comm none e1 e2 d = ground (arith, asymmetric e1 e2, asymmetric e2 e1)
newer_comm (some c) e1 e2 d =
    ground (arith, asymmetric e1 e2, asymmetric e2 e1, transitive c e1 e2, transitive c e2 e1)

-- Two updates that are no deletions may come in either order: every key ends with the same entry,
-- if one of the two entries is newer than the other.
pub apply_keydir_update_comm :
    (d : Keydir) (k1 k2 j : Bytes) (e1 e2 : KeyDirEntry)
    → (should_replace e1 e2 ≡ true) ⊎ (should_replace e2 e1 ≡ true)
    → lookup j (apply_keydir_update (apply_keydir_update d k1 e1 false) k2 e2 false)
      ≡ lookup j (apply_keydir_update (apply_keydir_update d k2 e2 false) k1 e1 false)
apply_keydir_update_comm d k1 k2 j e1 e2 distinct = ground (
  arith,
  lookup-apply_keydir_update d k1 j e1,
  lookup-apply_keydir_update d k2 j e2,
  lookup-apply_keydir_update d k1 k2 e1,
  lookup-apply_keydir_update d k2 k1 e2,
  lookup-apply_keydir_update (apply_keydir_update d k1 e1 false) k2 j e2,
  lookup-apply_keydir_update (apply_keydir_update d k2 e2 false) k1 j e1,
  eq_bytes_iff k1 k2,
  eq_bytes_iff k2 k1,
  eq_bytes_iff k1 j,
  eq_bytes_iff k2 j,
  newer_comm (lookup k1 d) e1 e2 distinct,
)

-- What a deletion that wins over the entry on record leaves: no entry of the key.
abbrev pub Wins : Option KeyDirEntry → KeyDirEntry → Type 0
Wins none deletion = Unit
Wins (some current) deletion = should_replace current deletion ≡ true

lookup-deleted :
    (d : Keydir) (key : Bytes) (deletion : KeyDirEntry)
    → Wins (lookup key d) deletion
    → lookup key (apply_keydir_update d key deletion true) ≡ none
unfolding apply_keydir_update
lookup-deleted d key deletion wins = ground (arith, lookup-delete key key d, eq_bytes_iff key key)

lookup-missing :
    (d : Keydir) (key : Bytes) (put : KeyDirEntry)
    → lookup key d ≡ none
    → lookup key (apply_keydir_update d key put false) ≡ some put
lookup-missing d key put missing =
    ground (arith, lookup-apply_keydir_update d key key put, eq_bytes_iff key key)

-- A deletion that wins over the entry on record removes the key and leaves no trace: a put of the
-- same key that comes after it brings the key back, also one that is older than the deletion.
pub deleted_key_returns :
    (d : Keydir) (key : Bytes) (put deletion : KeyDirEntry)
    → Wins (lookup key d) deletion
    → (lookup key (apply_keydir_update d key deletion true) ≡ none)
      × (lookup key (apply_keydir_update (apply_keydir_update d key deletion true) key put false)
          ≡ some put)
deleted_key_returns d key put deletion wins =
    let gone = lookup-deleted d key deletion wins in
    (gone, lookup-missing (apply_keydir_update d key deletion true) key put gone)
