-- ===== src/Kvstore/Keydir.antt =====
-- kvstore/open.go: shouldReplace and applyKeydirUpdate.
pub mod Order
use kvraft.Base.{ℕ, Bool, true, false, not, Option, none, some, Bytes, ltb, if◌then◌else◌}
use kvraft.Base.Int.{ℤ, ltb_ℤ}
use kvraft.Base.Assoc.{Assoc, lookup, insert, delete, bytes_eq}
use kvraft.Kvstore.Types.{KeyDirEntry}

abbrev pub Keydir : Type 0
Keydir = Assoc Bytes KeyDirEntry

unfoldable pub should_replace : KeyDirEntry → KeyDirEntry → Bool
should_replace current incoming =
    if ltb_ℤ current.time_stamp incoming.time_stamp
    then true
    else if ltb_ℤ incoming.time_stamp current.time_stamp
    then false
    else if ltb current.file_id incoming.file_id
    then true
    else if ltb incoming.file_id current.file_id
    then false
    else ltb_ℤ current.file_offset incoming.file_offset

put_or_delete : Keydir → Bytes → KeyDirEntry → Bool → Keydir
put_or_delete keydir key incoming tombstone =
    if tombstone then delete key keydir else insert key incoming keydir

unfoldable pub apply_keydir_update : Keydir → Bytes → KeyDirEntry → Bool → Keydir
unfolding put_or_delete
apply_keydir_update keydir key incoming tombstone = elim (lookup key keydir) [
  | none ↦ put_or_delete keydir key incoming tombstone
  | some current ↦
      if not (should_replace current incoming)
      then keydir
      else put_or_delete keydir key incoming tombstone
]
