-- ===== src/Server/Apply/Refines.antt =====
-- server/server.go over kvstore/: applying the committed commands is applying them to a plain map.
use kvraft.Base.{
  ◌+◌, ◌^◌, ◌≤◌, ◌<◌, ◌≡◌, sym, inl, inr, List, [], ◌∷◌, Bytes, arith, length, eq_bytes,
  if◌then◌else◌, Bool-cases,
}
use kvraft.Base.Int.{ℤ}
use kvraft.Base.Assoc.{lookup, insert, delete, bytes_eq}
use kvraft.Raft.Types.{Command}
use kvraft.Kvstore.Types.{ok}
use kvraft.Kvstore.Codec.RoundTrip.{Fits}
use kvraft.Kvstore.Store.Files.{Db, AppendIo}
use kvraft.Kvstore.Store.Write.{put, delete_key}
use kvraft.Kvstore.Store.Read.{get}
use kvraft.Kvstore.Store.Durable.View.{
  View, Shows, answer_of, get-Shows, put-Shows, delete_key-Shows, put-others, delete_key-others,
}
use kvraft.Server.Apply.{op_put, op_delete, apply_command}

-- The specification: what a command does to the map.
pub effect : View → Command → View
effect m command =
    if eq_bytes command.type op_put
    then insert command.key command.value m
    else if eq_bytes command.type op_delete
    then delete command.key m
    else m

pub effects : View → List Command → View
effects m [] = m
effects m (c ∷ cs) = effects (effect m c) cs

-- The sizes and the timestamp fit in the fields of a record.
pub record CommandFits (ts : ℤ) (command : Command) : Type 0 where
  pub fields : Fits ts command.key command.value
  pub size : 20 + length command.key + length command.value < 2 ^ 32

-- A run of the applier in which each command succeeds.
pub data Applies : Db → List Command → Db → Type 0 where
  done : (db : Db) → Applies db [] db
  step :
      (db mid db' : Db) (command : Command) (commands : List Command) (ts : ℤ) (io : AppendIo)
      → CommandFits ts command
      → apply_command db command ts io ≡ (mid, ok tt)
      → Applies mid commands db'
      → Applies db (command ∷ commands) db'

apply_command-Shows :
    (m : View) (db : Db) (command : Command) (ts : ℤ) (io : AppendIo) {db' : Db}
    → Shows m db
    → db.next_file_id + 2 < 2 ^ 64
    → CommandFits ts command
    → apply_command db command ts io ≡ (db', ok tt)
    → Shows (effect m command) db' × (db'.next_file_id ≤ db.next_file_id + 1)
unfolding apply_command effect
apply_command-Shows m db command ts io {db'} s small fits h =
    elim (Bool-cases (eq_bytes command.type op_put)) [
      | inl is_put ↦
          let runs : put db command.key command.value ts io ≡ (db', ok tt) =
            ground (arith, h, is_put) in
          rw is_put (
            put-Shows m db command.key command.value ts io s small fits.fields fits.size runs,
            (put-others db command.key command.value ts io s.writable small runs).0,
          )
      | inr not_put ↦ elim (Bool-cases (eq_bytes command.type op_delete)) [
        | inl is_delete ↦
            let runs : delete_key db command.key ts io ≡ (db', ok tt) =
              ground (arith, h, not_put, is_delete) in
            rw (not_put, is_delete)
              (
                delete_key-Shows m db command.key ts io s small runs,
                (delete_key-others db command.key ts io s.writable small runs).0,
              )
        | inr not_delete ↦
            let same : db ≡ db' = ground (arith, h, not_put, not_delete) in
            rw (not_put, not_delete, sym same) (s, omega arith)
      ]
    ]

-- Where the database shows a map, and its next file id leaves room for a rotation per command, a run
-- of the applier in which each command succeeds ends in a database whose Get answers, for each key,
-- as the map after the commands. Each command is to fit in a record: its timestamp is an int64, and
-- the header, the key and the value together have less than 2 ^ 32 bytes.
pub applied_refines :
    (m : View) (db db' : Db) (commands : List Command)
    → Shows m db
    → db.next_file_id + length commands + 1 < 2 ^ 64
    → Applies db commands db'
    → Shows (effects m commands) db'
      × ((key : Bytes) → (get db' key).1 ≡ answer_of (lookup key (effects m commands)))
unfolding effects
applied_refines m db db' [] s small (done _) = (s, λ key. get-Shows m db key s)
applied_refines m db db' (c ∷ cs) s small (step _ mid _ _ _ ts io fits runs rest) =
    let (s', next) = apply_command-Shows m db c ts io s (omega arith) fits runs in
    applied_refines (effect m c) mid db' cs s' (omega arith) rest
