-- ===== src/Server/Apply.antt =====
-- server/server.go: the command switch of applyCommittedEntries.
pub mod Refines
use kvraft.Base.{Bool, Option, none, some, Bytes, codes, eq_bytes, if◌then◌else◌}
use kvraft.Base.Int.{ℤ}
use kvraft.Raft.Types.{Command}
use kvraft.Kvstore.Types.{Result, ok, err}
use kvraft.Kvstore.Store.Files.{Db, AppendIo}
use kvraft.Kvstore.Store.Write.{put, delete_key}
use kvraft.Server.Types.{ServerError, store, Answer}

abbrev pub op_put : Bytes
op_put = codes "put"

abbrev pub op_delete : Bytes
op_delete = codes "delete"

abbrev pub command_type_read_barrier : Bytes
command_type_read_barrier = codes "read_barrier"

-- An error of the store, as the answer to the waiter.
pub answer_of_store : Result (Unit {0}) → Answer
answer_of_store (ok _) = none
answer_of_store (err e) = some (store e)

-- A read barrier, as any other type, leaves the store alone. `ts` is the time at the call.
unfoldable pub apply_command : Db → Command → ℤ → AppendIo → Db × Result (Unit {0})
apply_command db command ts io =
    if eq_bytes command.type op_put
    then put db command.key command.value ts io
    else if eq_bytes command.type op_delete
    then delete_key db command.key ts io
    else (db, ok tt)
