-- ===== src/Tests/Service.antt =====
-- server/ and the wire: the theorems at a server with one waiter and small messages.
use kvraft.Base.{
  ℕ, ◌==◌, if◌then◌else◌, ◌≡◌, ◌≢◌, ◌↔◌, refl, inr, none, some, [], ◌∷◌, Bytes, codes, arith,
  eq_bytes,
}
use kvraft.Base.Int.{pos}
use kvraft.Base.Assoc.{lookup, bytes_eq, insert, delete}
use kvraft.Raft.Node.{Node, signal_all_replications}
use kvraft.Raft.Election.{submit}
use kvraft.Raft.Wire.{append_entries_args_to_proto, append_entries_args_from_proto}
use kvraft.Raft.Wire.RoundTrip.{AppendArgsFit, append_entries_args_roundtrip}
use kvraft.Kvstore.Store.Read.{get}
use kvraft.Kvstore.Store.Durable.View.{Shows, answer_of}
use kvraft.Server.Types.{ServerError, commit_timeout, PendingKey, key_eq, eq_key, Waiters}
use kvraft.Server.Completion.{
  new_waiters, make_room, complete, send, register_open, close_waiters, notify_applied, answered,
  waiting, register, received, wait,
}
use kvraft.Server.Completion.Handover.{IsSound, notify_applied-IsSound, waiter_first, applier_first}
use kvraft.Server.Completion.Runs.{
  registers, notifies, started, next, Reached-IsSound, sends_never_block,
}
use kvraft.Server.Apply.{apply_command}
use kvraft.Server.Apply.Refines.{Applies, done, step, effects, applied_refines}
use kvraft.Server.Requests.{Server, int_eq, start_submit, put_command}
use kvraft.Tests.Consensus.{head, beat}
use kvraft.Tests.Database.{k, v, db, db-IsWritable, fine, record-Fits, after_put, put_runs}

new_waiters-IsSound : IsSound new_waiters
new_waiters-IsSound = Reached-IsSound started

abbrev first_key : PendingKey
first_key = record { index = pos 1; term = pos 1 }

-- A call waits for the key, and the applier answers it.
abbrev handed_over : Waiters
handed_over = record new_waiters {
  channels = λ i. if 0 == i then some none else none;
  next_channel = 1;
}

handed_over_runs :
    notify_applied (register new_waiters first_key).0 first_key none ≡ some handed_over
unfolding notify_applied send register register_open new_waiters lookup insert delete eq_key
handed_over_runs = refl

-- The answer is still in the channel when a second one comes for the same key.
sends_never_block_example :
    (notify_applied handed_over first_key none ≢ none) × (close_waiters handed_over ≢ none)
sends_never_block_example = sends_never_block first_key none (
    next (next started (registers new_waiters first_key))
      (notifies first_key none handed_over_runs))

abbrev notified : Waiters
notified = record new_waiters { completed = (first_key, none) ∷ []; completion_q = first_key ∷ [] }

notified_runs : notify_applied new_waiters first_key none ≡ some notified
unfolding notify_applied lookup complete make_room insert delete new_waiters
notified_runs = refl

notify_applied-IsSound_example : IsSound notified
notify_applied-IsSound_example =
    notify_applied-IsSound new_waiters first_key none new_waiters-IsSound notified_runs

waiter_first_example :
    (ch : ℕ) × (t : Waiters) × (u : Waiters) × ((register new_waiters first_key).1 ≡ waiting ch)
    × (notify_applied (register new_waiters first_key).0 first_key (some commit_timeout) ≡ some t)
    × (wait t first_key ch received ≡ some (u, some commit_timeout))
unfolding lookup new_waiters
waiter_first_example =
    waiter_first new_waiters first_key (some commit_timeout) new_waiters-IsSound refl refl

applier_first_example : (register notified first_key).1 ≡ answered none
unfolding lookup new_waiters
applier_first_example = applier_first new_waiters first_key none refl refl notified_runs

db-Shows : Shows [] db
unfolding lookup
db-Shows = record {
  writable = db-IsWritable;
  held = λ _ _ h. ground (arith, h);
  absent = λ _ _. refl;
}

put_applied : Applies db (put_command k v ∷ []) after_put
unfolding apply_command eq_bytes
put_applied =
    step db after_put after_put (put_command k v) [] (pos 7) fine
      (record { fields = record-Fits; size = omega arith }) put_runs (done after_put)

applied_refines_example :
    Shows (effects [] (put_command k v ∷ [])) after_put
    × ((key : Bytes)
        → (get after_put key).1 ≡ answer_of (lookup key (effects [] (put_command k v ∷ []))))
applied_refines_example =
    applied_refines [] db after_put (put_command k v ∷ []) db-Shows (omega arith) put_applied

append_entries_args_roundtrip_example :
    (append_entries_args_from_proto (append_entries_args_to_proto beat) ≢ none)
    × ((append_entries_args_from_proto (append_entries_args_to_proto beat) ≡ some beat)
        ↔ AppendArgsFit beat)
append_entries_args_roundtrip_example = append_entries_args_roundtrip beat

abbrev here : Server
here = record { id = pos 1; client_address = codes "b"; client_peers = []; raft_node = some head }

abbrev submitted : Node
submitted = (submit head (put_command k v)).0

submit_runs :
    start_submit here (put_command k v)
    ≡ (record here { raft_node = some submitted }, inr (record { index = pos 3; term = pos 1 }))
unfolding start_submit submit signal_all_replications
submit_runs = refl

abbrev no_text : ServerError → Bytes
no_text _ = []
