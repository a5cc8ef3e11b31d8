-- ===== src/Server/Completion.antt =====
-- server/server.go: the hand-over of apply results between applyCommittedEntries and submitAndWait.
-- Each step runs under `pendingLock`.
pub mod Room
pub mod Handover
pub mod Runs
use kvraft.Base.{
  ℕ, suc, ◌+◌, Bool, true, false, Option, none, some, List, [], ◌∷◌, ◌++◌, length, leb, ◌==◌,
  if◌then◌else◌,
}
use kvraft.Base.Assoc.{Assoc, lookup, insert, delete}
use kvraft.Server.Types.{
  ServerError, commit_timeout, server_closed, canceled, Answer, PendingKey, key_eq, Waiters,
}

abbrev pub max_completed_notifications : ℕ
max_completed_notifications = 1024

-- The fields that NewRaftKVServer makes for the hand-over.
unfoldable pub new_waiters : Waiters
new_waiters = record {
  pending = [];
  completed = [];
  completion_q = [];
  channels = λ _. none;
  next_channel = 0;
  is_closed = false;
}

-- `ch <- answer`; `none` is a sender that waits for room in the buffer, with the lock held.
unfoldable pub send : Waiters → ℕ → Answer → Option Waiters
send s ch answer = elim (s.channels ch) [
  | some _ ↦ none
  | none ↦ some (record s { channels = λ i. if ch == i then some answer else s.channels i })
]

-- The oldest completion makes room for a new one.
unfoldable pub evict : Waiters → List PendingKey → Waiters
evict s [] = s
evict s (oldest ∷ rest) = record s { completion_q = rest; completed = delete oldest s.completed }

unfoldable pub make_room : Waiters → Waiters
make_room s =
    if leb max_completed_notifications (length s.completion_q) then evict s s.completion_q else s

unfoldable pub complete : Waiters → PendingKey → Answer → Waiters
complete s key answer = record s {
  completed = insert key answer s.completed;
  completion_q = s.completion_q ++ key ∷ [];
}

-- The locked part of a round of applyCommittedEntries, after the command was applied.
unfoldable pub notify_applied : Waiters → PendingKey → Answer → Option Waiters
unfolding evict make_room complete
notify_applied s key answer = elim (lookup key s.pending) [
  | some ch ↦ elim (send s ch answer) [
    | none ↦ none
    | some s' ↦ some (record s' { pending = delete key s'.pending })
  ]
  | none ↦ some (complete (make_room s) key answer)
]

-- What submitAndWait knows after its locked part: an answer, or the channel to wait on.
pub data Registered : Type 0 where
  answered : Answer → Registered
  waiting : ℕ → Registered

-- The server is open: the completion that came first, or a new waiter.
unfoldable pub register_open : Waiters → PendingKey → Waiters × Registered
register_open s key = elim (lookup key s.completed) [
  | some answer ↦ (
    record s { next_channel = s.next_channel + 1; completed = delete key s.completed },
    answered answer,
  )
  | none ↦ (
    record s { next_channel = s.next_channel + 1; pending = insert key s.next_channel s.pending },
    waiting s.next_channel,
  )
]

-- `waitCh` is made before the lock is taken.
unfoldable pub register : Waiters → PendingKey → Waiters × Registered
register s key =
    if s.is_closed
    then (record s { next_channel = s.next_channel + 1 }, answered (some server_closed))
    else register_open s key

-- What wakes a waiter: an answer in its channel, the end of its context, or the closing server.
pub data WakeUp : Type 0 where
  received deadline_exceeded context_canceled closed_channel : WakeUp

-- `none`: that case of the select is not ready.
unfoldable pub wait : Waiters → PendingKey → ℕ → WakeUp → Option (Waiters × Answer)
wait s key ch received = elim (s.channels ch) [
  | none ↦ none
  | some answer ↦ some (record s { channels = λ i. if ch == i then none else s.channels i }, answer)
]
wait s key ch deadline_exceeded =
    some (record s { pending = delete key s.pending }, some commit_timeout)
wait s key ch context_canceled = some (record s { pending = delete key s.pending }, some canceled)
wait s key ch closed_channel =
    if s.is_closed
    then some (record s { pending = delete key s.pending }, some server_closed)
    else none

close_loop : Waiters → Assoc PendingKey ℕ → Option Waiters
close_loop s [] = some s
close_loop s ((key, ch) ∷ rest) = elim (send s ch (some server_closed)) [
  | none ↦ none
  | some s' ↦ close_loop (record s' { pending = delete key s'.pending }) rest
]

-- The first part of Close: `closedCh` is closed and every waiter told.
unfoldable pub close_waiters : Waiters → Option Waiters
unfolding close_loop
close_waiters s = close_loop (record s { is_closed = true }) s.pending
