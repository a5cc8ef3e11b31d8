-- ===== src/Raft/Replication.antt =====
-- raft/node.go: replicateToFollower, before and after the call to the follower.
pub mod Round
pub mod Worker
use kvraft.Base.{
  List, [], ◌∷◌, ℕ, zero, suc, ◌+◌, ◌-◌, Bool, true, false, not, ◌&&◌, Option, none, some, length,
  get_elem?, drop, ltb, if◌then◌else◌, ◌>>=◌,
}
use kvraft.Base.Int.{ℤ, pos, ltb_ℤ, eq_ℤ, pos_part}
use kvraft.Raft.Types.{AppendEntriesArgs, AppendEntriesReply}
use kvraft.Raft.Node.{Node, update, is_leader_state, become_follower_locked}
use kvraft.Raft.Commit.{try_advance_commit_index_locked}

-- The message for follower `peer` whose next entry is `next`; `none` where the function returns
-- false before it sends.
prepare_from : Node → ℕ → Option AppendEntriesArgs
prepare_from n zero = none
prepare_from n (suc prev) = do
  e ← get_elem? n.log prev
  some (record {
    term = n.current_term;
    leader_id = pos n.id;
    prev_log_index = pos prev;
    prev_log_term = e.term;
    entries = drop (suc prev) n.log;
    leader_commit = pos n.commit_index;
  })

unfoldable pub prepare_append : Node → ℕ → Option AppendEntriesArgs
unfolding prepare_from
prepare_append n peer = if is_leader_state n.state then prepare_from n (n.next_index peer) else none

-- The follower has the log up to `match`.
on_success : Node → ℕ → ℕ → Option (Node × Bool)
on_success n peer match =
    if ltb (n.match_index peer) match
    then (do
      n' ← try_advance_commit_index_locked (record n {
        match_index = update n.match_index peer match;
        next_index = update n.next_index peer (match + 1);
      })
      some (n', ltb (n'.next_index peer) (length n'.log)))
    else some (n, ltb (n.next_index peer) (length n.log))

on_failure : Node → ℕ → Node × Bool
on_failure n peer =
    if ltb 1 (n.next_index peer)
    then (record n { next_index = update n.next_index peer (n.next_index peer - 1) }, true)
    else (n, false)

-- The reply to `args`. The Bool says whether the worker goes on at once; `none` is a panic.
unfoldable pub handle_append_reply :
    Node → ℕ → AppendEntriesArgs → AppendEntriesReply → Option (Node × Bool)
unfolding on_success on_failure
handle_append_reply n peer args reply =
    if ltb_ℤ n.current_term reply.term
    then some (become_follower_locked n reply.term, false)
    else if not (is_leader_state n.state && eq_ℤ n.current_term args.term)
    then some (n, false)
    else if reply.success
    then on_success n peer (pos_part args.prev_log_index + length args.entries)
    else some (on_failure n peer)

-- `case <-trigger` in the worker of follower `peer`: `none` where the channel is empty. The rounds
-- that follow are those of prepare_append and handle_append_reply.
unfoldable pub replication_worker_wakes : Node → ℕ → Option Node
replication_worker_wakes n peer = elim (n.replication_trigger peer) [
  | zero ↦ none
  | suc k ↦ some (record n { replication_trigger = update n.replication_trigger peer k })
]

-- One call of replicateToFollower with nothing between the message and its answer; `none` as the
-- answer is a failed call.
unfoldable pub replicate_to_follower : Node → ℕ → Option AppendEntriesReply → Option (Node × Bool)
replicate_to_follower n peer answer = elim (prepare_append n peer) [
  | none ↦ some (n, false)
  | some args ↦ elim answer [
    | none ↦ some (n, false)
    | some reply ↦ handle_append_reply n peer args reply
  ]
]

-- The inner loop of the worker, through the answers that it gets. The Bool says that the loop still
-- goes on after them.
unfoldable pub replication_worker_rounds :
    Node → ℕ → List (Option AppendEntriesReply) → Option (Node × Bool)
replication_worker_rounds n peer [] = some (n, true)
replication_worker_rounds n peer (answer ∷ answers) = elim (replicate_to_follower n peer answer) [
  | none ↦ none
  | some (m, again) ↦ elim again [
    | false ↦ some (m, false)
    | true ↦ replication_worker_rounds m peer answers
  ]
]
