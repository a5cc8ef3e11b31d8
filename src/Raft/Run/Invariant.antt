-- ===== src/Raft/Run/Invariant.antt =====
-- Every event keeps a node well-formed, and its term and indices never fall.
use kvraft.Raft.Commit.{applier_wakes}
use kvraft.Base.{
  ℕ, ◌+◌, ◌-◌, ◌≤◌, ◌≡◌, refl, Bool, some, [], ◌∷◌, arith, length, length-append, drop,
}
use kvraft.Base.Int.{pos, ◌≤ℤ◌, pos_part, lt-suc_ℤ}
use kvraft.Raft.Types.{
  Command, LogEntry, AppendEntriesArgs, AppendEntriesReply, RequestVoteReply, RequestVoteArgs,
}
use kvraft.Raft.Node.{
  Node, IsValid, Indexed, update, become_follower_locked, become_leader_locked,
  signal_all_replications,
}
use kvraft.Raft.Indexed.{Indexed-append}
use kvraft.Raft.Vote.Safety.{handle_request_vote-VoteEffect}
use kvraft.Raft.Vote.{handle_request_vote}
use kvraft.Raft.Append.{handle_append_entries}
use kvraft.Raft.Append.Merge.{Agrees}
use kvraft.Raft.Append.Safety.{handle_append_entries-IsValid, handle_append_entries-AppendEffect}
use kvraft.Raft.Commit.Largest.{try_advance_commit_index_locked-Largest, Largest-Advanced}
use kvraft.Raft.Election.{
  run_leader_tick, Election, FollowerEvent, heartbeat, run_follower, start_election, on_vote_reply,
  submit,
}
use kvraft.Raft.Replication.{replication_worker_wakes, handle_append_reply}

-- What every event but the applier's leaves true.
pub record Later (n m : Node) : Type 0 where
  pub valid : IsValid m
  pub commit : n.commit_index ≤ m.commit_index
  pub applied : m.last_applied ≡ n.last_applied
  pub term : n.current_term ≤ℤ m.current_term

pub vote-Later :
    (n : Node) (args : RequestVoteArgs) {m : Node} {reply : RequestVoteReply}
    → IsValid n
    → handle_request_vote n args ≡ some (m, reply)
    → Later n m
vote-Later n args {m} v h =
    let effect = handle_request_vote-VoteEffect n args h in
    record {
      valid = record {
        committed = rw (effect.commit_kept, effect.log_kept) v.committed;
        applied = rw (effect.commit_kept, effect.applied_kept) v.applied;
        indexed = rw effect.log_kept v.indexed;
      };
      commit = omega (arith, effect.commit_kept);
      applied = effect.applied_kept;
      term = effect.term_grows;
    }

pub append-Later :
    (n : Node) (args : AppendEntriesArgs) (p : ℕ) {m : Node} {reply : AppendEntriesReply}
    → IsValid n
    → args.prev_log_index ≡ pos p
    → Indexed (p + 1) args.entries
    → Agrees (n.commit_index - p) (drop (p + 1) n.log) args.entries
    → handle_append_entries n args ≡ some (m, reply)
    → Later n m
append-Later n args p v prev at_places agrees h =
    let effect = handle_append_entries-AppendEffect n args p prev h in
    let (valid, commit) = handle_append_entries-IsValid n args p v prev at_places agrees h in
    record {
      valid = valid;
      commit = commit;
      applied = effect.applied_kept;
      term = effect.term_grows;
    }

pub run_follower-Later :
    (n : Node) (event : FollowerEvent) → IsValid n → Later n (run_follower n event)
unfolding run_follower
run_follower-Later n heartbeat v = ground arith
run_follower-Later n _ v = ground arith

pub start_election-Later :
    (n : Node) {m : Node} {args : RequestVoteArgs} {el : Election}
    → IsValid n
    → start_election n ≡ some (m, args, el)
    → Later n m
unfolding start_election
start_election-Later n v h = ground (arith, lt-suc_ℤ n.current_term)

pub on_vote_reply-Later :
    (n : Node) (el : Election) (reply : RequestVoteReply)
    → IsValid n
    → Later n (on_vote_reply n el reply).0
unfolding on_vote_reply become_follower_locked become_leader_locked signal_all_replications
on_vote_reply-Later n el reply v = ground arith

pub submit-Later : (n : Node) (cmd : Command) → IsValid n → Later n (submit n cmd).0
unfolding submit signal_all_replications
submit-Later n cmd v = ground (
  arith,
  length-append n.log (entry ∷ []),
  Indexed-append 0 (length n.log) n.log (entry ∷ []) (omega arith) v.indexed (refl, tt),
)
  where
    entry : LogEntry
    entry = record { term = n.current_term; index = pos (length n.log); command = cmd }

pub run_leader_tick-Later : (n : Node) → IsValid n → Later n (run_leader_tick n).0
unfolding run_leader_tick signal_all_replications
run_leader_tick-Later n v = ground arith

pub replication_worker_wakes-Later :
    (n : Node) (peer : ℕ) {m : Node}
    → IsValid n
    → replication_worker_wakes n peer ≡ some m
    → Later n m
unfolding replication_worker_wakes
replication_worker_wakes-Later n peer v h = ground (arith, h)

pub applier_wakes-Later : (n : Node) {m : Node} → IsValid n → applier_wakes n ≡ some m → Later n m
unfolding applier_wakes
applier_wakes-Later n v h = ground (arith, h)

pub handle_append_reply-Later :
    (n : Node) (peer : ℕ) (args : AppendEntriesArgs) (reply : AppendEntriesReply) {m : Node}
    {again : Bool}
    → IsValid n
    → handle_append_reply n peer args reply ≡ some (m, again)
    → Later n m
unfolding handle_append_reply become_follower_locked
handle_append_reply-Later n peer args reply v h =
    let (n', runs, largest) = try_advance_commit_index_locked-Largest known known-IsValid in
    let advanced = Largest-Advanced known known-IsValid largest in
    ground (arith, runs, advanced.valid, advanced.forward, advanced.applied, advanced.term)
  where
    match : ℕ
    match = pos_part args.prev_log_index + length args.entries

    known : Node
    known = record n {
      match_index = update n.match_index peer match;
      next_index = update n.next_index peer (match + 1);
    }

    known-IsValid : IsValid known
    known-IsValid = record { committed = v.committed; applied = v.applied; indexed = v.indexed }
