-- ===== src/Raft/Election.antt =====
-- raft/node.go: runFollower, runCandidate and Submit, one event at a time.
pub mod Quorum
use kvraft.Base.{
  ℕ, ◌+◌, ◌-◌, ◌/◌, Bool, true, false, ◌&&◌, Option, none, some, [], ◌∷◌, ◌++◌, length, ltb, leb,
  if◌then◌else◌, ◌>>=◌,
}
use kvraft.Base.Int.{ℤ, pos, negsuc, suc_ℤ, ltb_ℤ, eq_ℤ}
use kvraft.Raft.Types.{Command, RequestVoteArgs, RequestVoteReply, NodeState, candidate}
use kvraft.Raft.Node.{
  Node, update, is_leader_state, is_candidate_state, become_follower_locked, become_leader_locked,
  signal_all_replications, last_log_term,
}

-- The locals of `runCandidate` while it waits for replies.
pub record Election : Type 0 where
  pub term : ℤ
  pub votes : ℕ

-- What wakes a follower. A message is taken from its channel, which holds one.
pub data FollowerEvent : Type 0 where
  heartbeat vote election_timer : FollowerEvent

unfoldable pub run_follower : Node → FollowerEvent → Node
run_follower n heartbeat = record n { heartbeat_ch = n.heartbeat_ch - 1 }
run_follower n vote = record n { vote_ch = n.vote_ch - 1 }
run_follower n election_timer = record n { state = candidate }

-- `runCandidate` up to the requests; `none` is the panic on an empty log.
unfoldable pub start_election : Node → Option (Node × RequestVoteArgs × Election)
start_election n = do
  last_term ← last_log_term n.log
  some (
    record n { current_term = suc_ℤ n.current_term; voted_for = pos n.id; leader_id = negsuc 0 },
    record {
      term = suc_ℤ n.current_term;
      candidate_id = pos n.id;
      last_log_index = pos (length n.log - 1);
      last_log_term = last_term;
    },
    record { term = suc_ℤ n.current_term; votes = 1 },
  )

unfoldable pub votes_needed : Node → ℕ
votes_needed n = (length n.peers + 1) / 2 + 1

abbrev pub count_vote : Election → RequestVoteReply → Election
count_vote el reply = record el { votes = if reply.vote_granted then el.votes + 1 else el.votes }

-- One reply; `none` beside the node says that `runCandidate` returns.
unfoldable pub on_vote_reply : Node → Election → RequestVoteReply → Node × Option Election
unfolding votes_needed
on_vote_reply n el reply =
    if ltb_ℤ el.term reply.term
    then (become_follower_locked n reply.term, none)
    else if leb (votes_needed n) (count_vote el reply).votes
        && (is_candidate_state n.state && eq_ℤ n.current_term el.term)
    then (signal_all_replications (become_leader_locked n), none)
    else (n, some (count_vote el reply))

-- The index, the term and whether the node is the leader.
unfoldable pub submit : Node → Command → Node × (ℤ × ℤ × Bool)
submit n cmd =
    if is_leader_state n.state
    then (
      signal_all_replications (record n {
        log =
            n.log
            ++ record { term = n.current_term; index = pos (length n.log); command = cmd } ∷ [];
        match_index = update n.match_index n.id (length n.log);
      }),
      (pos (length n.log), n.current_term, true),
    )
    else (n, (negsuc 0, negsuc 0, false))

-- A tick of the heartbeat in runLeader. The Bool says whether the loop goes on.
unfoldable pub run_leader_tick : Node → Node × Bool
run_leader_tick n =
    if is_leader_state n.state then (signal_all_replications n, true) else (n, false)
