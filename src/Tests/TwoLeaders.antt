-- ===== src/Tests/TwoLeaders.antt =====
-- raft/: four nodes elect two leaders of one term, since a heartbeat makes its receivers forget
-- their votes. So the theorems on clusters of three nodes do not go further.
use kvraft.Base.{ℕ, ◌≡◌, refl, inl, inr, true, List, [], ◌∷◌, Bytes, codes, arith}
use kvraft.Base.Int.{ℤ, pos}
use kvraft.Raft.Types.{RequestVoteArgs, RequestVoteReply, AppendEntriesArgs, leader}
use kvraft.Raft.Node.{
  new_node, become_follower_locked, last_log_term, become_leader_locked, signal_all_replications,
}
use kvraft.Raft.Vote.{handle_request_vote}
use kvraft.Raft.Append.{handle_append_entries, append_loop}
use kvraft.Raft.Election.{
  Election, run_follower, election_timer, start_election, on_vote_reply, votes_needed,
}
use kvraft.Raft.Replication.{prepare_append}
use kvraft.Raft.Cluster.{
  Cluster, Reach, start, later, switch, wake, campaign, vote, count, send, append, new_cluster,
  dispatch, peers_but, remove, count_reply, after_reply, after_win, node_at,
}

abbrev four : List Bytes
four = codes "a" ∷ codes "b" ∷ codes "c" ∷ codes "d" ∷ []

-- The request of candidate `i` in term 1, with an empty log.
abbrev ask : ℕ → RequestVoteArgs
ask i = record { term = pos 1; candidate_id = pos i; last_log_index = pos 0; last_log_term = pos 0 }

abbrev granted : ℤ → RequestVoteReply
granted term = record { term = term; vote_granted = true }

abbrev election : ℕ → Election
election votes = record { term = pos 1; votes = votes }

abbrev heartbeat : AppendEntriesArgs
heartbeat = record {
  term = pos 1;
  leader_id = pos 0;
  prev_log_index = pos 0;
  prev_log_term = pos 0;
  entries = [];
  leader_commit = pos 0;
}

-- Nodes 1 and 2 vote for node 0, three of four votes.
unfoldable first_leader : (c : Cluster) × Reach four c
unfolding new_cluster new_node dispatch run_follower start_election last_log_term peers_but
    handle_request_vote become_follower_locked count_reply on_vote_reply remove after_reply
    after_win votes_needed become_leader_locked signal_all_replications prepare_append
    handle_append_entries append_loop
first_leader = (
  _,
  later
      (later
        (later
          (later
            (later
              (later
                (later (later start (switch 0 (omega arith) refl))
                  (wake 0 election_timer (omega arith) refl))
                (switch 0 (omega arith) refl))
              (campaign 0 (ask 0) (election 1) (omega arith) refl refl))
            (vote 0 1 (ask 0) (omega arith) (omega arith) (inl refl) refl))
          (vote 0 2 (ask 0) (omega arith) (omega arith) (inl refl) refl))
        (count 0 1 (election 1) (3 ∷ 2 ∷ 1 ∷ []) (granted (pos 0)) (omega arith) refl
          (inr (inr (inl refl))) (inr (inl refl))))
      (count 0 2 (election 2) (3 ∷ 2 ∷ []) (granted (pos 0)) (omega arith) refl (inr (inl refl))
        (inl refl)),
)

-- Its heartbeats make them forget that.
unfoldable forgotten : (c : Cluster) × Reach four c
unfolding first_leader new_cluster new_node dispatch run_follower start_election last_log_term
    peers_but handle_request_vote become_follower_locked count_reply on_vote_reply remove
    after_reply after_win votes_needed become_leader_locked signal_all_replications prepare_append
    handle_append_entries append_loop
forgotten = (
  _,
  later
      (later
        (later
          (later first_leader.1 (send 0 1 heartbeat (omega arith) (omega arith) (omega arith) refl))
          (append 0 1 heartbeat (omega arith) (inl refl) refl))
        (send 0 2 heartbeat (omega arith) (omega arith) (omega arith) refl))
      (append 0 2 heartbeat (omega arith) (inl refl) refl),
)

-- They vote for node 3 in the same term.
unfoldable second_leader : (c : Cluster) × Reach four c
unfolding forgotten first_leader new_cluster new_node dispatch run_follower start_election
    last_log_term peers_but handle_request_vote become_follower_locked count_reply on_vote_reply
    remove after_reply after_win votes_needed become_leader_locked signal_all_replications
    prepare_append handle_append_entries append_loop
second_leader = (
  _,
  later
      (later
        (later
          (later
            (later
              (later
                (later (later forgotten.1 (switch 3 (omega arith) refl))
                  (wake 3 election_timer (omega arith) refl))
                (switch 3 (omega arith) refl))
              (campaign 3 (ask 3) (election 1) (omega arith) refl refl))
            (vote 3 1 (ask 3) (omega arith) (omega arith) (inl refl) refl))
          (vote 3 2 (ask 3) (omega arith) (omega arith) (inl refl) refl))
        (count 3 1 (election 1) (2 ∷ 1 ∷ 0 ∷ []) (granted (pos 1)) (omega arith) refl
          (inr (inl refl)) (inr (inl refl))))
      (count 3 2 (election 2) (2 ∷ 0 ∷ []) (granted (pos 1)) (omega arith) refl (inl refl)
        (inl refl)),
)

two_leaders :
    ((node_at second_leader.0 0).state ≡ leader)
    × ((node_at second_leader.0 3).state ≡ leader)
    × ((node_at second_leader.0 0).current_term ≡ pos 1)
    × ((node_at second_leader.0 3).current_term ≡ pos 1)
unfolding second_leader forgotten first_leader new_cluster new_node dispatch run_follower
    start_election last_log_term peers_but handle_request_vote become_follower_locked count_reply
    on_vote_reply remove after_reply after_win votes_needed become_leader_locked
    signal_all_replications prepare_append handle_append_entries append_loop
two_leaders = (refl, refl, refl, refl)
