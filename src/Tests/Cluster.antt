-- ===== src/Tests/Cluster.antt =====
-- raft/: a cluster of three nodes elects node 0, commits a command and applies it.
use kvraft.Base.{ℕ, ◌≡◌, refl, ◌⊎◌, inl, inr, true, false, List, [], ◌∷◌, Bytes, codes, arith}
use kvraft.Base.Int.{ℤ, pos}
use kvraft.Raft.Types.{
  ApplyMsg, Command, LogEntry, RequestVoteArgs, RequestVoteReply, AppendEntriesArgs,
  AppendEntriesReply, leader,
}
use kvraft.Raft.Node.{
  notify_commit_advance, new_node, become_follower_locked, last_log_term, become_leader_locked,
  signal_all_replications,
}
use kvraft.Raft.Vote.{handle_request_vote}
use kvraft.Raft.Election.{
  Election, run_follower, election_timer, start_election, on_vote_reply, votes_needed, submit,
}
use kvraft.Raft.Replication.{prepare_append, handle_append_reply}
use kvraft.Raft.Append.{handle_append_entries, append_loop, append_entry}
use kvraft.Raft.Commit.{try_advance_commit_index_locked, apply_next, majority_matches}
use kvraft.Raft.Cluster.Elections.{election_safety}
use kvraft.Raft.Cluster.Safety.{logs_never_conflict, nothing_is_lost, state_machine_safety}
use kvraft.Raft.Cluster.Nodes.{cluster_runs}
use kvraft.Raft.Run.{Run}
use kvraft.Raft.Run.Applied.{Progress, InOrder}
use kvraft.Raft.Prefix.{Prefix}
use kvraft.Raft.Cluster.{
  Among, Cluster, Reach, Steps, start, later, switch, wake, campaign, vote, count, new_cluster,
  dispatch, peers_but, remove, count_reply, node_at, after_reply, after_win, alone, accept, send,
  append, replicate,
}

abbrev three : List Bytes
three = codes "a" ∷ codes "b" ∷ codes "c" ∷ []

abbrev ask : RequestVoteArgs
ask = record { term = pos 1; candidate_id = pos 0; last_log_index = pos 0; last_log_term = pos 0 }

abbrev yes_vote : RequestVoteReply
yes_vote = record { term = pos 0; vote_granted = true }

abbrev first : Election
first = record { term = pos 1; votes = 1 }

abbrev second : Election
second = record { term = pos 1; votes = 2 }

-- Node 0 asks for votes, and nodes 1 and 2 give theirs.
unfoldable voted : (c : Cluster) × Reach three c
unfolding new_cluster new_node dispatch run_follower start_election last_log_term peers_but
    handle_request_vote become_follower_locked
voted = (
  _,
  later
      (later
        (later
          (later
            (later (later start (switch 0 (omega arith) refl))
              (wake 0 election_timer (omega arith) refl))
            (switch 0 (omega arith) refl))
          (campaign 0 ask first (omega arith) refl refl))
        (vote 0 1 ask (omega arith) (omega arith) (inl refl) refl))
      (vote 0 2 ask (omega arith) (omega arith) (inl refl) refl),
)

unfoldable elected : (c : Cluster) × Reach three c
unfolding voted new_cluster new_node dispatch run_follower start_election last_log_term peers_but
    handle_request_vote become_follower_locked count_reply on_vote_reply remove after_reply
    after_win votes_needed become_leader_locked signal_all_replications
elected = (
  _,
  later
      (later voted.1
        (count 0 2 first (2 ∷ 1 ∷ []) yes_vote (omega arith) refl (inl refl) (inl refl)))
      (count 0 1 second (1 ∷ []) yes_vote (omega arith) refl (inl refl) (inr (inl refl))),
)

node_0_leads :
    ((node_at elected.0 0).state ≡ leader)
    × (elected.0.elected ≡ record { term = pos 1; leader = 0 } ∷ [])
unfolding elected voted new_cluster new_node dispatch run_follower start_election last_log_term
    peers_but handle_request_vote become_follower_locked count_reply on_vote_reply remove
    after_reply after_win votes_needed become_leader_locked signal_all_replications
node_0_leads = (refl, refl)

abbrev put_k : Command
put_k = record { type = codes "put"; key = codes "k"; value = codes "v" }

abbrev put_entry : LogEntry
put_entry = record { term = pos 1; index = pos 1; command = put_k }

abbrev request : AppendEntriesArgs
request = record {
  term = pos 1;
  leader_id = pos 0;
  prev_log_index = pos 0;
  prev_log_term = pos 0;
  entries = put_entry ∷ [];
  leader_commit = pos 0;
}

abbrev agreed : AppendEntriesReply
agreed = record { term = pos 1; success = true }

-- The command is at the leader, and at node 1, which has said so.
unfoldable spread : (c : Cluster) × Reach three c
unfolding elected voted new_cluster new_node dispatch run_follower start_election last_log_term
    peers_but handle_request_vote become_follower_locked count_reply on_vote_reply remove
    after_reply after_win votes_needed become_leader_locked signal_all_replications submit
    prepare_append handle_append_entries append_loop append_entry
spread = (
  _,
  later
      (later (later elected.1 (alone 0 (omega arith) (accept put_k)))
        (send 0 1 request (omega arith) (omega arith) (omega arith) refl))
      (append 0 1 request (omega arith) (inl refl) refl),
)

-- Node 0 commits the command, node 1 hears of it, and each can apply it.
abbrev heartbeat : AppendEntriesArgs
heartbeat = record {
  term = pos 1;
  leader_id = pos 0;
  prev_log_index = pos 1;
  prev_log_term = pos 1;
  entries = [];
  leader_commit = pos 1;
}

unfoldable committed : (c : Cluster) × Reach three c
unfolding spread elected voted new_cluster new_node dispatch run_follower start_election
    last_log_term peers_but handle_request_vote become_follower_locked count_reply on_vote_reply
    remove after_reply after_win votes_needed become_leader_locked signal_all_replications submit
    prepare_append handle_append_entries append_loop append_entry handle_append_reply
    try_advance_commit_index_locked majority_matches notify_commit_advance apply_next
committed = (_, later spread.1 (replicate 0 1 request agreed false (omega arith) (inl refl) refl))

unfoldable followed : (c : Cluster) × Steps three committed.0 c
unfolding committed spread elected voted new_cluster new_node dispatch run_follower start_election
    last_log_term peers_but handle_request_vote become_follower_locked count_reply on_vote_reply
    remove after_reply after_win votes_needed become_leader_locked signal_all_replications submit
    prepare_append handle_append_entries append_loop append_entry handle_append_reply
    try_advance_commit_index_locked majority_matches notify_commit_advance apply_next
followed = (
  _,
  later (later start (send 0 1 heartbeat (omega arith) (omega arith) (omega arith) refl))
      (append 0 1 heartbeat (omega arith) (inl refl) refl),
)

abbrev applied : ApplyMsg
applied = record { index = pos 1; term = pos 1; command = put_k }

state_machine_safety_example : applied ≡ applied
unfolding followed committed spread elected voted new_cluster new_node dispatch run_follower
    start_election last_log_term peers_but handle_request_vote become_follower_locked count_reply
    on_vote_reply remove after_reply after_win votes_needed become_leader_locked
    signal_all_replications submit prepare_append handle_append_entries append_loop append_entry
    handle_append_reply try_advance_commit_index_locked majority_matches notify_commit_advance
    apply_next
state_machine_safety_example =
    state_machine_safety {c = committed.0} {d = followed.0} {a = applied} {b = applied}
      (omega arith) committed.1 followed.1 0 1 refl refl refl

logs_never_conflict_example :
    (Prefix (node_at spread.0 1).log (node_at spread.0 0).log
      ⊎ Prefix (node_at spread.0 0).log (node_at spread.0 1).log)
    × ((node_at spread.0 0).state ≡ leader
        → Prefix (node_at spread.0 1).log (node_at spread.0 0).log)
logs_never_conflict_example = logs_never_conflict (omega arith) spread.1 1 0

nothing_is_lost_example : Prefix (node_at committed.0 1).log (node_at followed.0 0).log
unfolding followed committed spread elected voted new_cluster new_node dispatch run_follower
    start_election last_log_term peers_but handle_request_vote become_follower_locked count_reply
    on_vote_reply remove after_reply after_win votes_needed become_leader_locked
    signal_all_replications submit prepare_append handle_append_entries append_loop append_entry
    handle_append_reply try_advance_commit_index_locked majority_matches notify_commit_advance
    apply_next
nothing_is_lost_example = nothing_is_lost (omega arith) committed.1 followed.1 1 0 refl

election_safety_example :
    ((t : ℤ) (i j : ℕ)
      → Among (record { term = t; leader = i }) elected.0.elected
      → Among (record { term = t; leader = j }) elected.0.elected
      → i ≡ j)
    × ((i j : ℕ)
        → (node_at elected.0 i).state ≡ leader
        → (node_at elected.0 j).state ≡ leader
        → i ≡ j)
election_safety_example = election_safety (omega arith) elected.1

cluster_runs_example :
    (msgs : List ApplyMsg) × Run (node_at committed.0 1) msgs (node_at followed.0 1)
    × Progress (node_at committed.0 1) (node_at followed.0 1)
    × InOrder (node_at committed.0 1).last_applied msgs (node_at followed.0 1).last_applied
cluster_runs_example = cluster_runs (omega arith) committed.1 followed.1 1
