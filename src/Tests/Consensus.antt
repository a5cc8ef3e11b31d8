-- ===== src/Tests/Consensus.antt =====
-- raft/: the theorems at small logs, in clusters of three and of five nodes.
use kvraft.Base.{
  if◌then◌else◌, ◌*◌, ◌==◌, ℕ, ◌≤◌, ◌<◌, ◌≡◌, ◌≢◌, ◌↔◌, refl, true, false, none, some, List, [],
  ◌∷◌, Bytes, codes, arith, get_elem?, take,
}
use kvraft.Base.Int.{pos, negsuc, ◌≤ℤ◌, ◌<ℤ◌}
use kvraft.Raft.Types.{
  Command, LogEntry, RequestVoteArgs, RequestVoteReply, AppendEntriesArgs, AppendEntriesReply,
  follower, candidate, leader,
}
use kvraft.Raft.Node.{
  signal_all_replications, become_leader_locked, Node, IsValid, become_follower_locked,
  last_log_term, notify_commit_advance,
}
use kvraft.Raft.Vote.{handle_request_vote}
use kvraft.Raft.Vote.Safety.{VoteRun, last_answer, then_answer, one_vote_per_term}
use kvraft.Raft.Vote.Forgotten.{vote_forgotten}
use kvraft.Raft.Append.{append_entry, handle_append_entries, append_loop}
use kvraft.Raft.Append.Merge.{terms}
use kvraft.Raft.Append.Safety.{handle_append_entries-committed}
use kvraft.Raft.Append.Panics.{handle_append_entries-panic}
use kvraft.Raft.Commit.{try_advance_commit_index_locked, apply_next}
use kvraft.Raft.Commit.Largest.{Largest, try_advance_commit_index_locked-Largest}
use kvraft.Raft.Election.{Election, votes_needed, on_vote_reply}
use kvraft.Raft.Election.Quorum.{leader_has_votes, stale_election_clears_vote}
use kvraft.Raft.Replication.{replication_worker_rounds, prepare_append}
use kvraft.Raft.Replication.Round.{IsFull, prepare_append-IsFull, round_replicates}
use kvraft.Raft.Replication.Worker.{worker_spins}
use kvraft.Raft.Run.{done, Run, next, apply}
use kvraft.Raft.Run.Applied.{Progress, InOrder, Run-InOrder}

abbrev put_k : Command
put_k = record { type = codes "put"; key = codes "k"; value = codes "v" }

abbrev entry : ℕ → ℕ → LogEntry
entry t i = record { term = pos t; index = pos i; command = put_k }

abbrev three : List Bytes
three = codes "a" ∷ codes "b" ∷ codes "c" ∷ []

-- A follower of term 1 with two entries behind the dummy, the first of them committed.
abbrev pub node : Node
node = record {
  id = 1;
  peers = three;
  leader_id = negsuc 0;
  current_term = pos 1;
  voted_for = negsuc 0;
  log = entry 0 0 ∷ entry 1 1 ∷ entry 1 2 ∷ [];
  commit_index = 1;
  last_applied = 0;
  state = follower;
  next_index = λ _. 0;
  match_index = λ _. 0;
  commit_notify_ch = 0;
  heartbeat_ch = 0;
  vote_ch = 0;
  replication_trigger = λ _. 0;
}

node-IsValid : IsValid node
node-IsValid = record {
  committed = omega arith;
  applied = omega arith;
  indexed = (refl, (refl, (refl, tt)));
}

-- The leader of term 1, whose follower 0 has the log up to place 1.
abbrev pub head : Node
head = record node {
  state = leader;
  leader_id = pos 1;
  next_index = λ i. if i == 0 then 2 else 3;
  match_index = λ i. if i == 0 then 1 else if i == 1 then 2 else 0;
}

head-IsValid : IsValid head
head-IsValid = record {
  committed = omega arith;
  applied = omega arith;
  indexed = (refl, (refl, (refl, tt)));
}

abbrev pub request : ℕ → ℕ → RequestVoteArgs
request t c = record {
  term = pos t;
  candidate_id = pos c;
  last_log_index = pos 2;
  last_log_term = pos 1;
}

-- Candidate 0 asks in term 2, candidate 2 after it in vain, and candidate 0 again.
abbrev voted : Node
voted = record node { current_term = pos 2; voted_for = pos 0; vote_ch = 1 }

voted_run : VoteRun voted voted
unfolding handle_request_vote last_log_term become_follower_locked
voted_run =
    then_answer (request 2 2) (record { term = pos 2; vote_granted = false }) refl last_answer

one_vote_per_term_example : pos 0 ≡ pos 0
unfolding handle_request_vote last_log_term become_follower_locked
one_vote_per_term_example =
    one_vote_per_term node voted (request 2 0) (request 2 0) 0 refl refl refl voted_run refl refl
      refl

-- The entry at place 2 again, with the leader's commit index behind it.
abbrev pub beat : AppendEntriesArgs
beat = record {
  term = pos 1;
  leader_id = pos 0;
  prev_log_index = pos 1;
  prev_log_term = pos 1;
  entries = entry 1 2 ∷ [];
  leader_commit = pos 2;
}

abbrev after_beat : Node
after_beat = record node {
  leader_id = pos 0;
  voted_for = negsuc 0;
  commit_index = 2;
  commit_notify_ch = 1;
  heartbeat_ch = 1;
}

abbrev yes_reply : AppendEntriesReply
yes_reply = record { term = pos 1; success = true }

beat_runs : handle_append_entries node beat ≡ some (after_beat, yes_reply)
unfolding handle_append_entries append_loop append_entry become_follower_locked
    notify_commit_advance
beat_runs = refl

handle_append_entries-committed_example : get_elem? after_beat.log 1 ≡ get_elem? node.log 1
handle_append_entries-committed_example =
    handle_append_entries-committed node beat 1 1 node-IsValid refl tt beat_runs (omega arith)

-- A message with a negative previous index below -1.
abbrev negative_beat : AppendEntriesArgs
negative_beat = record beat { prev_log_index = negsuc 1 }

handle_append_entries-panic_example :
    (handle_append_entries node negative_beat ≡ none)
    ↔ ((pos 1 ≤ℤ pos 1) × (negsuc 1 <ℤ negsuc 0) × (negative_beat.entries ≢ []))
handle_append_entries-panic_example = handle_append_entries-panic node negative_beat

try_advance_commit_index_locked-Largest_example :
    (n' : Node) × (try_advance_commit_index_locked head ≡ some n') × Largest head 2 n'
try_advance_commit_index_locked-Largest_example =
    try_advance_commit_index_locked-Largest head head-IsValid

abbrev full_beat : AppendEntriesArgs
full_beat = record {
  term = pos 1;
  leader_id = pos 1;
  prev_log_index = pos 1;
  prev_log_term = pos 1;
  entries = entry 1 2 ∷ [];
  leader_commit = pos 1;
}

full_beat-IsFull : IsFull head full_beat 1
unfolding prepare_append
full_beat-IsFull = prepare_append-IsFull head 0 head-IsValid refl

-- The follower behind has the first entry only.
abbrev behind : Node
behind = record node { log = entry 0 0 ∷ entry 1 1 ∷ [] }

abbrev caught_up : Node
caught_up = record node { leader_id = pos 1; voted_for = negsuc 0; heartbeat_ch = 1 }

caught_up_runs : handle_append_entries behind full_beat ≡ some (caught_up, yes_reply)
unfolding handle_append_entries append_loop append_entry become_follower_locked
    notify_commit_advance
caught_up_runs = refl

round_replicates_example : terms (take 3 caught_up.log) ≡ terms head.log
round_replicates_example =
    round_replicates head behind full_beat 1 full_beat-IsFull refl caught_up_runs refl

-- The leader's next index of follower 0 was turned back below what it has replicated.
abbrev turned_back : Node
turned_back = record head { next_index = λ _. 1; match_index = λ _. 2 }

worker_spins_example :
    replication_worker_rounds turned_back 0 (some yes_reply ∷ some yes_reply ∷ [])
    ≡ some (turned_back, true)
worker_spins_example =
    worker_spins turned_back 0 0 (yes_reply ∷ yes_reply ∷ []) refl refl (omega arith) (omega arith)
      ((omega arith, refl), ((omega arith, refl), tt))

abbrev no_reply : AppendEntriesReply
no_reply = record { term = pos 1; success = false }

-- The candidate of term 1, one vote short of the three that it needs.
abbrev runner : Node
runner = record node { state = candidate; voted_for = pos 1 }

abbrev election : ℕ → Election
election votes = record { term = pos 1; votes = votes }

abbrev granted : RequestVoteReply
granted = record { term = pos 1; vote_granted = true }

leader_has_votes_example :
    (pos 1 ≡ pos 1)
    × (3 < 2 * votes_needed runner)
    × (votes_needed runner ≤ 3)
    × (granted.vote_granted ≡ false → votes_needed runner ≤ 2)
unfolding on_vote_reply votes_needed signal_all_replications become_leader_locked
leader_has_votes_example = leader_has_votes runner (election 2) granted refl refl

-- The election of term 0 meets a reply of term 1, in which the node has voted.
abbrev stale : Election
stale = record { term = pos 0; votes = 1 }

stale_election_clears_vote_example :
    let n' = (on_vote_reply runner stale granted).0 in
    (n'.current_term ≡ pos 1) × (n'.voted_for ≡ negsuc 0)
stale_election_clears_vote_example =
    stale_election_clears_vote runner stale granted (omega arith) refl

-- The node has voted for candidate 0 in term 1; after a heartbeat it votes for candidate 2.
abbrev voter : Node
voter = record node { voted_for = pos 0 }

vote_forgotten_example : (after_beat.voted_for ≡ negsuc 0) × (true ≡ true) × (pos 2 ≡ pos 2)
unfolding handle_append_entries append_loop append_entry become_follower_locked
    notify_commit_advance handle_request_vote last_log_term
vote_forgotten_example =
    vote_forgotten voter beat (request 1 2) (pos 1) {n' = after_beat}
      {m = record after_beat { voted_for = pos 2; vote_ch = 1 }} {r = yes_reply} {rb = granted} refl
      refl refl refl refl refl

applied_one :
    Run node
      (record { index = pos 1; term = pos 1; command = put_k } ∷ [])
      (record node { last_applied = 1 })
unfolding apply_next
applied_one =
    next (apply (some (record { index = pos 1; term = pos 1; command = put_k })) refl) done

Run-InOrder_example :
    Progress node (record node { last_applied = 1 })
    × InOrder 0 (record { index = pos 1; term = pos 1; command = put_k } ∷ []) 1
Run-InOrder_example =
    Run-InOrder (record { index = pos 1; term = pos 1; command = put_k } ∷ []) node-IsValid
      applied_one
