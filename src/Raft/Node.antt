-- ===== src/Raft/Node.antt =====
-- raft/node.go: the state of a node, and the steps that several handlers share.
-- A channel is the number of messages it holds; timers and sockets are the environment's.
use kvraft.Base.{
  ℕ, suc, ◌+◌, ◌-◌, ◌≤◌, ◌<◌, ◌≡◌, Bool, true, false, not, ◌&&◌, Option, some, List, [], ◌∷◌, Bytes,
  length, get_elem?, ltb, ◌==◌, if◌then◌else◌, ◌>>=◌,
}
use kvraft.Base.Int.{ℤ, pos, negsuc, ltb_ℤ}
use kvraft.Raft.Types.{Command, LogEntry, NodeState, follower, candidate, leader}

pub record Node : Type 0 where
  pub id : ℕ
  pub peers : List Bytes
  pub leader_id : ℤ
  pub current_term : ℤ
  pub voted_for : ℤ
  pub log : List LogEntry
  pub commit_index : ℕ
  pub last_applied : ℕ
  pub state : NodeState
  -- a key that a Go map lacks reads as 0
  pub next_index : ℕ → ℕ
  pub match_index : ℕ → ℕ
  pub commit_notify_ch : ℕ
  pub heartbeat_ch : ℕ
  pub vote_ch : ℕ
  pub replication_trigger : ℕ → ℕ

-- `select { case ch <- x: default: }` on a channel of capacity `cap`
abbrev pub offer : ℕ → ℕ → ℕ
offer cap n = if ltb n cap then n + 1 else n

-- `m[i] = v`
abbrev pub update {ℓ} : {A : Type ℓ} → (ℕ → A) → ℕ → A → ℕ → A
update m i v j = if i == j then v else m j

abbrev empty_command : Command
empty_command = record { type = []; key = []; value = [] }

abbrev pub dummy_entry : LogEntry
dummy_entry = record { term = pos 0; index = pos 0; command = empty_command }

unfoldable pub new_node : ℕ → List Bytes → Node
new_node id peers = record {
  id = id;
  peers = peers;
  leader_id = negsuc 0;
  current_term = pos 0;
  voted_for = negsuc 0;
  log = dummy_entry ∷ [];
  commit_index = 0;
  last_applied = 0;
  state = follower;
  next_index = λ _. 0;
  match_index = λ _. 0;
  commit_notify_ch = 0;
  heartbeat_ch = 0;
  vote_ch = 0;
  replication_trigger = λ _. 0;
}

abbrev pub is_leader_state : NodeState → Bool
is_leader_state leader = true
is_leader_state follower = false
is_leader_state candidate = false

abbrev pub is_candidate_state : NodeState → Bool
is_candidate_state candidate = true
is_candidate_state follower = false
is_candidate_state leader = false

unfoldable pub become_follower_locked : Node → ℤ → Node
become_follower_locked n term = record n {
  current_term = if ltb_ℤ n.current_term term then term else n.current_term;
  voted_for = negsuc 0;
  state = follower;
  leader_id = negsuc 0;
}

-- The loop over `range n.peers` writes the keys below `len(n.peers)`.
unfoldable pub become_leader_locked : Node → Node
become_leader_locked n = record n {
  state = leader;
  leader_id = pos n.id;
  next_index = λ i. if ltb i (length n.peers) then length n.log - 1 + 1 else 0;
  match_index = update (λ _. 0) n.id (length n.log - 1);
}

unfoldable pub notify_commit_advance : Node → Node
notify_commit_advance n = record n { commit_notify_ch = offer 1 n.commit_notify_ch }

-- One token into the channel of each replication worker, that is of each peer but the node.
unfoldable pub signal_all_replications : Node → Node
signal_all_replications n =
    if is_leader_state n.state
    then record n {
      replication_trigger = λ i.
          if ltb i (length n.peers) && not (i == n.id)
          then offer 1 (n.replication_trigger i)
          else n.replication_trigger i;
    }
    else n

-- `n.log[len(n.log)-1].Term`; `none` is the panic on an empty log.
unfoldable pub last_log_term : List LogEntry → Option ℤ
last_log_term log = do e ← get_elem? log (length log - 1); some e.term

-- The entries stand at the places that they carry, from place `i` on.
abbrev pub Indexed : ℕ → List LogEntry → Type 0
Indexed i [] = Unit
Indexed i (e ∷ es) = (e.index ≡ pos i) × Indexed (suc i) es

-- The log is never empty, what is committed is in it, what is applied is committed, and an entry
-- carries its own position.
pub record IsValid (n : Node) : Type 0 where
  pub committed : n.commit_index < length n.log
  pub applied : n.last_applied ≤ n.commit_index
  pub indexed : Indexed 0 n.log
