-- ===== src/Raft/Cluster.antt =====
-- raft/node.go: the nodes of one cluster, the main goroutine of each (run, runFollower, runCandidate,
-- runLeader), and the RPCs between them (raft/rpc.go, server/server.go: RequestVote, AppendEntries).
pub mod Invariant
pub mod Quiet
pub mod Keeps
pub mod Starts
pub mod Campaigns
pub mod Wins
pub mod Tallies
pub mod Counts
pub mod Preserved
pub mod Elections
pub mod Logs
pub mod Nodes
pub mod Safety
use kvraft.Base.{
  ℕ, zero, suc, ◌+◌, ◌<◌, ◌≡◌, ◌≢◌, Bool, true, false, not, Option, none, some, List, [], ◌∷◌,
  Bytes, length, ◌==◌, if◌then◌else◌, ◌⊎◌,
}
use kvraft.Base.Int.{ℤ}
use kvraft.Raft.Types.{
  Command, RequestVoteArgs, RequestVoteReply, AppendEntriesArgs, AppendEntriesReply, ApplyMsg,
  NodeState, follower, candidate, leader,
}
use kvraft.Raft.Node.{Node, update, new_node, is_leader_state}
use kvraft.Raft.Vote.{handle_request_vote}
use kvraft.Raft.Append.{handle_append_entries}
use kvraft.Raft.Commit.{applier_wakes, apply_next}
use kvraft.Raft.Election.{
  run_leader_tick, Election, FollowerEvent, run_follower, start_election, on_vote_reply, submit,
}
use kvraft.Raft.Replication.{replication_worker_wakes, prepare_append, handle_append_reply}

-- Where the main goroutine stands: at the head of the loop of `run`, in one of the functions that it
-- calls, or returned. `counting` has the peers whose goroutine has not handed over a reply.
pub data Phase : Type 0 where
  idle following starting leading stopped : Phase
  counting : Election → List ℕ → Phase

-- `switch state` in `run`
unfoldable pub dispatch : NodeState → Phase
dispatch follower = following
dispatch candidate = starting
dispatch leader = leading

-- The indices that `for i := range n.peers { if i == n.id { continue } … }` passes on.
unfoldable pub peers_but : ℕ → ℕ → List ℕ
peers_but id zero = []
peers_but id (suc i) = let rest = peers_but id i in if i == id then rest else i ∷ rest

-- The goroutine of one peer is done.
unfoldable pub remove : ℕ → List ℕ → List ℕ
remove j [] = []
remove j (k ∷ ks) = if k == j then ks else k ∷ remove j ks

pub record Member : Type 0 where
  pub node : Node
  pub phase : Phase

-- The RPCs, with their ends. What was sent once can arrive late, twice, or never.
pub record VoteCall : Type 0 where
  pub candidate : ℕ
  pub args : RequestVoteArgs

pub record VoteAnswer : Type 0 where
  pub candidate : ℕ
  pub voter : ℕ
  pub term : ℤ
  pub reply : RequestVoteReply

pub record AppendCall : Type 0 where
  pub leader : ℕ
  pub peer : ℕ
  pub args : AppendEntriesArgs

pub record AppendAnswer : Type 0 where
  pub call : AppendCall
  pub reply : AppendEntriesReply

-- A line "raft leader elected" of the log.
pub record Win : Type 0 where
  pub term : ℤ
  pub leader : ℕ

pub record Cluster : Type 0 where
  pub member : ℕ → Member
  pub vote_calls : List VoteCall
  pub vote_answers : List VoteAnswer
  pub append_calls : List AppendCall
  pub append_answers : List AppendAnswer
  pub elected : List Win

abbrev pub node_at : Cluster → ℕ → Node
node_at c i = (c.member i).node

abbrev pub phase_at : Cluster → ℕ → Phase
phase_at c i = (c.member i).phase

abbrev pub set_member : Cluster → ℕ → Node → Phase → Cluster
set_member c i n p = record c { member = update c.member i (record { node = n; phase = p }) }

-- Every node has the same list of peers, and its own place in it.
unfoldable pub new_cluster : List Bytes → Cluster
new_cluster peers = record {
  member = λ i. record { node = new_node i peers; phase = idle };
  vote_calls = [];
  vote_answers = [];
  append_calls = [];
  append_answers = [];
  elected = [];
}

-- The place of an element in a list.
abbrev pub Among : {A : Type 0} → A → List A → Type 0
Among x [] = ⊥
Among x (y ∷ ys) = (x ≡ y) ⊎ Among x ys

-- The phase after a reply: `runCandidate` goes on, or returns.
unfoldable pub after_reply : Option Election → List ℕ → Phase
after_reply none waiting = idle
after_reply (some el) waiting = counting el waiting

-- The log of elections after a reply.
unfoldable pub after_win : Node → Election → List Win → List Win
after_win n el wins =
    if is_leader_state n.state then record { term = el.term; leader = n.id } ∷ wins else wins

-- A reply that the goroutine of peer `j` has put into `voteCh`.
unfoldable pub count_reply : Cluster → ℕ → ℕ → Election → List ℕ → RequestVoteReply → Cluster
unfolding after_reply after_win
count_reply c i j el waiting reply =
    let r = on_vote_reply (node_at c i) el reply in
    record (set_member c i r.0 (after_reply r.1 (remove j waiting))) {
      elected = after_win r.0 el c.elected;
    }

-- An event that concerns one node alone: its applier, a worker that wakes, a client's command.
pub data Local (n : Node) : Node → Type 0 where
  accept : (cmd : Command) → Local n (submit n cmd).0
  trigger : {m : Node} (peer : ℕ) → replication_worker_wakes n peer ≡ some m → Local n m
  notified : {m : Node} → applier_wakes n ≡ some m → Local n m
  apply : {m : Node} (msg : Option ApplyMsg) → apply_next n ≡ some (msg, m) → Local n m

-- One step of a cluster: of the main goroutine of node `i`, of the goroutines that call its peers, or
-- of the RPC handlers of node `j`.
pub data Step (peers : List Bytes) (c : Cluster) : Cluster → Type 0 where
  switch :
      (i : ℕ)
      → i < length peers
      → phase_at c i ≡ idle
      → Step peers c (set_member c i (node_at c i) (dispatch (node_at c i).state))
  wake :
      (i : ℕ) (event : FollowerEvent)
      → i < length peers
      → phase_at c i ≡ following
      → Step peers c (set_member c i (run_follower (node_at c i) event) idle)
  campaign :
      (i : ℕ) {m : Node} (args : RequestVoteArgs) (el : Election)
      → i < length peers
      → phase_at c i ≡ starting
      → start_election (node_at c i) ≡ some (m, args, el)
      → Step peers c (record (set_member c i m (counting el (peers_but i (length peers)))) {
        vote_calls = record { candidate = i; args = args } ∷ c.vote_calls;
      })
  count :
      (i j : ℕ) (el : Election) (waiting : List ℕ) (reply : RequestVoteReply)
      → i < length peers
      → phase_at c i ≡ counting el waiting
      → Among j waiting
      → Among (record { candidate = i; voter = j; term = el.term; reply = reply }) c.vote_answers
      → Step peers c (count_reply c i j el waiting reply)
  give_up :
      (i : ℕ) (el : Election) (waiting : List ℕ)
      → i < length peers
      → phase_at c i ≡ counting el waiting
      → Step peers c (set_member c i (node_at c i) idle)
  tick :
      (i : ℕ)
      → i < length peers
      → phase_at c i ≡ leading
      → Step peers c (
          set_member c i
            (run_leader_tick (node_at c i)).0
            (if (run_leader_tick (node_at c i)).1 then leading else idle))
  stop : (i : ℕ) → i < length peers → Step peers c (set_member c i (node_at c i) stopped)
  vote :
      (i j : ℕ) (args : RequestVoteArgs) {m : Node} {reply : RequestVoteReply}
      → j < length peers
      → i ≢ j
      → Among (record { candidate = i; args = args }) c.vote_calls
      → handle_request_vote (node_at c j) args ≡ some (m, reply)
      → Step peers c (record (set_member c j m (phase_at c j)) {
        vote_answers =
            record { candidate = i; voter = j; term = args.term; reply = reply } ∷ c.vote_answers;
      })
  send :
      (i j : ℕ) (args : AppendEntriesArgs)
      → i < length peers
      → j < length peers
      → i ≢ j
      → prepare_append (node_at c i) j ≡ some args
      → Step peers c (record c {
        append_calls = record { leader = i; peer = j; args = args } ∷ c.append_calls;
      })
  append :
      (i j : ℕ) (args : AppendEntriesArgs) {m : Node} {reply : AppendEntriesReply}
      → j < length peers
      → Among (record { leader = i; peer = j; args = args }) c.append_calls
      → handle_append_entries (node_at c j) args ≡ some (m, reply)
      → Step peers c (record (set_member c j m (phase_at c j)) {
        append_answers =
            record { call = record { leader = i; peer = j; args = args }; reply = reply }
            ∷ c.append_answers;
      })
  replicate :
      (i j : ℕ) (args : AppendEntriesArgs) (reply : AppendEntriesReply) {m : Node} (again : Bool)
      → i < length peers
      → Among
          (record { call = record { leader = i; peer = j; args = args }; reply = reply })
          c.append_answers
      → handle_append_reply (node_at c i) j args reply ≡ some (m, again)
      → Step peers c (set_member c i m (phase_at c i))
  alone :
      (i : ℕ) {m : Node}
      → i < length peers
      → Local (node_at c i) m
      → Step peers c (set_member c i m (phase_at c i))

pub data Steps (peers : List Bytes) (c : Cluster) : Cluster → Type 0 where
  start : Steps peers c c
  later : {d e : Cluster} → Steps peers c d → Step peers d e → Steps peers c e

-- The states that a cluster reaches from its start.
abbrev pub Reach : List Bytes → Cluster → Type 0
Reach peers = Steps peers (new_cluster peers)
