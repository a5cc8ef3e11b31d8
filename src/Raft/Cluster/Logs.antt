-- ===== src/Raft/Cluster/Logs.antt =====
-- What holds of the logs in every state that a cluster reaches: there is one log that every node
-- has a beginning of.
pub mod Moves
pub mod Keeps
pub mod Votes
pub mod Frame
pub mod Submit
pub mod Steps
pub mod Runs
use kvraft.Base.{ℕ, ◌+◌, ◌-◌, ◌≤◌, ◌<◌, ◌≡◌, ◌⊎◌, true, some, List, length, get_elem?, drop}
use kvraft.Base.Int.{ℤ, pos, ◌≤ℤ◌, ◌<ℤ◌}
use kvraft.Raft.Types.{LogEntry, leader, AppendEntriesArgs}
use kvraft.Raft.Node.{Node, last_log_term}
use kvraft.Raft.Prefix.{Prefix}
use kvraft.Raft.Cluster.{Member, VoteCall, VoteAnswer, AppendCall, Win, Cluster, Among}
use kvraft.Raft.Cluster.Invariant.{HasLeader}

-- A term from `t` on has a leader.
abbrev pub IsOver : List Win → ℤ → Type 0
IsOver wins t = (w : Win) × Among w wins × (t ≤ℤ w.term)

-- The end of the log that a candidate has sent.
abbrev pub Sent : VoteCall → List LogEntry → Type 0
Sent q log =
    (q.args.last_log_index ≡ pos (length log - 1)) × (last_log_term log ≡ some q.args.last_log_term)

-- As long as a candidate can win, its log is the one that it has asked with,
abbrev pub CallLog : List Win → VoteCall → Node → Type 0
CallLog wins q n = IsOver wins q.args.term ⊎ (q.args.term <ℤ n.current_term) ⊎ Sent q n.log

-- and is not shorter than the log of a node that has voted for it.
abbrev pub AnswerLog : List Win → VoteAnswer → Node → Node → Type 0
AnswerLog wins v voter candidate =
    v.reply.vote_granted ≡ true
    → IsOver wins v.term
      ⊎ (v.term <ℤ candidate.current_term)
      ⊎ (length voter.log ≤ length candidate.log)

-- A leader's message is cut from a beginning of the log.
pub record FromLog (log : List LogEntry) (args : AppendEntriesArgs) : Type 0 where
  pub sent : List LogEntry
  pub place : ℕ
  pub entry : LogEntry
  pub begins : Prefix sent log
  pub prev : args.prev_log_index ≡ pos place
  pub found : get_elem? sent place ≡ some entry
  pub prev_term : args.prev_log_term ≡ entry.term
  pub entries : args.entries ≡ drop (place + 1) sent

-- Terms never fall along the log,
abbrev pub IsAscending : List LogEntry → Type 0
IsAscending log =
    (i j : ℕ) (e f : LogEntry)
    → i ≤ j
    → get_elem? log i ≡ some e
    → get_elem? log j ≡ some f
    → e.term ≤ℤ f.term

-- and each is the dummy entry's or a leader's.
abbrev pub IsOwned : List Win → List LogEntry → Type 0
IsOwned wins log =
    (i : ℕ) (e : LogEntry) → get_elem? log i ≡ some e → (e.term ≤ℤ pos 0) ⊎ HasLeader wins e.term

pub record LogInv (size : ℕ) (c : Cluster) (log : List LogEntry) : Type 0 where
  pub begins : (i : ℕ) → Prefix (c.member i).node.log log
  pub leads : (i : ℕ) → (c.member i).node.state ≡ leader → (c.member i).node.log ≡ log
  pub held : 0 < size → (h : ℕ) × (h < size) × ((c.member h).node.log ≡ log)
  pub ascending : IsAscending log
  pub owned : IsOwned c.elected log
  pub calls :
      (q : VoteCall) → Among q c.vote_calls → CallLog c.elected q (c.member q.candidate).node
  pub answers :
      (v : VoteAnswer)
      → Among v c.vote_answers
      → AnswerLog c.elected v (c.member v.voter).node (c.member v.candidate).node
  pub appends : (a : AppendCall) → Among a c.append_calls → FromLog log a.args
