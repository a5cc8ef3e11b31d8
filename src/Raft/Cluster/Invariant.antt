-- ===== src/Raft/Cluster/Invariant.antt =====
-- What holds of the elections in every state that a cluster reaches.
use kvraft.Base.{ℕ, ◌+◌, ◌<◌, ◌≡◌, ◌≢◌, ◌⊎◌, true, List, length}
use kvraft.Base.Int.{ℤ, pos, ◌≤ℤ◌, ◌<ℤ◌}
use kvraft.Raft.Types.{leader}
use kvraft.Raft.Node.{Node}
use kvraft.Raft.Vote.Safety.{Bound}
use kvraft.Raft.Election.{Election}
use kvraft.Raft.Cluster.{
  Phase, idle, following, starting, leading, stopped, counting, Member, VoteCall, VoteAnswer,
  AppendCall, Win, Cluster, node_at, phase_at, Among,
}

-- Node `i` was a candidate of term `t`.
abbrev pub Campaign : List VoteCall → ℤ → ℕ → Type 0
Campaign calls t i = (q : VoteCall) × Among q calls × (q.candidate ≡ i) × (q.args.term ≡ t)

-- Term `t` has had a leader.
abbrev pub HasLeader : List Win → ℤ → Type 0
HasLeader wins t = (k : ℕ) × Among (record { term = t; leader = k }) wins

-- Node `j` has given its vote of term `t` to node `i`.
abbrev pub Granted : List VoteAnswer → ℤ → ℕ → ℕ → Type 0
Granted answers t i j =
    (v : VoteAnswer) × Among v answers
    × (v.candidate ≡ i)
    × (v.voter ≡ j)
    × (v.term ≡ t)
    × (v.reply.vote_granted ≡ true)

-- Either a vote was refused, and unanimity is out of reach, or each other node is still asked or has
-- granted its vote. `size` is the number of nodes.
abbrev pub Tally : ℕ → List VoteAnswer → ℕ → Election → List ℕ → Type 0
Tally size answers i el waiting =
    (el.votes + length waiting < size)
    ⊎ ((el.votes + length waiting ≡ size)
        × ((j : ℕ) → j < size → j ≢ i → Among j waiting ⊎ Granted answers el.term i j))

module _ (size : ℕ) (calls : List VoteCall) (answers : List VoteAnswer) (wins : List Win) where
  -- The election that node `i` counts is its latest, and has no winner.
  pub record Counting (i : ℕ) (n : Node) (el : Election) (waiting : List ℕ) : Type 0 where
    pub inside : i < size
    pub current : el.term ≤ℤ n.current_term
    pub latest : (t : ℤ) → Campaign calls t i → t ≤ℤ el.term
    pub started : Campaign calls el.term i
    pub unwon : (t : ℤ) → Among (record { term = t; leader = i }) wins → t <ℤ el.term
    pub tally : Tally size answers i el waiting

  -- Only at the head of its loop, in runLeader, or after its end, is a node's state the leader's.
  abbrev pub InPhase : ℕ → Node → Phase → Type 0
  InPhase i n idle = Unit
  InPhase i n leading = Unit
  InPhase i n stopped = Unit
  InPhase i n following = n.state ≢ leader
  InPhase i n starting = n.state ≢ leader
  InPhase i n (counting el waiting) = (n.state ≢ leader) × Counting i n el waiting

  pub record MemberInv (i : ℕ) (n : Node) (p : Phase) : Type 0 where
    pub id : n.id ≡ i
    pub sized : length n.peers ≡ size
    pub up : pos 0 ≤ℤ n.current_term
    pub won : n.state ≡ leader → Among (record { term = n.current_term; leader = i }) wins
    pub in_phase : InPhase i n p

-- A candidate has its own vote on record, until the term is over or has a leader.
pub record CallInv (wins : List Win) (q : VoteCall) (n : Node) : Type 0 where
  pub own : q.args.candidate_id ≡ pos q.candidate
  pub past : q.args.term ≤ℤ n.current_term
  pub bound : Bound q.args.term q.candidate n ⊎ HasLeader wins q.args.term

-- A candidate grants no vote of its term, unless the term has a leader.
pub record AnswerInv (calls : List VoteCall) (wins : List Win) (v : VoteAnswer) (n : Node)
    : Type 0 where
  pub past : v.reply.vote_granted ≡ true → v.term ≤ℤ n.current_term
  pub rival : v.reply.vote_granted ≡ true → Campaign calls v.term v.voter → HasLeader wins v.term

-- The other nodes are past the beginning of the term, and were no candidates of it.
pub record WinInv (size : ℕ) (calls : List VoteCall) (member : ℕ → Member) (w : Win) : Type 0 where
  pub started : Campaign calls w.term w.leader
  pub past : (j : ℕ) → j < size → w.term ≤ℤ (member j).node.current_term
  pub alone : (j : ℕ) → j ≢ w.leader → Campaign calls w.term j → ⊥

pub record Inv (size : ℕ) (c : Cluster) : Type 0 where
  pub members :
      (i : ℕ) → MemberInv size c.vote_calls c.vote_answers c.elected i (node_at c i) (phase_at c i)
  pub calls :
      (q : VoteCall)
      → Among q c.vote_calls
      → (q.candidate < size) × CallInv c.elected q (node_at c q.candidate)
  pub answers :
      (v : VoteAnswer)
      → Among v c.vote_answers
      → AnswerInv c.vote_calls c.elected v (node_at c v.voter)
  pub appends :
      (a : AppendCall)
      → Among a c.append_calls
      → Among (record { term = a.args.term; leader = a.leader }) c.elected
  pub wins : (w : Win) → Among w c.elected → WinInv size c.vote_calls c.member w
