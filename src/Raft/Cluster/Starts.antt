-- ===== src/Raft/Cluster/Starts.antt =====
-- What runCandidate does before it asks for votes, and the peers that it asks.
use kvraft.Base.{
  ℕ, ◌+◌, ◌≤◌, ◌<◌, ◌≡◌, ◌≢◌, ◌⊎◌, ◌∙◌, sym, ap, refl, inl, inr, some, List, ◌∷◌, arith, length,
  zero, suc, ℕ_discrete,
}
use kvraft.Base.Int.{ℤ, pos, suc_ℤ, lt-suc_ℤ}
use kvraft.Raft.Types.{leader, RequestVoteArgs}
use kvraft.Raft.Node.{Node}
use kvraft.Raft.Election.{Election, start_election}
use kvraft.Raft.Cluster.{VoteCall, Among, peers_but}
use kvraft.Raft.Cluster.Quiet.{Quiet}
use kvraft.Raft.Cluster.Invariant.{Campaign}

-- What runCandidate does before it asks for votes.
pub record Started (n m : Node) (args : RequestVoteArgs) (el : Election) : Type 0 where
  pub term : m.current_term ≡ suc_ℤ n.current_term
  pub voted : m.voted_for ≡ pos n.id
  pub asked : (args.term ≡ m.current_term) × (args.candidate_id ≡ pos n.id)
  pub counted : (el.term ≡ m.current_term) × (el.votes ≡ 1)
  pub kept : (m.id ≡ n.id) × (m.peers ≡ n.peers) × (m.state ≡ n.state) × (m.log ≡ n.log)

pub start_election-Started :
    (n : Node) {m : Node} {args : RequestVoteArgs} {el : Election}
    → start_election n ≡ some (m, args, el)
    → Started n m args el
unfolding start_election
start_election-Started n h = ground arith

pub Started-Quiet :
    {n m : Node} {args : RequestVoteArgs} {el : Election}
    → Started n m args el
    → n.state ≢ leader
    → Quiet (λ t. ⊥) n m
Started-Quiet {n} s out = ground (arith, s, lt-suc_ℤ n.current_term)

length-peers_but-le : (id n : ℕ) → n ≤ id → length (peers_but id n) ≡ n
unfolding peers_but
length-peers_but-le id zero h = refl
length-peers_but-le id (suc n) h = ground (arith, length-peers_but-le id n (omega arith))

pub length-peers_but : (id n : ℕ) → id < n → length (peers_but id n) + 1 ≡ n
unfolding peers_but
length-peers_but id zero h = absurd (omega arith)
length-peers_but id (suc n) h = elim (ℕ_discrete n id) [
  | yes e ↦ ground (arith, length-peers_but-le id n (omega (arith, e)))
  | no e ↦ ground (arith, length-peers_but id n (omega (arith, e)))
]

pub Among-peers_but : (id n j : ℕ) → j < n → j ≢ id → Among j (peers_but id n)
unfolding peers_but
Among-peers_but id zero j h other = absurd (omega arith)
Among-peers_but id (suc n) j h other = elim (ℕ_discrete j n) [
  | yes e ↦ ground (arith, e)
  | no e ↦ ground (arith, Among-peers_but id n j (omega (arith, e)) other)
]

pub Campaign-cons :
    {q : VoteCall} (calls : List VoteCall) {t : ℤ} {i : ℕ}
    → Campaign (q ∷ calls) t i
    → ((q.candidate ≡ i) × (q.args.term ≡ t)) ⊎ Campaign calls t i
Campaign-cons calls (p, inl e, at, for) = inl (
  sym (ap (λ (u : VoteCall). u.candidate) e) ∙ at,
  sym (ap (λ (u : VoteCall). u.args.term) e) ∙ for,
)
Campaign-cons calls (p, inr among, at, for) = inr (p, among, at, for)

pub Campaign-grows :
    (q : VoteCall) (calls : List VoteCall) {t : ℤ} {i : ℕ}
    → Campaign calls t i
    → Campaign (q ∷ calls) t i
Campaign-grows q calls (p, among, at, for) = (p, inr among, at, for)
