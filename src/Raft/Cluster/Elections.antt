-- ===== src/Raft/Cluster/Elections.antt =====
-- At most one leader in a term, where an election takes the votes of all nodes.
use kvraft.Base.{ℕ, ◌≤◌, ◌<◌, ◌≡◌, subst, List, arith, length, Bytes, ℕ_discrete}
use kvraft.Base.Int.{ℤ}
use kvraft.Raft.Types.{leader}
use kvraft.Raft.Cluster.{Cluster, node_at, Among, Reach}
use kvraft.Raft.Cluster.Invariant.{Campaign, Inv}
use kvraft.Raft.Cluster.Preserved.{Reach-Inv}

module _ {size : ℕ} {c : Cluster} (inv : Inv size c) where
  one_winner :
      (t : ℤ) (i j : ℕ)
      → Among (record { term = t; leader = i }) c.elected
      → Among (record { term = t; leader = j }) c.elected
      → i ≡ j
  one_winner t i j won_i won_j = elim (ℕ_discrete i j) [
    | yes same ↦ same
    | no other ↦ absurd ((inv.wins _ won_j).alone i other (inv.wins _ won_i).started)
  ]

  Campaign-inside : {t : ℤ} {i : ℕ} → Campaign c.vote_calls t i → i < size
  Campaign-inside (q, among, at, _) = subst (λ k. k < size) at (inv.calls q among).0

  pub leader-inside : {i : ℕ} → (node_at c i).state ≡ leader → i < size
  leader-inside {i} l = Campaign-inside (inv.wins _ ((inv.members i).won l)).started

  -- A leader has given its vote to every later one, and so is none any more.
  pub one_leader : (i j : ℕ) → (node_at c i).state ≡ leader → (node_at c j).state ≡ leader → i ≡ j
  one_leader i j li lj =
      let won_i = (inv.members i).won li in
      let won_j = (inv.members j).won lj in
      let up = (inv.wins _ won_i).past j (leader-inside lj) in
      let down = (inv.wins _ won_j).past i (leader-inside li) in
      let same : (node_at c i).current_term ≡ (node_at c j).current_term =
        ground (arith, up, down) in
      one_winner (node_at c j).current_term i j
        (subst (λ t. Among (record { term = t; leader = i }) c.elected) same won_i) won_j

-- In every state that a cluster of at most three nodes reaches, whatever is lost, delayed or
-- delivered twice, two elections that were won in one term were won by one node, and no two nodes
-- are leaders, of the same term or of different ones.
pub election_safety :
    {peers : List Bytes} {c : Cluster}
    → length peers ≤ 3
    → Reach peers c
    → ((t : ℤ) (i j : ℕ)
        → Among (record { term = t; leader = i }) c.elected
        → Among (record { term = t; leader = j }) c.elected
        → i ≡ j)
      × ((i j : ℕ) → (node_at c i).state ≡ leader → (node_at c j).state ≡ leader → i ≡ j)
election_safety {peers} {c} few run =
    let inv = Reach-Inv (omega (arith, few)) run in (one_winner inv, one_leader inv)
