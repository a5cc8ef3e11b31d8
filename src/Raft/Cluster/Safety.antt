-- ===== src/Raft/Cluster/Safety.antt =====
-- What a cluster of at most three nodes promises of its logs and of what it applies.
use kvraft.Base.{
  [], ◌∷◌, get_elem?-lt, ℕ, ◌+◌, ◌≤◌, ◌≡◌, sym, ap, ◌∙◌, ◌⊎◌, some, List, length, subst, inl, inr,
  arith, Bytes, get_elem?,
}
use kvraft.Base.Int.{pos}
use kvraft.Raft.Types.{LogEntry, leader, ApplyMsg}
use kvraft.Raft.Node.{Node, dummy_entry}
use kvraft.Raft.Indexed.{Indexed-get_elem?}
use kvraft.Raft.Commit.{apply_next}
use kvraft.Raft.Prefix.{Prefix, Prefix-trans, Prefix-either, get_elem?-Prefix}
use kvraft.Raft.Run.Applied.{apply_next-cases, message}
use kvraft.Raft.Cluster.{Cluster, node_at, Reach, Steps}
use kvraft.Raft.Cluster.Nodes.{Sound, SoundLater, new_cluster-Sound, Steps-Sound}

Reach-Sound :
    {peers : List Bytes} {c : Cluster}
    → length peers ≤ 3
    → Reach peers c
    → SoundLater (length peers) c (dummy_entry ∷ [])
Reach-Sound {peers} few reach = Steps-Sound (omega (arith, few)) reach (new_cluster-Sound peers)

-- In every state that a cluster of at most three nodes reaches, the logs of two nodes do not
-- conflict: one begins with the other. The log of a leader begins with the log of every node.
pub logs_never_conflict :
    {peers : List Bytes} {c : Cluster}
    → length peers ≤ 3
    → Reach peers c
    → (i j : ℕ)
    → (Prefix (node_at c i).log (node_at c j).log ⊎ Prefix (node_at c j).log (node_at c i).log)
      × ((node_at c j).state ≡ leader → Prefix (node_at c i).log (node_at c j).log)
logs_never_conflict few reach i j =
    let r = Reach-Sound few reach in
    (
      Prefix-either _ _ r.bigger (r.sound.logs.begins i) (r.sound.logs.begins j),
      λ l. subst (Prefix _) (sym (r.sound.logs.leads j l)) (r.sound.logs.begins i),
    )

-- In a cluster of at most three nodes nothing that a node has in its log is ever lost, committed or
-- not: the log of every later leader begins with it. So what a leader takes in by Submit stands in
-- the log of each later leader, at the same place.
pub nothing_is_lost :
    {peers : List Bytes} {c d : Cluster}
    → length peers ≤ 3
    → Reach peers c
    → Steps peers c d
    → (i j : ℕ) → (node_at d j).state ≡ leader
    → Prefix (node_at c i).log (node_at d j).log
nothing_is_lost {peers} few reach steps i j l =
    let r = Reach-Sound few reach in
    let q = Steps-Sound (omega (arith, few)) steps r.sound in
    subst (Prefix _) (sym (q.sound.logs.leads j l))
      (Prefix-trans _ r.bigger q.bigger (r.sound.logs.begins i) q.grows)

zero_add : (n : ℕ) → 0 + n ≡ n
zero_add n = omega arith

-- What a node applies is the entry of the one log at the place that it carries.
applied_entry :
    {size : ℕ} (c : Cluster) {log : List LogEntry}
    → Sound size c log
    → (i : ℕ) {a : ApplyMsg} {n : Node} → apply_next (node_at c i) ≡ some (some a, n)
    → (k : ℕ) × (e : LogEntry) × (get_elem? log k ≡ some e) × (a.index ≡ pos k) × (a ≡ message e)
applied_entry c {log} s i {a} h = elim (apply_next-cases (node_at c i) (s.valid i)) [
  | inl (all_sent, idle) ↦ absurd (cc (h, idle))
  | inr (e, found, behind, sent) ↦
      let one : a ≡ message e = cc (h, sent) in
      (
        (node_at c i).last_applied + 1,
        e,
        get_elem?-Prefix (node_at c i).log log ((node_at c i).last_applied + 1) (s.logs.begins i)
              (get_elem?-lt _ _ found)
            ∙ found,
        ap (λ (x : ApplyMsg). x.index) one
            ∙ Indexed-get_elem? 0 ((node_at c i).last_applied + 1) (node_at c i).log
                (s.valid i).indexed found
            ∙ ap pos (zero_add _),
        one,
      )
]

same_message :
    (log bigger : List LogEntry) (k l : ℕ) {e f : LogEntry} {a b : ApplyMsg}
    → Prefix log bigger
    → get_elem? log k ≡ some e
    → get_elem? bigger l ≡ some f
    → a.index ≡ pos k
    → b.index ≡ pos l
    → a ≡ message e
    → b ≡ message f
    → a.index ≡ b.index
    → a ≡ b
same_message log bigger k l {e} {f} grows found later at at' is is' same =
    let places : k ≡ l = ground (arith, at, at', same) in
    let entries : some e ≡ some f =
      sym (get_elem?-Prefix log bigger k grows (get_elem?-lt log k found) ∙ found)
      ∙ ap (get_elem? bigger) places
      ∙ later in
    cc (entries, is, is')

-- In a cluster of at most three nodes, no two nodes apply different commands at one index, whether
-- at the same time or later.
pub state_machine_safety :
    {peers : List Bytes} {c d : Cluster} {a b : ApplyMsg} {n m : Node}
    → length peers ≤ 3
    → Reach peers c
    → Steps peers c d
    → (i j : ℕ) → apply_next (node_at c i) ≡ some (some a, n)
    → apply_next (node_at d j) ≡ some (some b, m)
    → a.index ≡ b.index
    → a ≡ b
state_machine_safety {c} {d} few reach steps i j ha hb same =
    let r = Reach-Sound few reach in
    let q = Steps-Sound (omega (arith, few)) steps r.sound in
    let (k, e, found, at, is) = applied_entry c r.sound i ha in
    let (l, f, later, at', is') = applied_entry d q.sound j hb in
    same_message r.bigger q.bigger k l q.grows found later at at' is is' same
