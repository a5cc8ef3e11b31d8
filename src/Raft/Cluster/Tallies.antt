-- ===== src/Raft/Cluster/Tallies.antt =====
-- One reply counted, and what it leaves true of the election.
use kvraft.Base.{
  ℕ, ◌+◌, ◌≤◌, ◌<◌, ◌≡◌, ◌≢◌, ◌⊎◌, sym, refl, inl, inr, List, ◌∷◌, arith, length, ◌==◌, [],
  Bool-cases,
}
use kvraft.Raft.Types.{leader, RequestVoteReply}
use kvraft.Raft.Election.{Election, count_vote}
use kvraft.Raft.Cluster.{Cluster, node_at, Among, remove}
use kvraft.Raft.Cluster.Invariant.{Granted, Counting, Inv, Tally}

length-remove : (j : ℕ) (ks : List ℕ) → Among j ks → length (remove j ks) + 1 ≡ length ks
unfolding remove
length-remove j [] among = elim among [ ]
length-remove j (k ∷ ks) among = elim (Bool-cases (k == j)) [
  | inl same ↦ rw same (omega arith)
  | inr other ↦ elim among [
    | inl e ↦ absurd (ground (arith, e, other))
    | inr later ↦ rw other (omega (arith, length-remove j ks later))
  ]
]

Among-remove : (j l : ℕ) (ks : List ℕ) → Among l ks → (l ≡ j) ⊎ Among l (remove j ks)
unfolding remove
Among-remove j l [] among = elim among [ ]
Among-remove j l (k ∷ ks) among = elim (Bool-cases (k == j)) [
  | inl same ↦ ground (arith, same, among)
  | inr other ↦ elim among [
    | inl e ↦ rw other (inr (inl e))
    | inr later ↦ ground (arith, other, Among-remove j l ks later)
  ]
]

module _ {size i : ℕ} {c : Cluster} (inv : Inv size c) (j : ℕ) {el : Election} {waiting : List ℕ}
    (reply : RequestVoteReply) (out : (node_at c i).state ≢ leader)
    (k : Counting size c.vote_calls c.vote_answers c.elected i (node_at c i) el waiting)
    (asked : Among j waiting)
    (among : Among
      (record { candidate = i; voter = j; term = el.term; reply = reply })
      c.vote_answers) where
  pub counted-Tally : Tally size c.vote_answers i (count_vote el reply) (remove j waiting)
  counted-Tally = elim k.tally [
    | inl few ↦ inl (ground (arith, few, length-remove j waiting asked))
    | inr (full, each) ↦ elim (Bool-cases reply.vote_granted) [
      | inr refused ↦ inl (ground (arith, refused, full, length-remove j waiting asked))
      | inl granted ↦ inr (
        ground (arith, granted, full, length-remove j waiting asked),
        λ l inside other. elim (each l inside other) [
          | inr before ↦ inr before
          | inl still ↦ elim (Among-remove j l waiting still) [
            | inl e ↦ inr (_, among, refl, sym e, refl, granted)
            | inr later ↦ inl later
          ]
        ],
      )
    ]
  ]

  -- As many votes as there are nodes are a vote of each.
  pub all-Granted :
      size ≤ (count_vote el reply).votes
      → (l : ℕ) → l < size
      → l ≢ i
      → Granted c.vote_answers el.term i l
  all-Granted enough l inside other = elim counted-Tally [
    | inl few ↦ absurd (omega (arith, few))
    | inr (full, each) ↦ elim (each l inside other) [
      | inr granted ↦ granted
      | inl asked ↦ absurd (no_one (remove j waiting) (omega (arith, full)) asked)
    ]
  ]
    where
      no_one : (ks : List ℕ) → length ks ≡ 0 → Among l ks → ⊥
      no_one [] e h = h
      no_one (k ∷ ks) e h = omega arith

  pub open_still :
      Counting size c.vote_calls c.vote_answers c.elected i
        (node_at c i)
        (count_vote el reply)
        (remove j waiting)
  open_still = record {
    inside = k.inside;
    current = k.current;
    latest = k.latest;
    started = k.started;
    unwon = k.unwon;
    tally = counted-Tally;
  }
