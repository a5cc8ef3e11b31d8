-- ===== src/Raft/Commit/Majority.antt =====
-- raft/node.go: what tryAdvanceCommitIndexLocked counts, against the majority that it is for.
use kvraft.Base.{
  ℕ, zero, suc, ◌+◌, ◌*◌, ◌≤◌, ◌<◌, ◌≡◌, ◌≢◌, refl, inl, inr, true, false, not, List, [], ◌∷◌,
  arith, length, leb, ◌==◌, ◌&&◌, Bool-cases, ℕ_discrete,
}
use kvraft.Base.Int.{eq_ℤ_iff}
use kvraft.Raft.Types.{LogEntry}
use kvraft.Raft.Node.{Node}
use kvraft.Raft.Commit.{count_matches, majority_matches, committable}

-- Different peers below `bound`, the largest first, none of them the node itself, each of which is
-- known to hold the log up to place `i`.
abbrev pub Others : Node → ℕ → ℕ → List ℕ → Type 0
Others n i bound [] = Unit
Others n i bound (k ∷ ks) = (k < bound) × (k ≢ n.id) × (i ≤ n.match_index k) × Others n i k ks

-- More than half of the nodes hold the log up to place `i`: the node itself, and others.
abbrev pub IsHeld : Node → ℕ → Type 0
IsHeld n i = (ks : List ℕ) × Others n i (length n.peers) ks × (length n.peers < 2 * (1 + length ks))

-- An entry of the current term that more than half of the nodes hold.
abbrev pub IsCommittable : Node → ℕ → LogEntry → Type 0
IsCommittable n i e = (e.term ≡ n.current_term) × IsHeld n i

Others-up : (n : Node) (i k : ℕ) (ks : List ℕ) → Others n i k ks → Others n i (suc k) ks
Others-up n i k [] h = tt
Others-up n i k (j ∷ js) (below, other, holds, rest) = (omega arith, other, holds, rest)

-- The loop counts the largest number of such peers.
count_matches-Others :
    (n : Node) (i k : ℕ) → (ks : List ℕ) × Others n i k ks × (length ks ≡ count_matches n i k)
unfolding count_matches
count_matches-Others n i zero = ([], tt, refl)
count_matches-Others n i (suc k) =
    let (ks, others, size) = count_matches-Others n i k in
    elim (Bool-cases (not (k == n.id) && leb i (n.match_index k))) [
      | inl counts ↦ (
        k ∷ ks,
        (omega arith, ground (arith, counts), ground (arith, counts), others),
        ground (arith, counts, size),
      )
      | inr skipped ↦ (ks, Others-up n i k ks others, ground (arith, skipped, size))
    ]

length-le-count_matches :
    (n : Node) (i k : ℕ) (ks : List ℕ) → Others n i k ks → length ks ≤ count_matches n i k
unfolding count_matches
length-le-count_matches n i k [] h = omega arith
length-le-count_matches n i zero (j ∷ js) h = absurd (omega (arith, h.0))
length-le-count_matches n i (suc k) (j ∷ js) (below, other, holds, rest) = elim (ℕ_discrete j k) [
  | yes last ↦ ground (arith, last, length-le-count_matches n i j js rest)
  | no lower ↦
      ground (arith, length-le-count_matches n i k (j ∷ js) (omega arith, other, holds, rest))
]

-- The test of the loop is true of exactly the entries that may be committed.
pub committable-IsCommittable :
    (n : Node) (i : ℕ) (e : LogEntry) → committable n i e ≡ true → IsCommittable n i e
unfolding majority_matches
committable-IsCommittable n i e h =
    let (ks, others, size) = count_matches-Others n i (length n.peers) in
    (ground (arith, h, eq_ℤ_iff e.term n.current_term), (ks, others, ground (arith, h, size)))

pub not-IsCommittable :
    (n : Node) (i : ℕ) (e : LogEntry) → committable n i e ≡ false → ¬ IsCommittable n i e
unfolding majority_matches
not-IsCommittable n i e h (term, (ks, others, most)) =
    let bound = length-le-count_matches n i (length n.peers) ks others in
    ground (arith, h, eq_ℤ_iff e.term n.current_term, term)
