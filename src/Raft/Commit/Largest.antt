-- ===== src/Raft/Commit/Largest.antt =====
-- What tryAdvanceCommitIndexLocked commits.
use kvraft.Base.{
  ℕ, zero, suc, ◌-◌, ◌≤◌, ◌<◌, ◌≡◌, refl, ap, ◌⊎◌, inl, inr, some, arith, length, get_elem?,
  get_elem?-some, ltb, ltb→lt, not-ltb→le, Bool-cases, ℕ_discrete,
}
use kvraft.Raft.Types.{LogEntry}
use kvraft.Raft.Node.{Node, IsValid, notify_commit_advance}
use kvraft.Raft.Commit.Majority.{IsCommittable, committable-IsCommittable, not-IsCommittable}
use kvraft.Raft.Commit.{committable, commit_loop, try_advance_commit_index_locked}

-- No entry behind place `lo`, up to place `hi`, can be committed.
abbrev pub NoneBetween : Node → ℕ → ℕ → Type 0
NoneBetween n lo hi =
    (j : ℕ) (e : LogEntry) → lo < j → j ≤ hi → get_elem? n.log j ≡ some e → ¬ IsCommittable n j e

-- Nothing behind the commit index up to `hi` can be committed and the node stays as it is, or the
-- commit index becomes the last place up to `hi` that can be.
abbrev pub Largest : Node → ℕ → Node → Type 0
Largest n hi n' =
    (NoneBetween n n.commit_index hi × (n' ≡ n))
    ⊎ ((i : ℕ) × (e : LogEntry) × (n.commit_index < i)
        × (i ≤ hi)
        × (get_elem? n.log i ≡ some e)
        × IsCommittable n i e
        × NoneBetween n i hi
        × (n' ≡ notify_commit_advance (record n { commit_index = i })))

NoneBetween-suc :
    (n : Node) (lo i : ℕ) (e : LogEntry)
    → get_elem? n.log (suc i) ≡ some e
    → ¬ IsCommittable n (suc i) e
    → NoneBetween n lo i
    → NoneBetween n lo (suc i)
NoneBetween-suc n lo i e found never below j d p q g = elim (ℕ_discrete j (suc i)) [
  | yes last ↦ ground (arith, ap (get_elem? n.log) last)
  | no other ↦ below j d p (omega arith) g
]

Largest-suc :
    (n : Node) (i : ℕ) (e : LogEntry) {n' : Node}
    → get_elem? n.log (suc i) ≡ some e
    → ¬ IsCommittable n (suc i) e
    → Largest n i n'
    → Largest n (suc i) n'
Largest-suc n i e found never (inl (below, same)) =
    inl (NoneBetween-suc n n.commit_index i e found never below, same)
Largest-suc n i e found never (inr (k, d, p, q, g, c, above, same)) =
    inr (k, d, p, omega arith, g, c, NoneBetween-suc n k i e found never above, same)

commit_loop-Largest :
    (n : Node) (hi : ℕ)
    → hi < length n.log
    → (n' : Node) × (commit_loop n hi ≡ some n') × Largest n hi n'
unfolding commit_loop
commit_loop-Largest n zero h = (n, refl, inl ((λ j e p q g. absurd (omega arith)), refl))
commit_loop-Largest n (suc i) h = elim (Bool-cases (ltb n.commit_index (suc i))) [
  | inr past ↦ (
    n,
    rw (past, commit_loop),
    inl ((λ j e p q g. absurd (omega (arith, not-ltb→le n.commit_index (suc i) past))), refl),
  )
  | inl above ↦
      let (e, found) = get_elem?-some n.log (suc i) h in
      elim (Bool-cases (committable n (suc i) e)) [
        | inl good ↦ (
          notify_commit_advance (record n { commit_index = suc i }),
          ground (arith, above, found, good),
          inr (
            suc i,
            e,
            ltb→lt n.commit_index (suc i) above,
            omega arith,
            found,
            committable-IsCommittable n (suc i) e good,
            (λ j d p q g. absurd (omega arith)),
            refl,
          ),
        )
        | inr never ↦
            let (n', runs, largest) = commit_loop-Largest n i (omega arith) in
            (
              n',
              ground (arith, above, found, never, runs),
              Largest-suc n i e found (not-IsCommittable n (suc i) e never) largest,
            )
      ]
]

-- On a well-formed node the loop returns. It commits exactly the last entry behind the commit index
-- that is of the current term and that more than half of the nodes hold: the node itself, and
-- different others whose match index is at least its place. If there is none, nothing changes.
pub try_advance_commit_index_locked-Largest :
    (n : Node)
    → IsValid n
    → (n' : Node) × (try_advance_commit_index_locked n ≡ some n') × Largest n (length n.log - 1) n'
unfolding try_advance_commit_index_locked
try_advance_commit_index_locked-Largest n v =
    commit_loop-Largest n (length n.log - 1) (omega (arith, v.committed))

-- A node whose commit index went from one well-formed value to another.
pub record Advanced (n n' : Node) : Type 0 where
  pub valid : IsValid n'
  pub forward : n.commit_index ≤ n'.commit_index
  pub log : n'.log ≡ n.log
  pub next_index : n'.next_index ≡ n.next_index
  pub match_index : n'.match_index ≡ n.match_index
  pub term : n'.current_term ≡ n.current_term
  pub applied : n'.last_applied ≡ n.last_applied

pub Largest-Advanced :
    (n : Node) {n' : Node} → IsValid n → Largest n (length n.log - 1) n' → Advanced n n'
unfolding notify_commit_advance
Largest-Advanced n v (inl (_, same)) = rw same (record {
  valid = v;
  forward = omega arith;
  log = refl;
  next_index = refl;
  match_index = refl;
  term = refl;
  applied = refl;
})
Largest-Advanced n v (inr (i, e, above, within, _, _, _, same)) = rw same (record {
  valid = record {
    committed = omega (arith, v.committed);
    applied = omega (arith, v.applied);
    indexed = v.indexed;
  };
  forward = omega arith;
  log = refl;
  next_index = refl;
  match_index = refl;
  term = refl;
  applied = refl;
})
