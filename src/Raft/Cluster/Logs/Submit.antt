-- ===== src/Raft/Cluster/Logs/Submit.antt =====
-- A leader adds an entry to the end of the one log.
use kvraft.Base.{
  ℕ, ◌≡◌, refl, sym, ap, subst, ◌∙◌, ◌⊎◌, inl, inr, some, List, [], ◌∷◌, ◌++◌, length, get_elem?,
  arith, ℕ_discrete, dec_lt, get_elem?-lt, get_elem?-append_left, get_elem?-append_right,
  length-append,
}
use kvraft.Base.Int.{◌≤ℤ◌}
use kvraft.Raft.Types.{LogEntry, leader}
use kvraft.Raft.Node.{Node}
use kvraft.Raft.Prefix.{Prefix, Prefix-refl, Prefix-append}
use kvraft.Raft.Cluster.{Phase, Member, Cluster, Among, node_at, set_member}
use kvraft.Raft.Cluster.Keeps.{update-cases}
use kvraft.Raft.Cluster.Elections.{one_leader, leader-inside}
use kvraft.Raft.Cluster.Invariant.{HasLeader, Inv}
use kvraft.Raft.Cluster.Logs.{LogInv}
use kvraft.Raft.Cluster.Logs.Moves.{moved-LogInv}

module _ {size i : ℕ} {c : Cluster} (inv : Inv size c) {log : List LogEntry}
    (logs : LogInv size c log) (e : LogEntry) (leads : (node_at c i).state ≡ leader)
    (own : e.term ≡ (node_at c i).current_term) where
  abbrev bigger : List LogEntry
  bigger = log ++ e ∷ []

  won : HasLeader c.elected e.term
  won = (
    i,
    subst (λ t. Among (record { term = t; leader = i }) c.elected) (sym own)
        ((inv.members i).won leads),
  )

  newest : (k : ℕ) (f : LogEntry) → get_elem? log k ≡ some f → f.term ≤ℤ e.term
  newest k f found = elim (logs.owned k f found) [
    | inl dummy ↦ rw own (omega (arith, dummy, (inv.members i).up))
    | inr (l, among) ↦ rw own ((inv.wins _ among).past i (leader-inside inv leads))
  ]

  -- The places of the longer log: the old ones and the last.
  place :
      (k : ℕ) (f : LogEntry)
      → get_elem? bigger k ≡ some f
      → (get_elem? log k ≡ some f) ⊎ ((k ≡ length log) × (f ≡ e))
  place k f found = elim (dec_lt k (length log)) [
    | yes inside ↦ inl (sym (get_elem?-append_left log (e ∷ []) k inside) ∙ found)
    | no past ↦ elim (ℕ_discrete k (length log)) [
      | yes last ↦ inr (
        last,
        ground (arith, found, get_elem?-append_right log (e ∷ []) k 0 (omega (arith, last))),
      )
      | no outside ↦
          absurd
            (omega (arith, get_elem?-lt bigger k found, length-append log (e ∷ []), past, outside))
    ]
  ]

  module _ (m : Node) (p : Phase) (term : m.current_term ≡ (node_at c i).current_term)
      (adds : m.log ≡ (node_at c i).log ++ e ∷ []) where
    whole : m.log ≡ bigger
    whole = adds ∙ ap (λ (l : List LogEntry). l ++ e ∷ []) (logs.leads i leads)

    pub submit-LogInv : LogInv size (set_member c i m p) bigger
    submit-LogInv =
        moved-LogInv inv logs
          (record {
            longer =
                subst (λ l. Prefix (node_at c i).log l) (sym adds)
                  (Prefix-append (node_at c i).log (e ∷ []));
            term = rw term (omega arith);
            changed = inr (_, (inv.members i).won leads, omega arith);
          })
          p (Prefix-append log (e ∷ []))
          (subst (λ l. Prefix l bigger) (sym whole) (Prefix-refl bigger)) (λ l. whole)
          (λ k other l. absurd (other (one_leader inv i k leads l)))
          (λ h. (
            i,
            leader-inside inv leads,
            update-cases (λ (a : Member). a.node.log ≡ bigger) c.member i _ i (λ same. whole)
                (λ other. absurd (other refl)),
          ))
          (λ a b f g le found_f found_g. elim (place a f found_f) [
            | inl old_f ↦ elim (place b g found_g) [
              | inl old_g ↦ logs.ascending a b f g le old_f old_g
              | inr (last, new) ↦ rw new (newest a f old_f)
            ]
            | inr (last_f, new_f) ↦ elim (place b g found_g) [
              | inl old_g ↦ absurd (omega (arith, get_elem?-lt log b old_g, le, last_f))
              | inr (last, new) ↦ rw (new, new_f) (omega arith)
            ]
          ])
          (λ k f found. elim (place k f found) [
            | inl old ↦ logs.owned k f old
            | inr (last, new) ↦ inr (rw new won)
          ])
