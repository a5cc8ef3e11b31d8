-- ===== src/Raft/Cluster/Wins.antt =====
-- An election is won: by a candidate that every other node has granted its vote.
use kvraft.Base.{
  ℕ, ◌<◌, ◌≡◌, ◌≢◌, ◌∙◌, sym, ap, subst, inl, inr, List, ◌∷◌, arith, length, ℕ_discrete,
}
use kvraft.Base.Int.{ℤ, ◌≤ℤ◌, ◌<ℤ◌}
use kvraft.Raft.Types.{leader}
use kvraft.Raft.Node.{Node}
use kvraft.Raft.Vote.Safety.{Bound}
use kvraft.Raft.Election.{Election}
use kvraft.Raft.Cluster.{
  Phase, idle, following, starting, leading, stopped, counting, Member, VoteCall, Win, Cluster,
  node_at, phase_at, set_member, Among,
}
use kvraft.Raft.Cluster.Keeps.{update-cases, update-at, Among-cons}
use kvraft.Raft.Cluster.Invariant.{
  Campaign, HasLeader, Granted, Counting, InPhase, MemberInv, CallInv, AnswerInv, WinInv, Inv,
}

-- The candidate as the leader.
pub record Crowned (n m : Node) : Type 0 where
  pub term : m.current_term ≡ n.current_term
  pub voted : m.voted_for ≡ n.voted_for
  pub kept : (m.id ≡ n.id) × (m.peers ≡ n.peers) × (m.log ≡ n.log)
  pub leads : m.state ≡ leader

module _ {size i : ℕ} {c : Cluster} (inv : Inv size c) {el : Election} {waiting : List ℕ}
    (k : Counting size c.vote_calls c.vote_answers c.elected i (node_at c i) el waiting)
    (all : (j : ℕ) → j < size → j ≢ i → Granted c.vote_answers el.term i j) {m : Node}
    (crowned : Crowned (node_at c i) m) (current : (node_at c i).current_term ≡ el.term) where
  abbrev win : Win
  win = record { term = el.term; leader = i }

  -- No other node was a candidate of the term: it would have voted for itself.
  no_rival : (j : ℕ) → j ≢ i → Campaign c.vote_calls el.term j → ⊥
  no_rival j other (q, among, at, for) =
      let inside = subst (λ u. u < size) at (inv.calls q among).0 in
      let (v, answered, to, by, when, granted) = all j inside other in
      let camp : Campaign c.vote_calls v.term v.voter = (q, among, at ∙ sym by, for ∙ sym when) in
      let (l, won) = (inv.answers v answered).rival granted camp in
      let won_now = subst (λ t. Among (record { term = t; leader = l }) c.elected) when won in
      elim (ℕ_discrete l i) [
        | yes same ↦
            let mine =
              subst (λ u. Among (record { term = el.term; leader = u }) c.elected) same won_now in
            omega (arith, k.unwon el.term mine)
        | no different ↦ (inv.wins _ won_now).alone i (λ e. different (sym e)) k.started
      ]

  voters_past : (j : ℕ) → j < size → j ≢ i → el.term ≤ℤ (node_at c j).current_term
  voters_past j inside other =
      let (v, answered, to, by, when, granted) = all j inside other in
      subst (λ t. t ≤ℤ (node_at c j).current_term) when
        (subst (λ u. v.term ≤ℤ (node_at c u).current_term) by
          ((inv.answers v answered).past granted))

  other-unwon :
      (j : ℕ) (t u : ℤ)
      → i ≢ j
      → ((s : ℤ) → Among (record { term = s; leader = j }) c.elected → s <ℤ u)
      → Among (record { term = t; leader = j }) (win ∷ c.elected)
      → t <ℤ u
  other-unwon j t u other unwon (inl e) = absurd (other (sym (ap (λ (w : Win). w.leader) e)))
  other-unwon j t u other unwon (inr among) = unwon t among

  other-InPhase :
      (j : ℕ) (p : Phase)
      → i ≢ j
      → InPhase size c.vote_calls c.vote_answers c.elected j (node_at c j) p
      → InPhase size c.vote_calls c.vote_answers (win ∷ c.elected) j (node_at c j) p
  other-InPhase j (counting e w) other (out, x) = (
    out,
    record {
      inside = x.inside;
      current = x.current;
      latest = x.latest;
      started = x.started;
      unwon = λ t among. other-unwon j t e.term other x.unwon among;
      tally = x.tally;
    },
  )
  other-InPhase j idle other h = h
  other-InPhase j following other h = h
  other-InPhase j starting other h = h
  other-InPhase j leading other h = h
  other-InPhase j stopped other h = h

  HasLeader-grows : {t : ℤ} → HasLeader c.elected t → HasLeader (win ∷ c.elected) t
  HasLeader-grows (l, among) = (l, inr among)

  grown-MemberInv :
      (j : ℕ)
      → i ≢ j
      → MemberInv size c.vote_calls c.vote_answers (win ∷ c.elected) j (node_at c j) (phase_at c j)
  grown-MemberInv j other =
      let x = inv.members j in
      record {
        id = x.id;
        sized = x.sized;
        up = x.up;
        won = λ l. inr (x.won l);
        in_phase = other-InPhase j (phase_at c j) other x.in_phase;
      }

  abbrev won_in : ℤ → Win
  won_in t = record { term = t; leader = i }

  crowned-MemberInv : MemberInv size c.vote_calls c.vote_answers (win ∷ c.elected) i m idle
  crowned-MemberInv =
      let x = inv.members i in
      record {
        id = crowned.kept.0 ∙ x.id;
        sized = ap length crowned.kept.1 ∙ x.sized;
        up = rw crowned.term x.up;
        won = λ l. inl (ap won_in (crowned.term ∙ current));
        in_phase = tt;
      }

  Bound-crowned : (t : ℤ) (j : ℕ) → Bound t j (node_at c i) → Bound t j m
  Bound-crowned t j b = ground (arith, crowned, b)

  crowned-CallInv :
      (q : VoteCall)
      → i ≡ q.candidate
      → CallInv c.elected q (node_at c q.candidate)
      → CallInv (win ∷ c.elected) q m
  crowned-CallInv q e x = record {
    own = x.own;
    past = ground (arith, x, crowned, e);
    bound = elim x.bound [
      | inl b ↦ inl (Bound-crowned q.args.term q.candidate (rw e b))
      | inr led ↦ inr (HasLeader-grows led)
    ];
  }

  pub win-Inv : Inv size (record (set_member c i m idle) { elected = win ∷ c.elected })
  win-Inv = record {
    members = λ j.
        update-cases
          (λ (a : Member).
            MemberInv size c.vote_calls c.vote_answers (win ∷ c.elected) j a.node a.phase)
          c.member i _ j
          (λ e.
            subst (λ j. MemberInv size c.vote_calls c.vote_answers (win ∷ c.elected) j m idle) e
              crowned-MemberInv)
          (grown-MemberInv j);
    calls = λ q among.
        let (inside, x) = inv.calls q among in
        (
          inside,
          update-at (λ (a : Member). CallInv (win ∷ c.elected) q a.node) c.member i _ q.candidate
              (λ e. crowned-CallInv q e x)
              (record {
                own = x.own;
                past = x.past;
                bound = elim x.bound [ inl b ↦ inl b | inr led ↦ inr (HasLeader-grows led) ];
              }),
        );
    answers = λ v among.
        let x = inv.answers v among in
        update-at (λ (a : Member). AnswerInv c.vote_calls (win ∷ c.elected) v a.node) c.member i _
          v.voter
          (λ e. record {
            past = ground (arith, crowned, x, e);
            rival = λ g camp. HasLeader-grows (x.rival g camp);
          })
          (record { past = x.past; rival = λ g camp. HasLeader-grows (x.rival g camp) });
    appends = λ a among. inr (inv.appends a among);
    wins =
        Among-cons (λ w. WinInv size c.vote_calls (set_member c i m idle).member w) c.elected
          (record {
            started = k.started;
            past = λ j inside.
                update-cases (λ (a : Member). el.term ≤ℤ a.node.current_term) c.member i _ j
                  (λ e. ground (arith, crowned.term, current))
                  (λ e. voters_past j inside (λ f. e (sym f)));
            alone = no_rival;
          })
          (λ w among.
            let x = inv.wins w among in
            record {
              started = x.started;
              past = λ j inside.
                  update-at (λ (a : Member). w.term ≤ℤ a.node.current_term) c.member i _ j
                    (λ e.
                      ground
                        (arith, crowned, x.past j inside, ap (λ k. (node_at c k).current_term) e))
                    (x.past j inside);
              alone = x.alone;
            });
  }
