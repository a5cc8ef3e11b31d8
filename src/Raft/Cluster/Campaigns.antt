-- ===== src/Raft/Cluster/Campaigns.antt =====
-- An election starts.
use kvraft.Base.{ℕ, ◌<◌, ◌≡◌, ◌≢◌, ◌∙◌, sym, ap, subst, refl, inl, inr, true, ◌∷◌, arith, length}
use kvraft.Base.Int.{pos_part, neg_part, ℤ, pos, ◌≤ℤ◌, ◌<ℤ◌, suc_ℤ, lt-suc_ℤ}
use kvraft.Raft.Types.{RequestVoteArgs}
use kvraft.Raft.Node.{Node}
use kvraft.Raft.Election.{Election}
use kvraft.Raft.Cluster.{
  Phase, idle, following, starting, leading, stopped, counting, Member, VoteCall, VoteAnswer, Win,
  Cluster, node_at, phase_at, set_member, Among, peers_but,
}
use kvraft.Raft.Cluster.Quiet.{Quiet}
use kvraft.Raft.Cluster.Keeps.{update-cases, update-at, Among-cons, moved-CallInv}
use kvraft.Raft.Cluster.Invariant.{Campaign, Counting, InPhase, MemberInv, CallInv, AnswerInv, Inv}
use kvraft.Raft.Cluster.Starts.{
  Started, Started-Quiet, length-peers_but, Among-peers_but, Campaign-cons, Campaign-grows,
}

module _ {size i : ℕ} {c : Cluster} (inv : Inv size c) (within : i < size)
    (begins : phase_at c i ≡ starting) {m : Node} {args : RequestVoteArgs} {el : Election}
    (s : Started (node_at c i) m args el) where
  abbrev call : VoteCall
  call = record { candidate = i; args = args }

  abbrev n : Node
  n = node_at c i

  old : MemberInv size c.vote_calls c.vote_answers c.elected i n starting
  old =
      subst (λ p. MemberInv size c.vote_calls c.vote_answers c.elected i n p) begins (inv.members i)

  newer : (t : ℤ) → t ≤ℤ n.current_term → t <ℤ args.term
  newer t h = omega (arith, lt-suc_ℤ n.current_term, ap pos_part now, ap neg_part now)
    where
      now : args.term ≡ suc_ℤ n.current_term
      now = s.asked.0 ∙ s.term

  earlier : (t : ℤ) (k : ℕ) → Campaign c.vote_calls t k → t ≤ℤ (node_at c k).current_term
  earlier t k (q, among, at, for) =
      subst (λ u. u ≤ℤ (node_at c k).current_term) for
        (subst (λ j. q.args.term ≤ℤ (node_at c j).current_term) at (inv.calls q among).1.past)

  same_term : el.term ≡ args.term
  same_term = s.counted.0 ∙ sym s.asked.0

  fresh : Counting size (call ∷ c.vote_calls) c.vote_answers c.elected i m el (peers_but i size)
  fresh = record {
    inside = within;
    current = rw s.counted.0 (omega arith);
    latest = λ t camp. rw same_term (elim (Campaign-cons c.vote_calls camp) [
      | inl e ↦ rw (sym e.1) (omega arith)
      | inr before ↦ omega (arith, newer t (earlier t i before))
    ]);
    started = (call, inl refl, refl, sym same_term);
    unwon = λ t w. rw same_term (newer t ((inv.wins _ w).past i within));
    tally = inr (
      omega (arith, s.counted.1, length-peers_but i size within),
      λ j inside other. inl (Among-peers_but i size j inside other),
    );
  }

  fresh-MemberInv :
      MemberInv size
        (call ∷ c.vote_calls)
        c.vote_answers
        c.elected
        i
        m
        (counting el (peers_but i size))
  fresh-MemberInv = record {
    id = s.kept.0 ∙ old.id;
    sized = ap length s.kept.1 ∙ old.sized;
    up = rw s.term (omega (arith, old.up, lt-suc_ℤ n.current_term));
    won = λ l. absurd (old.in_phase (sym s.kept.2 ∙ l));
    in_phase = (λ l. old.in_phase (sym s.kept.2 ∙ l), fresh);
  }

  -- The other nodes' elections do not see the new call.
  other-InPhase :
      (k : ℕ) (p : Phase)
      → i ≢ k
      → InPhase size c.vote_calls c.vote_answers c.elected k (node_at c k) p
      → InPhase size (call ∷ c.vote_calls) c.vote_answers c.elected k (node_at c k) p
  other-InPhase k (counting e w) other (out, x) = (
    out,
    record {
      inside = x.inside;
      current = x.current;
      latest = λ t camp. elim (Campaign-cons c.vote_calls camp) [
        | inl at ↦ absurd (other at.0)
        | inr before ↦ x.latest t before
      ];
      started = Campaign-grows call c.vote_calls x.started;
      unwon = x.unwon;
      tally = x.tally;
    },
  )
  other-InPhase k idle other h = h
  other-InPhase k following other h = h
  other-InPhase k starting other h = h
  other-InPhase k leading other h = h
  other-InPhase k stopped other h = h

  other-MemberInv :
      (k : ℕ)
      → i ≢ k
      → MemberInv size (call ∷ c.vote_calls) c.vote_answers c.elected k (node_at c k) (phase_at c k)
  other-MemberInv k other =
      let x = inv.members k in
      record {
        id = x.id;
        sized = x.sized;
        up = x.up;
        won = x.won;
        in_phase = other-InPhase k (phase_at c k) other x.in_phase;
      }

  -- The new election is of a term that neither a vote nor a win is of.
  not-voted :
      (v : VoteAnswer)
      → Among v c.vote_answers
      → v.reply.vote_granted ≡ true
      → Campaign (call ∷ c.vote_calls) v.term v.voter
      → Campaign c.vote_calls v.term v.voter
  not-voted v among granted camp = elim (Campaign-cons c.vote_calls camp) [
    | inr before ↦ before
    | inl e ↦ absurd (
        let past =
          subst (λ k. v.term ≤ℤ (node_at c k).current_term) (sym e.0)
            ((inv.answers v among).past granted) in
        omega (arith, newer v.term past, ap pos_part e.1, ap neg_part e.1))
  ]

  not-won :
      (w : Win) (j : ℕ)
      → Among w c.elected
      → Campaign (call ∷ c.vote_calls) w.term j
      → Campaign c.vote_calls w.term j
  not-won w j among camp = elim (Campaign-cons c.vote_calls camp) [
    | inr before ↦ before
    | inl e ↦ absurd (
        omega (
          arith,
          newer w.term ((inv.wins w among).past i within),
          ap pos_part e.1,
          ap neg_part e.1,
        ))
  ]

  quiet : Quiet (λ t. ⊥) n m
  quiet = Started-Quiet s old.in_phase

  pub campaign-Inv : Inv size (record (set_member c i m (counting el (peers_but i size))) {
    vote_calls = call ∷ c.vote_calls;
  })
  campaign-Inv = record {
    members = λ k.
        update-cases
          (λ (a : Member).
            MemberInv size (call ∷ c.vote_calls) c.vote_answers c.elected k a.node a.phase)
          c.member i _ k
          (λ e.
            subst
              (λ k.
                MemberInv size (call ∷ c.vote_calls) c.vote_answers c.elected k m
                  (counting el (peers_but i size)))
              e fresh-MemberInv)
          (other-MemberInv k);
    calls =
        Among-cons
          (λ q.
            (q.candidate < size)
            × CallInv c.elected q
                (node_at (set_member c i m (counting el (peers_but i size))) q.candidate))
          c.vote_calls
          (
            within,
            update-cases (λ (a : Member). CallInv c.elected call a.node) c.member i _ i
                (λ e. record {
                  own = s.asked.1 ∙ ap pos old.id;
                  past = rw s.asked.0 (omega arith);
                  bound = inl (inl (sym s.asked.0, s.voted ∙ ap pos old.id));
                })
                (λ e. absurd (e refl)),
          )
          (λ q among.
            let (inside, x) = inv.calls q among in
            (
              inside,
              update-at (λ (a : Member). CallInv c.elected q a.node) c.member i _ q.candidate
                  (λ e. moved-CallInv inv idle quiet (λ t h. absurd h) tt q among e x) x,
            ));
    answers = λ v among.
        let x = inv.answers v among in
        update-at (λ (a : Member). AnswerInv (call ∷ c.vote_calls) c.elected v a.node) c.member i _
          v.voter
          (λ e. record {
            past = ground (arith, quiet, x, e);
            rival = λ g camp. x.rival g (not-voted v among g camp);
          })
          (record { past = x.past; rival = λ g camp. x.rival g (not-voted v among g camp) });
    appends = inv.appends;
    wins = λ w among.
        let x = inv.wins w among in
        record {
          started = Campaign-grows call c.vote_calls x.started;
          past = λ j inside.
              update-at (λ (a : Member). w.term ≤ℤ a.node.current_term) c.member i _ j
                (λ e.
                  ground (arith, quiet, x.past j inside, ap (λ k. (node_at c k).current_term) e))
                (x.past j inside);
          alone = λ j other camp. x.alone j other (not-won w j among camp);
        };
  }
