-- ===== src/Raft/Cluster/Keeps.antt =====
-- The events of a cluster that start no election and win none.
use kvraft.Base.{
  ◌≢◌, length, subst, sym, ℕ, ◌≡◌, ap, refl, inl, inr, List, ◌∷◌, arith, ◌==◌, Bool-cases,
}
use kvraft.Base.Int.{ℤ, ◌≤ℤ◌}
use kvraft.Raft.Node.{Node, update}
use kvraft.Raft.Election.{Election}
use kvraft.Raft.Cluster.{
  Phase, idle, following, starting, leading, stopped, counting, Member, VoteCall, VoteAnswer,
  AppendCall, AppendAnswer, Cluster, node_at, phase_at, set_member, Among,
}
use kvraft.Raft.Cluster.Quiet.{Quiet}
use kvraft.Raft.Cluster.Invariant.{
  Campaign, HasLeader, InPhase, MemberInv, CallInv, AnswerInv, Inv, Tally,
}

-- What holds of the new value, if `k` is the place that changes, and of the old one, if it is not,
-- holds after the change.
pub update-cases :
    {A : Type 0} (P : A → Type 0) (f : ℕ → A) (i : ℕ) (a : A) (k : ℕ)
    → (i ≡ k → P a)
    → (i ≢ k → P (f k))
    → P (update f i a k)
update-cases P f i a k new old = elim (Bool-cases (i == k)) [
  | inl same ↦ rw same (new (ground (arith, same)))
  | inr other ↦ rw other (old (ground (arith, other)))
]

pub update-at :
    {A : Type 0} (P : A → Type 0) (f : ℕ → A) (i : ℕ) (a : A) (k : ℕ)
    → (i ≡ k → P a)
    → P (f k)
    → P (update f i a k)
update-at P f i a k new old = update-cases P f i a k new (λ _. old)

module _ {over : ℤ → Type 0} {size i : ℕ} {c : Cluster} (inv : Inv size c) {m : Node} (p : Phase)
    (quiet : Quiet over (node_at c i) m)
    (led : (t : ℤ) → over t → Campaign c.vote_calls t i → HasLeader c.elected t)
    (in_phase : InPhase size c.vote_calls c.vote_answers c.elected i m p) where
  moved-MemberInv : MemberInv size c.vote_calls c.vote_answers c.elected i m p
  moved-MemberInv = record {
    id = ground (arith, quiet, inv.members i);
    sized = ground (arith, ap length quiet.peers, inv.members i);
    up = omega (arith, (inv.members i).up, quiet.term);
    won = λ l. let (was, same) = quiet.leads l in rw same ((inv.members i).won was);
    in_phase = in_phase;
  }

  pub moved-CallInv :
      (q : VoteCall)
      → Among q c.vote_calls
      → i ≡ q.candidate
      → CallInv c.elected q (node_at c q.candidate)
      → CallInv c.elected q m
  moved-CallInv q among e old = record {
    own = old.own;
    past = ground (arith, quiet, e, old);
    bound = elim old.bound [
      | inr led_before ↦ inr led_before
      | inl bound ↦ elim (quiet.bound q.args.term q.candidate (rw e bound)) [
        | inl kept ↦ inl kept
        | inr over_now ↦ inr (led q.args.term over_now (q, among, sym e, refl))
      ]
    ];
  }

  pub set_member-Inv : Inv size (set_member c i m p)
  set_member-Inv = record {
    members = λ k.
        update-at
          (λ (a : Member). MemberInv size c.vote_calls c.vote_answers c.elected k a.node a.phase)
          c.member i _ k
          (λ e.
            subst (λ k. MemberInv size c.vote_calls c.vote_answers c.elected k m p) e
              moved-MemberInv)
          (inv.members k);
    calls = λ q among.
        let (inside, old) = inv.calls q among in
        (
          inside,
          update-at (λ (a : Member). CallInv c.elected q a.node) c.member i _ q.candidate
              (λ e. moved-CallInv q among e old) old,
        );
    answers = λ v among.
        let old = inv.answers v among in
        update-at (λ (a : Member). AnswerInv c.vote_calls c.elected v a.node) c.member i _ v.voter
          (λ e. record { past = ground (arith, quiet, old, e); rival = old.rival }) old;
    appends = inv.appends;
    wins = λ w among.
        let old = inv.wins w among in
        record {
          started = old.started;
          past = λ j inside.
              update-at (λ (a : Member). w.term ≤ℤ a.node.current_term) c.member i _ j
                (λ e.
                  ground (arith, quiet, old.past j inside, ap (λ k. (node_at c k).current_term) e))
                (old.past j inside);
          alone = old.alone;
        };
  }

-- What holds of a new element and of the old ones.
pub Among-cons :
    {A : Type 0} (P : A → Type 0) {x : A} (xs : List A)
    → P x
    → ((y : A) → Among y xs → P y)
    → (y : A) → Among y (x ∷ xs)
    → P y
Among-cons P {x} xs new old y (inl e) = subst P (sym e) new
Among-cons P xs new old y (inr among) = old y among

module _ {size : ℕ} {c : Cluster} (inv : Inv size c) where
  Tally-grows :
      (v : VoteAnswer) (i : ℕ) (el : Election) (waiting : List ℕ)
      → Tally size c.vote_answers i el waiting
      → Tally size (v ∷ c.vote_answers) i el waiting
  Tally-grows v i el waiting (inl few) = inl few
  Tally-grows v i el waiting (inr (all, each)) = inr (
    all,
    λ j inside other. elim (each j inside other) [
      | inl asked ↦ inl asked
      | inr (u, among, to, by, when, granted) ↦ inr (u, inr among, to, by, when, granted)
    ],
  )

  InPhase-grows :
      (v : VoteAnswer) (i : ℕ) (n : Node) (p : Phase)
      → InPhase size c.vote_calls c.vote_answers c.elected i n p
      → InPhase size c.vote_calls (v ∷ c.vote_answers) c.elected i n p
  InPhase-grows v i n (counting el waiting) (out, k) = (
    out,
    record {
      inside = k.inside;
      current = k.current;
      latest = k.latest;
      started = k.started;
      unwon = k.unwon;
      tally = Tally-grows v i el waiting k.tally;
    },
  )
  InPhase-grows v i n idle h = h
  InPhase-grows v i n following h = h
  InPhase-grows v i n starting h = h
  InPhase-grows v i n leading h = h
  InPhase-grows v i n stopped h = h

  pub add_answer-Inv :
      (v : VoteAnswer)
      → AnswerInv c.vote_calls c.elected v (node_at c v.voter)
      → Inv size (record c { vote_answers = v ∷ c.vote_answers })
  add_answer-Inv v new = record {
    members = λ k.
        let old = inv.members k in
        record {
          id = old.id;
          sized = old.sized;
          up = old.up;
          won = old.won;
          in_phase = InPhase-grows v k (node_at c k) (phase_at c k) old.in_phase;
        };
    calls = inv.calls;
    answers =
        Among-cons (λ u. AnswerInv c.vote_calls c.elected u (node_at c u.voter)) c.vote_answers new
          inv.answers;
    appends = inv.appends;
    wins = inv.wins;
  }

  pub add_append-Inv :
      (a : AppendCall)
      → Among (record { term = a.args.term; leader = a.leader }) c.elected
      → Inv size (record c { append_calls = a ∷ c.append_calls })
  add_append-Inv a new = record {
    members = inv.members;
    calls = inv.calls;
    answers = inv.answers;
    appends =
        Among-cons (λ u. Among (record { term = u.args.term; leader = u.leader }) c.elected)
          c.append_calls new inv.appends;
    wins = inv.wins;
  }

  pub add_append_answer-Inv :
      (a : AppendAnswer) → Inv size (record c { append_answers = a ∷ c.append_answers })
  add_append_answer-Inv a = record {
    members = inv.members;
    calls = inv.calls;
    answers = inv.answers;
    appends = inv.appends;
    wins = inv.wins;
  }
