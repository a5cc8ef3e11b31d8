-- ===== src/Raft/Cluster/Logs/Moves.antt =====
-- One node moves: its log grows or stays, and so does the one log.
use kvraft.Base.{ℕ, ◌<◌, ◌≡◌, ◌≢◌, sym, ap, subst, ◌⊎◌, inl, inr, List, length, arith}
use kvraft.Base.Int.{ℤ, ◌≤ℤ◌}
use kvraft.Raft.Types.{LogEntry, leader, AppendEntriesArgs}
use kvraft.Raft.Node.{Node}
use kvraft.Raft.Prefix.{Prefix, Prefix-refl, Prefix-trans, length-Prefix}
use kvraft.Raft.Cluster.{
  Phase, Member, VoteCall, VoteAnswer, Win, Cluster, Among, node_at, set_member,
}
use kvraft.Raft.Cluster.Keeps.{update-cases, update-at}
use kvraft.Raft.Cluster.Invariant.{Inv}
use kvraft.Raft.Cluster.Logs.{IsOver, CallLog, AnswerLog, FromLog, IsAscending, IsOwned, LogInv}

pub FromLog-grows :
    (log bigger : List LogEntry) (args : AppendEntriesArgs)
    → Prefix log bigger
    → FromLog log args
    → FromLog bigger args
FromLog-grows log bigger args h f = record {
  sent = f.sent;
  place = f.place;
  entry = f.entry;
  begins = Prefix-trans f.sent log bigger f.begins h;
  prev = f.prev;
  found = f.found;
  prev_term = f.prev_term;
  entries = f.entries;
}

-- How a node's log changes: not at all, or with a leader of the node's term or of a later one.
pub record Grows (wins : List Win) (n m : Node) : Type 0 where
  pub longer : Prefix n.log m.log
  pub term : n.current_term ≤ℤ m.current_term
  pub changed : (m.log ≡ n.log) ⊎ IsOver wins n.current_term

pub Grows-same :
    (wins : List Win) {n m : Node}
    → m.log ≡ n.log
    → n.current_term ≤ℤ m.current_term
    → Grows wins n m
Grows-same wins {n} {m} e t = record {
  longer = subst (λ l. Prefix n.log l) (sym e) (Prefix-refl n.log);
  term = t;
  changed = inl e;
}

IsOver-le : (wins : List Win) (t u : ℤ) → t ≤ℤ u → IsOver wins u → IsOver wins t
IsOver-le wins t u h (w, among, le) = (w, among, omega (arith, le))

module _ {size i : ℕ} {c : Cluster} (inv : Inv size c) {log : List LogEntry}
    (logs : LogInv size c log) {m : Node} (g : Grows c.elected (node_at c i) m) where
  moved-CallLog : (q : VoteCall) → Among q c.vote_calls → i ≡ q.candidate → CallLog c.elected q m
  moved-CallLog q among e = elim (logs.calls q among) [
    | inl over ↦ inl over
    | inr (inl past) ↦
        inr (inl (ground (arith, past, g.term, ap (λ k. (node_at c k).current_term) e)))
    | inr (inr sent) ↦ elim g.changed [
      | inl same ↦ inr (inr (rw same (rw e sent)))
      | inr over ↦ inl (
          IsOver-le c.elected q.args.term (node_at c i).current_term
            (ground (arith, (inv.calls q among).1.past, ap (λ k. (node_at c k).current_term) e))
            over)
    ]
  ]

  -- The voter moves, and then the candidate.
  voter-AnswerLog :
      (v : VoteAnswer)
      → Among v c.vote_answers
      → i ≡ v.voter
      → AnswerLog c.elected v m (node_at c v.candidate)
  voter-AnswerLog v among e granted = elim (logs.answers v among granted) [
    | inl over ↦ inl over
    | inr (inl past) ↦ inr (inl past)
    | inr (inr short) ↦ elim g.changed [
      | inl same ↦ inr (inr (rw same (rw e short)))
      | inr over ↦ inl (
          IsOver-le c.elected v.term (node_at c i).current_term
            (ground
              (arith, (inv.answers v among).past granted, ap (λ k. (node_at c k).current_term) e))
            over)
    ]
  ]

  candidate-AnswerLog :
      (v : VoteAnswer) (voter : Node)
      → AnswerLog c.elected v voter (node_at c v.candidate)
      → i ≡ v.candidate
      → AnswerLog c.elected v voter m
  candidate-AnswerLog v voter old e granted = elim (old granted) [
    | inl over ↦ inl over
    | inr (inl past) ↦
        inr (inl (ground (arith, past, g.term, ap (λ k. (node_at c k).current_term) e)))
    | inr (inr short) ↦ inr (
        inr (
          omega (
            arith,
            short,
            ap (λ k. length (node_at c k).log) e,
            length-Prefix (node_at c i).log m.log g.longer,
          )))
  ]

  pub moved-LogInv :
      (p : Phase) {bigger : List LogEntry}
      → Prefix log bigger
      → Prefix m.log bigger
      → (m.state ≡ leader → m.log ≡ bigger)
      → ((k : ℕ) → i ≢ k → (node_at c k).state ≡ leader → (node_at c k).log ≡ bigger)
      → (0 < size → (h : ℕ) × (h < size) × ((node_at (set_member c i m p) h).log ≡ bigger))
      → IsAscending bigger
      → IsOwned c.elected bigger
      → LogInv size (set_member c i m p) bigger
  moved-LogInv p {bigger} grows within here others held ascending owned = record {
    begins = λ k.
        update-at (λ (a : Member). Prefix a.node.log bigger) c.member i _ k (λ e. within)
          (Prefix-trans _ log bigger (logs.begins k) grows);
    leads = λ k.
        update-cases (λ (a : Member). a.node.state ≡ leader → a.node.log ≡ bigger) c.member i _ k
          (λ e. here) (others k);
    held = held;
    ascending = ascending;
    owned = owned;
    calls = λ q among.
        update-at (λ (a : Member). CallLog c.elected q a.node) c.member i _ q.candidate
          (moved-CallLog q among) (logs.calls q among);
    answers = λ v among.
        update-at
          (λ (a : Member). AnswerLog c.elected v (node_at (set_member c i m p) v.voter) a.node)
          c.member i _ v.candidate
          (λ e. candidate-AnswerLog v (node_at (set_member c i m p) v.voter) (voted v among) e)
          (voted v among);
    appends = λ a among. FromLog-grows log bigger a.args grows (logs.appends a among);
  }
    where
      voted :
          (v : VoteAnswer)
          → Among v c.vote_answers
          → AnswerLog c.elected v (node_at (set_member c i m p) v.voter) (node_at c v.candidate)
      voted v among =
          update-at (λ (a : Member). AnswerLog c.elected v a.node (node_at c v.candidate)) c.member
            i _ v.voter (voter-AnswerLog v among) (logs.answers v among)
