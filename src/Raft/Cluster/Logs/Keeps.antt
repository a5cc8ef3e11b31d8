-- ===== src/Raft/Cluster/Logs/Keeps.antt =====
-- The events that add nothing to the one log, and an election that is won.
use kvraft.Base.{ℕ, ◌<◌, ◌≡◌, ap, inl, inr, List, ◌∷◌, length, arith}
use kvraft.Base.Int.{ℤ}
use kvraft.Raft.Types.{LogEntry, leader}
use kvraft.Raft.Node.{Node}
use kvraft.Raft.Prefix.{Prefix, Prefix-refl, length-Prefix, Prefix-whole}
use kvraft.Raft.Cluster.{
  Phase, Member, VoteCall, VoteAnswer, AppendCall, AppendAnswer, Win, Cluster, node_at, set_member,
}
use kvraft.Raft.Cluster.Keeps.{update-at, Among-cons}
use kvraft.Raft.Cluster.Invariant.{Inv}
use kvraft.Raft.Cluster.Logs.{IsOver, Sent, CallLog, AnswerLog, FromLog, LogInv}
use kvraft.Raft.Cluster.Logs.Moves.{Grows, moved-LogInv}

module _ {size i : ℕ} {c : Cluster} (inv : Inv size c) {log : List LogEntry}
    (logs : LogInv size c log) {m : Node} (g : Grows c.elected (node_at c i) m) where
  -- The node that has the whole log keeps it.
  still_held :
      (p : Phase)
      → Prefix m.log log
      → 0 < size
      → (h : ℕ) × (h < size) × ((node_at (set_member c i m p) h).log ≡ log)
  still_held p within some_node =
      let (h, inside, e) = logs.held some_node in
      (
        h,
        inside,
        update-at (λ (a : Member). a.node.log ≡ log) c.member i _ h
            (λ same. Prefix-whole m.log log within (
              omega (
                arith,
                length-Prefix (node_at c i).log m.log g.longer,
                ap length e,
                ap (λ k. length (node_at c k).log) same,
              )))
            e,
      )

  pub kept-LogInv :
      (p : Phase)
      → Prefix m.log log
      → (m.state ≡ leader → m.log ≡ log)
      → LogInv size (set_member c i m p) log
  kept-LogInv p within here =
      moved-LogInv inv logs g p (Prefix-refl log) within here (λ k other. logs.leads k)
        (still_held p within) logs.ascending logs.owned

module _ {size : ℕ} {c : Cluster} {log : List LogEntry} (logs : LogInv size c log) where
  IsOver-grows : (w : Win) (t : ℤ) → IsOver c.elected t → IsOver (w ∷ c.elected) t
  IsOver-grows w t (u, among, le) = (u, inr among, le)

  pub add_win-LogInv : (w : Win) → LogInv size (record c { elected = w ∷ c.elected }) log
  add_win-LogInv w = record {
    begins = logs.begins;
    leads = logs.leads;
    held = logs.held;
    ascending = logs.ascending;
    owned = λ i e found. elim (logs.owned i e found) [
      | inl dummy ↦ inl dummy
      | inr (k, among) ↦ inr (k, inr among)
    ];
    calls = λ q among. elim (logs.calls q among) [
      | inl over ↦ inl (IsOver-grows w _ over)
      | inr rest ↦ inr rest
    ];
    answers = λ v among granted. elim (logs.answers v among granted) [
      | inl over ↦ inl (IsOver-grows w _ over)
      | inr rest ↦ inr rest
    ];
    appends = logs.appends;
  }

  pub add_call-LogInv :
      (q : VoteCall)
      → Sent q (node_at c q.candidate).log
      → LogInv size (record c { vote_calls = q ∷ c.vote_calls }) log
  add_call-LogInv q sent = record {
    begins = logs.begins;
    leads = logs.leads;
    held = logs.held;
    ascending = logs.ascending;
    owned = logs.owned;
    calls =
        Among-cons (λ u. CallLog c.elected u (node_at c u.candidate)) c.vote_calls (inr (inr sent))
          logs.calls;
    answers = logs.answers;
    appends = logs.appends;
  }

  pub add_answer-LogInv :
      (v : VoteAnswer)
      → AnswerLog c.elected v (node_at c v.voter) (node_at c v.candidate)
      → LogInv size (record c { vote_answers = v ∷ c.vote_answers }) log
  add_answer-LogInv v new = record {
    begins = logs.begins;
    leads = logs.leads;
    held = logs.held;
    ascending = logs.ascending;
    owned = logs.owned;
    calls = logs.calls;
    answers =
        Among-cons (λ u. AnswerLog c.elected u (node_at c u.voter) (node_at c u.candidate))
          c.vote_answers new logs.answers;
    appends = logs.appends;
  }

  pub add_append-LogInv :
      (a : AppendCall)
      → FromLog log a.args
      → LogInv size (record c { append_calls = a ∷ c.append_calls }) log
  add_append-LogInv a new = record {
    begins = logs.begins;
    leads = logs.leads;
    held = logs.held;
    ascending = logs.ascending;
    owned = logs.owned;
    calls = logs.calls;
    answers = logs.answers;
    appends = Among-cons (λ u. FromLog log u.args) c.append_calls new logs.appends;
  }

  pub add_append_answer-LogInv :
      (a : AppendAnswer) → LogInv size (record c { append_answers = a ∷ c.append_answers }) log
  add_append_answer-LogInv a = record {
    begins = logs.begins;
    leads = logs.leads;
    held = logs.held;
    ascending = logs.ascending;
    owned = logs.owned;
    calls = logs.calls;
    answers = logs.answers;
    appends = logs.appends;
  }
