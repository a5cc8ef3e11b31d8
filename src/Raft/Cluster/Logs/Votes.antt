-- ===== src/Raft/Cluster/Logs/Votes.antt =====
-- A vote compares logs, and so the winner of an election has the whole log.
use kvraft.Base.{
  Option-cases, ℕ, ◌-◌, ◌≤◌, ◌<◌, ◌≡◌, ◌≢◌, sym, ap, subst, ◌∙◌, inl, inr, true, some, List, length,
  get_elem?, arith, ℕ_discrete, dec_lt, get_elem?-lt,
}
use kvraft.Base.Int.{ℤ, pos, pos_part, neg_part}
use kvraft.Raft.Types.{LogEntry, RequestVoteArgs, RequestVoteReply}
use kvraft.Raft.Node.{Node, last_log_term, become_follower_locked}
use kvraft.Raft.Vote.{handle_request_vote, log_ok}
use kvraft.Raft.Election.{Election}
use kvraft.Raft.Prefix.{Prefix, Prefix-whole, get_elem?-Prefix}
use kvraft.Raft.Cluster.{Cluster, Among, node_at}
use kvraft.Raft.Cluster.Invariant.{Campaign, Inv, Counting, Granted}
use kvraft.Raft.Cluster.Logs.{IsOver, AnswerLog, IsAscending, LogInv}

module _ {size i : ℕ} {c : Cluster} (inv : Inv size c) {log : List LogEntry}
    (logs : LogInv size c log) {el : Election} {waiting : List ℕ}
    (k : Counting size c.vote_calls c.vote_answers c.elected i (node_at c i) el waiting)
    (all : (j : ℕ) → j < size → j ≢ i → Granted c.vote_answers el.term i j)
    (current : (node_at c i).current_term ≡ el.term) where
  not-IsOver : IsOver c.elected el.term → ⊥
  not-IsOver (w, among, le) =
      let x = inv.wins w among in
      let same : w.term ≡ el.term = ground (arith, x.past i k.inside, current, le) in
      elim (ℕ_discrete w.leader i) [
        | yes mine ↦ omega (
          arith,
          k.unwon w.term
              (subst (λ l. Among (record { term = w.term; leader = l }) c.elected) mine among),
          ap pos_part same,
          ap neg_part same,
        )
        | no other ↦
            x.alone i (λ e. other (sym e))
              (subst (λ t. Campaign c.vote_calls t i) (sym same) k.started)
      ]

  -- Every other node has compared its log with the candidate's, the one with the whole log too.
  pub winner_has_log : (node_at c i).log ≡ log
  winner_has_log =
      let (h, inside, e) = logs.held (omega (arith, k.inside)) in
      elim (ℕ_discrete h i) [
        | yes mine ↦ subst (λ j. (node_at c j).log ≡ log) mine e
        | no other ↦
            let (v, answered, to, by, when, granted) = all h inside other in
            elim (logs.answers v answered granted) [
              | inl over ↦ absurd (not-IsOver (subst (IsOver c.elected) when over))
              | inr (inl past) ↦
                  absurd
                    (ground (arith, past, when, current, ap (λ j. (node_at c j).current_term) to))
              | inr (inr short) ↦ Prefix-whole (node_at c i).log log (logs.begins i) (
                  omega (
                    arith,
                    short,
                    ap length e,
                    ap (λ j. length (node_at c j).log) by,
                    ap (λ j. length (node_at c j).log) to,
                  ))
            ]
      ]

last_log_term-entry :
    (log : List LogEntry) (t : ℤ)
    → last_log_term log ≡ some t
    → (e : LogEntry) × (get_elem? log (length log - 1) ≡ some e) × (e.term ≡ t)
unfolding last_log_term
last_log_term-entry log t h = elim (Option-cases (get_elem? log (length log - 1))) [
  | inl missing ↦ absurd (ground (arith, missing))
  | inr (e, found) ↦ (e, found, ground (arith, found))
]

-- What a node has found out about the candidate that it votes for.
granted-log_ok :
    (n : Node) (args : RequestVoteArgs) {m : Node} {reply : RequestVoteReply}
    → handle_request_vote n args ≡ some (m, reply)
    → reply.vote_granted ≡ true
    → (t : ℤ) × (last_log_term n.log ≡ some t) × (log_ok args t (pos (length n.log - 1)) ≡ true)
unfolding handle_request_vote become_follower_locked
granted-log_ok n args h g = elim (Option-cases (last_log_term n.log)) [
  | inl missing ↦ absurd (ground (arith, missing))
  | inr (t, found) ↦ (t, found, ground (arith, found))
]

-- Of two beginnings of one log whose terms do not fall, the one that is good enough is no shorter.
log_ok-length :
    (mine theirs log : List LogEntry) (args : RequestVoteArgs) (t : ℤ)
    → IsAscending log
    → Prefix mine log
    → Prefix theirs log
    → last_log_term mine ≡ some t
    → args.last_log_index ≡ pos (length theirs - 1)
    → last_log_term theirs ≡ some args.last_log_term
    → log_ok args t (pos (length mine - 1)) ≡ true
    → length mine ≤ length theirs
log_ok-length mine theirs log args t up hm ht lm index lt ok =
    let (e, found_e, te) = last_log_term-entry mine t lm in
    let (f, found_f, tf) = last_log_term-entry theirs args.last_log_term lt in
    let inside_e = get_elem?-lt mine (length mine - 1) found_e in
    let inside_f = get_elem?-lt theirs (length theirs - 1) found_f in
    elim (dec_lt (length theirs) (length mine)) [
      | no le ↦ omega (arith, le)
      | yes lt ↦ absurd (
          let below =
            up (length theirs - 1) (length mine - 1) f e (omega (arith, lt))
              (get_elem?-Prefix theirs log (length theirs - 1) ht inside_f ∙ found_f)
              (get_elem?-Prefix mine log (length mine - 1) hm inside_e ∙ found_e) in
          ground (arith, below, tf, te, ok, index, lt))
    ]

pub vote-AnswerLog :
    {size : ℕ} {c : Cluster} {log : List LogEntry} (logs : LogInv size c log) (i j : ℕ)
    (args : RequestVoteArgs) {m : Node} {reply : RequestVoteReply}
    → Among (record { candidate = i; args = args }) c.vote_calls
    → handle_request_vote (node_at c j) args ≡ some (m, reply)
    → AnswerLog c.elected
        (record { candidate = i; voter = j; term = args.term; reply = reply })
        (node_at c j)
        (node_at c i)
vote-AnswerLog {c} {log} logs i j args among h granted = elim (logs.calls _ among) [
  | inl over ↦ inl over
  | inr (inl past) ↦ inr (inl past)
  | inr (inr (index, last)) ↦
      let (t, mine, ok) = granted-log_ok (node_at c j) args h granted in
      inr (
        inr (
          log_ok-length (node_at c j).log (node_at c i).log log args t logs.ascending
            (logs.begins j) (logs.begins i) mine index last ok))
]
