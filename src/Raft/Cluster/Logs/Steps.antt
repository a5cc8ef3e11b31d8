-- ===== src/Raft/Cluster/Logs/Steps.antt =====
-- Every step of a cluster keeps the one log, or adds an entry to its end.
use kvraft.Base.{
  ℕ, zero, suc, ◌-◌, ◌≡◌, ◌≢◌, refl, sym, ap, subst, inl, inr, some, List, [], ◌∷◌, ◌++◌, length,
  arith, Bytes,
}
use kvraft.Base.Int.{ℤ, pos}
use kvraft.Raft.Types.{
  LogEntry, leader, AppendEntriesArgs, AppendEntriesReply, RequestVoteArgs, RequestVoteReply,
}
use kvraft.Raft.Node.{Node, last_log_term, new_node, dummy_entry}
use kvraft.Raft.Election.{Election, start_election}
use kvraft.Raft.Prefix.{Prefix, Prefix-refl, length-Prefix, Prefix-whole, Prefix-append}
use kvraft.Raft.Vote.Safety.{handle_request_vote-VoteEffect}
use kvraft.Raft.Cluster.{
  Phase, counting, Member, Cluster, Among, node_at, phase_at, set_member, Local, new_cluster,
}
use kvraft.Raft.Cluster.Quiet.{
  handle_request_vote-Quiet, handle_append_entries-Quiet, Local-Quiet, Quiet,
}
use kvraft.Raft.Cluster.Keeps.{update-cases}
use kvraft.Raft.Append.{handle_append_entries}
use kvraft.Raft.Vote.{handle_request_vote}
use kvraft.Raft.Cluster.Starts.{Started-Quiet, start_election-Started}
use kvraft.Raft.Cluster.Logs.Submit.{submit-LogInv}
use kvraft.Raft.Cluster.Invariant.{Inv}
use kvraft.Raft.Cluster.Logs.{Sent, AnswerLog, IsAscending, IsOwned, LogInv}
use kvraft.Raft.Cluster.Logs.Moves.{Grows, Grows-same}
use kvraft.Raft.Cluster.Logs.Keeps.{kept-LogInv, add_call-LogInv, add_answer-LogInv}
use kvraft.Raft.Cluster.Logs.Votes.{vote-AnswerLog}
use kvraft.Raft.Cluster.Logs.Frame.{Local-log, handle_append_entries-log}

pub new_cluster-LogInv :
    (peers : List Bytes) → LogInv (length peers) (new_cluster peers) (dummy_entry ∷ [])
unfolding new_cluster new_node
new_cluster-LogInv peers = record {
  begins = λ i. Prefix-refl (dummy_entry ∷ []);
  leads = λ i h. refl;
  held = λ some_node. (0, some_node, refl);
  ascending = ascending;
  owned = owned;
  calls = λ q h. absurd h;
  answers = λ v h. absurd h;
  appends = λ a h. absurd h;
}
  where
    ascending : IsAscending (dummy_entry ∷ [])
    ascending zero zero e f h he hf = ground (arith, he, hf)
    ascending i (suc j) e f h he hf = absurd (ground (arith, hf))
    ascending (suc i) zero e f h he hf = absurd (omega (arith, h))

    owned : IsOwned [] (dummy_entry ∷ [])
    owned zero e h = inl (ground (arith, h))
    owned (suc i) e h = absurd (ground (arith, h))

module _ {size i : ℕ} {c : Cluster} (inv : Inv size c) {log : List LogEntry}
    (logs : LogInv size c log) where
  -- A node that is not elected by the event.
  Quiet-LogInv :
      {over : ℤ → Type 0} {m : Node} (p : Phase)
      → Quiet over (node_at c i) m
      → Grows c.elected (node_at c i) m
      → Prefix m.log log
      → LogInv size (set_member c i m p) log
  Quiet-LogInv {m} p q g within = kept-LogInv inv logs g p within (λ l.
      Prefix-whole m.log log within (
        omega (
          arith,
          length-Prefix (node_at c i).log m.log g.longer,
          ap length (logs.leads i (q.leads l).0),
        )))

  -- A node whose log stays.
  pub same-LogInv :
      {over : ℤ → Type 0} {m : Node} (p : Phase)
      → Quiet over (node_at c i) m
      → m.log ≡ (node_at c i).log
      → LogInv size (set_member c i m p) log
  same-LogInv p q e =
      Quiet-LogInv p q (Grows-same c.elected e q.term)
        (subst (λ l. Prefix l log) (sym e) (logs.begins i))

-- The one log after a step, longer by what was submitted.
pub record Grown (size : ℕ) (d : Cluster) (log : List LogEntry) : Type 0 where
  pub bigger : List LogEntry
  pub grows : Prefix log bigger
  pub logs : LogInv size d bigger

pub same_log : {size : ℕ} {d : Cluster} {log : List LogEntry} → LogInv size d log → Grown size d log
same_log {log} logs = record { bigger = log; grows = Prefix-refl log; logs = logs }

start_election-Sent :
    (n : Node) {m : Node} (args : RequestVoteArgs) (el : Election)
    → start_election n ≡ some (m, args, el)
    → (args.last_log_index ≡ pos (length n.log - 1))
      × (last_log_term n.log ≡ some args.last_log_term)
unfolding start_election
start_election-Sent n args el h = ground arith

module _ {size : ℕ} {c : Cluster} (inv : Inv size c) {log : List LogEntry}
    (logs : LogInv size c log) where
  pub campaign-LogInv :
      (i : ℕ) {m : Node} (args : RequestVoteArgs) (el : Election) (waiting : List ℕ)
      → (node_at c i).state ≢ leader
      → start_election (node_at c i) ≡ some (m, args, el)
      → LogInv size
          (record (set_member c i m (counting el waiting)) {
            vote_calls = record { candidate = i; args = args } ∷ c.vote_calls;
          })
          log
  campaign-LogInv i {m} args el waiting out h =
      let s = start_election-Started (node_at c i) h in
      add_call-LogInv (same-LogInv inv logs (counting el waiting) (Started-Quiet s out) s.kept.3)
        (record { candidate = i; args = args })
        (update-cases (λ (a : Member). Sent (record { candidate = i; args = args }) a.node.log)
          c.member i _ i (λ e. rw s.kept.3 (start_election-Sent (node_at c i) args el h))
          (λ e. absurd (e refl)))

  pub vote-LogInv :
      (i j : ℕ) (args : RequestVoteArgs) {m : Node} {reply : RequestVoteReply}
      → i ≢ j
      → Among (record { candidate = i; args = args }) c.vote_calls
      → handle_request_vote (node_at c j) args ≡ some (m, reply)
      → LogInv size
          (record (set_member c j m (phase_at c j)) {
            vote_answers =
                record { candidate = i; voter = j; term = args.term; reply = reply }
                ∷ c.vote_answers;
          })
          log
  vote-LogInv i j args {m} {reply} other among h =
      let kept = (handle_request_vote-VoteEffect (node_at c j) args h).log_kept in
      add_answer-LogInv
        (same-LogInv inv logs (phase_at c j)
          (handle_request_vote-Quiet {over = λ t. ⊥} (node_at c j) args h) kept)
        (record { candidate = i; voter = j; term = args.term; reply = reply })
        (update-cases
          (λ (a : Member).
            AnswerLog c.elected
              (record { candidate = i; voter = j; term = args.term; reply = reply })
              (node_at (set_member c j m (phase_at c j)) j) a.node)
          c.member j _ i (λ e. absurd (other (sym e)))
          (λ _.
            update-cases
              (λ (a : Member).
                AnswerLog c.elected
                  (record { candidate = i; voter = j; term = args.term; reply = reply }) a.node
                  (node_at c i))
              c.member j _ j (λ e granted. rw kept (vote-AnswerLog logs i j args among h granted))
              (λ e. absurd (e refl))))

  pub append-LogInv :
      (i j : ℕ) (args : AppendEntriesArgs) {m : Node} {reply : AppendEntriesReply}
      → Among (record { leader = i; peer = j; args = args }) c.append_calls
      → handle_append_entries (node_at c j) args ≡ some (m, reply)
      → LogInv size (set_member c j m (phase_at c j)) log
  append-LogInv i j args among h =
      let q = handle_append_entries-Quiet (node_at c j) args h in
      elim (handle_append_entries-log (node_at c j) log args (logs.begins j) (logs.appends _ among)
        h) [
          | inl same ↦ same-LogInv inv logs (phase_at c j) q same
          | inr (longer, within, le) ↦
              Quiet-LogInv inv logs (phase_at c j) q
                (record {
                  longer = longer;
                  term = q.term;
                  changed = inr (_, inv.appends _ among, le);
                })
                within
        ]

  pub alone-LogInv :
      (i : ℕ) {m : Node} → Local (node_at c i) m → Grown size (set_member c i m (phase_at c i)) log
  alone-LogInv i {m} event = elim (Local-log event) [
    | inl same ↦
        same_log (same-LogInv inv logs (phase_at c i) (Local-Quiet {over = λ t. ⊥} event) same)
    | inr (e, leads, term, own, index, adds) ↦ record {
      bigger = log ++ e ∷ [];
      grows = Prefix-append log (e ∷ []);
      logs = submit-LogInv inv logs e leads own m (phase_at c i) term adds;
    }
  ]
