-- ===== src/Raft/Cluster/Logs/Runs.antt =====
-- The one log of a cluster, from its start on.
use kvraft.Base.{ℕ, ◌≡◌, refl, sym, subst, Option, List, length, arith, Bytes}
use kvraft.Raft.Types.{LogEntry, RequestVoteReply}
use kvraft.Raft.Node.{Node, become_follower_locked, become_leader_locked, signal_all_replications}
use kvraft.Raft.Election.{Election, on_vote_reply, count_vote}
use kvraft.Raft.Prefix.{Prefix-trans}
use kvraft.Raft.Cluster.{
  idle, counting, Cluster, Among, node_at, phase_at, set_member, remove, after_reply, after_win,
  count_reply, Step, switch, wake, campaign, count, give_up, tick, stop, vote, send, append,
  replicate, alone, Steps, start, later,
}
use kvraft.Raft.Cluster.Quiet.{
  Quiet-refl, run_follower-Quiet, run_leader_tick-Quiet, handle_append_reply-Quiet,
  become_follower_locked-Quiet, Counted, stale, win, wait, on_vote_reply-Counted,
}
use kvraft.Raft.Cluster.Tallies.{all-Granted}
use kvraft.Raft.Cluster.Counts.{IsUnanimous, needs_all, not-leader}
use kvraft.Raft.Cluster.Preserved.{Steps-Inv, prepare_append-leads}
use kvraft.Raft.Cluster.Invariant.{Inv, MemberInv}
use kvraft.Raft.Cluster.Logs.{LogInv, FromLog}
use kvraft.Raft.Cluster.Logs.Moves.{Grows-same}
use kvraft.Raft.Cluster.Logs.Keeps.{
  kept-LogInv, add_win-LogInv, add_append-LogInv, add_append_answer-LogInv,
}
use kvraft.Raft.Cluster.Logs.Votes.{winner_has_log}
use kvraft.Raft.Cluster.Logs.Frame.{
  run_follower-log, run_leader_tick-log, handle_append_reply-log, prepare_append-FromLog,
}
use kvraft.Raft.Cluster.Logs.Steps.{
  same-LogInv, campaign-LogInv, vote-LogInv, append-LogInv, alone-LogInv, Grown, same_log,
}

module _ {size i : ℕ} {c : Cluster} (inv : Inv size c) {log : List LogEntry}
    (logs : LogInv size c log) (j : ℕ) (el : Election) (waiting : List ℕ) (reply : RequestVoteReply)
    (counts : phase_at c i ≡ counting el waiting) (asked : Among j waiting)
    (among : Among
      (record { candidate = i; voter = j; term = el.term; reply = reply })
      c.vote_answers)
    (unanimous : IsUnanimous size) where
  abbrev n : Node
  n = node_at c i

  old : MemberInv size c.vote_calls c.vote_answers c.elected i n (counting el waiting)
  old =
      subst (λ p. MemberInv size c.vote_calls c.vote_answers c.elected i n p) counts (inv.members i)

  abbrev after : Node × Option Election → Cluster
  after r = record (set_member c i r.0 (after_reply r.1 (remove j waiting))) {
    elected = after_win r.0 el c.elected;
  }

  Counted-LogInv : (r : Node × Option Election) → Counted n el reply r → LogInv size (after r) log
  unfolding after_reply after_win become_follower_locked become_leader_locked
      signal_all_replications
  Counted-LogInv r (stale newer e) =
      subst (λ r. LogInv size (after r) log) (sym e)
        (same-LogInv inv logs idle (become_follower_locked-Quiet n reply.term) refl)
  Counted-LogInv r (win enough current e) =
      subst (λ r. LogInv size (after r) log) (sym e)
        (add_win-LogInv
          (kept-LogInv inv logs (Grows-same c.elected refl (omega arith)) idle (logs.begins i) (λ _.
            winner_has_log inv logs old.in_phase.1
              (all-Granted inv j reply old.in_phase.0 old.in_phase.1 asked among
                (needs_all n size (count_vote el reply).votes old.sized unanimous enough))
              current))
          (record { term = el.term; leader = n.id }))
  Counted-LogInv r (wait e) =
      subst (λ r. LogInv size (after r) log) (sym e)
        (rw (not-leader n.state old.in_phase.0) (
          same-LogInv inv logs (counting (count_vote el reply) (remove j waiting))
            (Quiet-refl {over = λ t. ⊥} n) refl))

  count_reply-LogInv : LogInv size (count_reply c i j el waiting reply) log
  unfolding count_reply
  count_reply-LogInv = Counted-LogInv (on_vote_reply n el reply) (on_vote_reply-Counted n el reply)

pub Step-Grown :
    {peers : List Bytes} {c d : Cluster} {log : List LogEntry}
    → IsUnanimous (length peers)
    → Step peers c d
    → Inv (length peers) c
    → LogInv (length peers) c log
    → Grown (length peers) d log
Step-Grown {c} u (switch i within p) inv logs =
    same_log (same-LogInv inv logs _ (Quiet-refl {over = λ t. ⊥} (node_at c i)) refl)
Step-Grown {c} u (wake i event within p) inv logs = same_log (
    same-LogInv inv logs idle (run_follower-Quiet {over = λ t. ⊥} (node_at c i) event)
      (run_follower-log (node_at c i) event))
Step-Grown {peers} {c} u (campaign i args el within p h) inv logs = same_log (
    campaign-LogInv inv logs i args el _
      (subst (λ p. MemberInv (length peers) c.vote_calls c.vote_answers c.elected i (node_at c i) p)
        p (inv.members i)).in_phase
      h)
Step-Grown u (count i j el waiting reply within p asked among) inv logs =
    same_log (count_reply-LogInv inv logs j el waiting reply p asked among u)
Step-Grown {c} u (give_up i el waiting within p) inv logs =
    same_log (same-LogInv inv logs idle (Quiet-refl {over = λ t. ⊥} (node_at c i)) refl)
Step-Grown {c} u (tick i within p) inv logs = same_log (
    same-LogInv inv logs _ (run_leader_tick-Quiet {over = λ t. ⊥} (node_at c i))
      (run_leader_tick-log (node_at c i)))
Step-Grown {c} u (stop i within) inv logs =
    same_log (same-LogInv inv logs _ (Quiet-refl {over = λ t. ⊥} (node_at c i)) refl)
Step-Grown u (vote i j args within other among h) inv logs =
    same_log (vote-LogInv inv logs i j args other among h)
Step-Grown {c} {log} u (send i j args within to other h) inv logs =
    let cut = prepare_append-FromLog (node_at c i) j h in
    let all = logs.leads i (prepare_append-leads (node_at c i) j h).0 in
    same_log (
      add_append-LogInv logs (record { leader = i; peer = j; args = args })
        (subst (λ l. FromLog l args) all cut))
Step-Grown u (append i j args {reply} within among h) inv logs = same_log (
    add_append_answer-LogInv (append-LogInv inv logs i j args among h)
      (record { call = record { leader = i; peer = j; args = args }; reply = reply }))
Step-Grown {c} u (replicate i j args reply again within among h) inv logs = same_log (
    same-LogInv inv logs _ (handle_append_reply-Quiet {over = λ t. ⊥} (node_at c i) j args reply h)
      (handle_append_reply-log (node_at c i) j args reply h))
Step-Grown u (alone i within event) inv logs = alone-LogInv inv logs i event

pub Steps-Grown :
    {peers : List Bytes} {c d : Cluster} {log : List LogEntry}
    → IsUnanimous (length peers)
    → Steps peers c d
    → Inv (length peers) c
    → LogInv (length peers) c log
    → Grown (length peers) d log
Steps-Grown u start inv logs = same_log logs
Steps-Grown {log} u (later run step) inv logs =
    let before = Steps-Grown u run inv logs in
    let g = Step-Grown u step (Steps-Inv u run inv) before.logs in
    record {
      bigger = g.bigger;
      grows = Prefix-trans log before.bigger g.bigger before.grows g.grows;
      logs = g.logs;
    }
