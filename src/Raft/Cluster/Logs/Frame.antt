-- ===== src/Raft/Cluster/Logs/Frame.antt =====
-- What each handler does to the log of its node.
use kvraft.Base.{
  ℕ, suc, zero, ◌+◌, ◌≡◌, refl, ap, ◌∙◌, ◌⊎◌, inl, inr, Bool, false, some, length, arith, get_elem?,
  ◌∷◌, ◌++◌, [], List, Option-cases, Bool-cases,
}
use kvraft.Base.Int.{pos, ◌≤ℤ◌, pos_part}
use kvraft.Raft.Types.{
  RequestVoteReply, AppendEntriesArgs, AppendEntriesReply, leader, LogEntry, NodeState,
}
use kvraft.Raft.Node.{
  is_leader_state, Node, become_follower_locked, become_leader_locked, signal_all_replications,
  update,
}
use kvraft.Raft.Append.{handle_append_entries}
use kvraft.Raft.Append.Safety.{handle_append_entries-AppendEffect, merged}
use kvraft.Raft.Prefix.{Prefix, Prefix-refl, Prefix-either, merged-Prefix, merged-longer}
use kvraft.Raft.Commit.{applier_wakes, apply_next, try_advance_commit_index_locked}
use kvraft.Raft.Commit.Frame.{try_advance_commit_index_locked-Committed}
use kvraft.Raft.Election.{
  run_leader_tick, Election, FollowerEvent, heartbeat, vote, election_timer, run_follower,
  on_vote_reply, submit,
}
use kvraft.Raft.Replication.{replication_worker_wakes, handle_append_reply, prepare_append}
use kvraft.Raft.Cluster.{Local, accept, trigger, notified, apply}
use kvraft.Raft.Cluster.Logs.{FromLog}

pub run_follower-log : (n : Node) (event : FollowerEvent) → (run_follower n event).log ≡ n.log
unfolding run_follower
run_follower-log n heartbeat = refl
run_follower-log n vote = refl
run_follower-log n election_timer = refl

pub run_leader_tick-log : (n : Node) → (run_leader_tick n).0.log ≡ n.log
unfolding run_leader_tick signal_all_replications
run_leader_tick-log n = ground arith

pub on_vote_reply-log :
    (n : Node) (el : Election) (reply : RequestVoteReply) → (on_vote_reply n el reply).0.log ≡ n.log
unfolding on_vote_reply become_follower_locked become_leader_locked signal_all_replications
on_vote_reply-log n el reply = ground arith

pub handle_append_reply-log :
    (n : Node) (peer : ℕ) (args : AppendEntriesArgs) (reply : AppendEntriesReply) {m : Node}
    {again : Bool}
    → handle_append_reply n peer args reply ≡ some (m, again)
    → m.log ≡ n.log
unfolding handle_append_reply become_follower_locked
handle_append_reply-log n peer args reply h =
    elim (Option-cases (try_advance_commit_index_locked known)) [
      | inl panics ↦ ground (arith, panics)
      | inr (k, runs) ↦
          let frame = try_advance_commit_index_locked-Committed known runs in
          ground (arith, runs, frame.same)
    ]
  where
    match : ℕ
    match = pos_part args.prev_log_index + length args.entries

    known : Node
    known = record n {
      match_index = update n.match_index peer match;
      next_index = update n.next_index peer (match + 1);
    }

leads_or_not : (s : NodeState) → (s ≡ leader) ⊎ (is_leader_state s ≡ false)
leads_or_not s = ground arith

-- Only a leader appends what a client submits.
pub Local-log :
    {n m : Node}
    → Local n m
    → (m.log ≡ n.log)
      ⊎ ((e : LogEntry) × (n.state ≡ leader)
          × (m.current_term ≡ n.current_term)
          × (e.term ≡ n.current_term)
          × (e.index ≡ pos (length n.log))
          × (m.log ≡ n.log ++ e ∷ []))
unfolding submit signal_all_replications replication_worker_wakes applier_wakes apply_next
Local-log {n} (accept cmd) = elim (leads_or_not n.state) [
  | inl l ↦ rw l (
      inr (
        record { term = n.current_term; index = pos (length n.log); command = cmd },
        refl,
        refl,
        refl,
        refl,
        refl,
      ))
  | inr other ↦ inl (rw other refl)
]
Local-log (trigger peer h) = inl (ground arith)
Local-log (notified h) = inl (ground arith)
Local-log (apply msg h) = inl (ground arith)

pub prepare_append-FromLog :
    (n : Node) (peer : ℕ) {args : AppendEntriesArgs}
    → prepare_append n peer ≡ some args
    → FromLog n.log args
unfolding prepare_append
prepare_append-FromLog n peer {args} h = elim (leads_or_not n.state) [
  | inr other ↦ absurd (ground (arith, other))
  | inl l ↦ from l (n.next_index peer) refl
]
  where
    from : n.state ≡ leader → (k : ℕ) → n.next_index peer ≡ k → FromLog n.log args
    from l zero e = absurd (ground (arith, e, l))
    from l (suc prev) e = elim (Option-cases (get_elem? n.log prev)) [
      | inl missing ↦ absurd (ground (arith, e, missing))
      | inr (entry, found) ↦ record {
        sent = n.log;
        place = prev;
        entry = entry;
        begins = Prefix-refl n.log;
        prev = ground (arith, e, found);
        found = found;
        prev_term = ground (arith, e, found);
        entries = ground (arith, e, found);
      }
    ]

-- A message that is cut from the one log brings a node that has a beginning of it no conflict.
pub handle_append_entries-log :
    (n : Node) (log : List LogEntry) (args : AppendEntriesArgs) {m : Node}
    {reply : AppendEntriesReply}
    → Prefix n.log log
    → FromLog log args
    → handle_append_entries n args ≡ some (m, reply)
    → (m.log ≡ n.log) ⊎ (Prefix n.log m.log × Prefix m.log log × (n.current_term ≤ℤ args.term))
handle_append_entries-log n log args {m} {reply} within f h =
    let effect = handle_append_entries-AppendEffect n args f.place f.prev h in
    elim (Bool-cases reply.success) [
      | inr refused ↦ inl (effect.refused refused).0
      | inl ok ↦
          let (term, inside, merges, _) = effect.accepted ok in
          let joined = merges ∙ ap (merged n.log f.place) f.entries in
          elim (Prefix-either n.log f.sent log within f.begins) [
            | inr longer ↦ inl (joined ∙ merged-longer n.log f.sent f.place longer)
            | inl shorter ↦
                let all = joined ∙ merged-Prefix n.log f.sent f.place inside shorter in
                inr (rw all shorter, rw all f.begins, ground (arith, effect.term_grows, term))
          ]
    ]
