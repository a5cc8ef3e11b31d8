-- ===== src/Raft/Run/Applied.antt =====
-- What a node sends to the state machine, and the invariant along a whole run.
use kvraft.Base.{
  ℕ, ◌+◌, ◌≤◌, ◌<◌, ◌≡◌, refl, ◌∙◌, ap, ◌⊎◌, inl, inr, Option, none, some, List, [], ◌∷◌, arith,
  get_elem?, get_elem?-some, ltb, Bool-cases, ltb→lt, not-ltb→le,
}
use kvraft.Base.Int.{pos, ◌≤ℤ◌}
use kvraft.Raft.Types.{LogEntry, ApplyMsg}
use kvraft.Raft.Node.{Node, IsValid}
use kvraft.Raft.Indexed.{Indexed-get_elem?}
use kvraft.Raft.Commit.{apply_next}
use kvraft.Raft.Run.{
  tick, trigger, notified, Step, vote, append, wake, campaign, count, accept, replicate, apply,
  emit, Run, done, next,
}
use kvraft.Raft.Run.Invariant.{
  run_leader_tick-Later, replication_worker_wakes-Later, applier_wakes-Later, Later, vote-Later,
  append-Later, run_follower-Later, start_election-Later, on_vote_reply-Later, submit-Later,
  handle_append_reply-Later,
}

abbrev pub message : LogEntry → ApplyMsg
message e = record { index = e.index; term = e.term; command = e.command }

-- The applier sends the first committed entry that it has not sent, or all are sent.
pub apply_next-cases :
    (n : Node)
    → IsValid n
    → ((n.last_applied ≡ n.commit_index) × (apply_next n ≡ some (none, n)))
      ⊎ ((e : LogEntry) × (get_elem? n.log (n.last_applied + 1) ≡ some e)
          × (n.last_applied < n.commit_index)
          × (apply_next n
              ≡ some (some (message e), record n { last_applied = n.last_applied + 1 })))
unfolding apply_next
apply_next-cases n v = elim (Bool-cases (ltb n.last_applied n.commit_index)) [
  | inr idle ↦
      inl (omega (arith, v.applied, not-ltb→le n.last_applied n.commit_index idle), rw idle)
  | inl more ↦
      let behind = ltb→lt n.last_applied n.commit_index more in
      let (e, found) = get_elem?-some n.log (n.last_applied + 1) (omega (arith, v.committed)) in
      inr (e, found, behind, ground (arith, more, found))
]

-- The messages carry the places that follow `last`, one after another, and end at `final`.
abbrev pub InOrder : ℕ → List ApplyMsg → ℕ → Type 0
InOrder last [] final = final ≡ last
InOrder last (msg ∷ msgs) final = (msg.index ≡ pos (last + 1)) × InOrder (last + 1) msgs final

pub record Progress (n m : Node) : Type 0 where
  pub valid : IsValid m
  pub commit : n.commit_index ≤ m.commit_index
  pub term : n.current_term ≤ℤ m.current_term

Later-Progress : {n m : Node} → Later n m → Progress n m
Later-Progress l = record { valid = l.valid; commit = l.commit; term = l.term }

-- The place behind which the next message stands, after an event.
abbrev Moves : Node → Option ApplyMsg → Node → Type 0
Moves n none m = m.last_applied ≡ n.last_applied
Moves n (some msg) m =
    (msg.index ≡ pos (n.last_applied + 1)) × (m.last_applied ≡ n.last_applied + 1)

apply-Progress :
    (n : Node) (msg : Option ApplyMsg) {m : Node}
    → IsValid n
    → apply_next n ≡ some (msg, m)
    → Progress n m × Moves n msg m
apply-Progress n msg {m} v h = elim (apply_next-cases n v) [
  | inl (all_sent, idle) ↦
      let nothing : msg ≡ none = cc (h, idle) in
      let same : m ≡ n = cc (h, idle) in
      rw (nothing, same) (record { valid = v; commit = omega arith; term = omega arith }, refl)
  | inr (e, found, behind, sent) ↦
      let one : msg ≡ some (message e) = cc (h, sent) in
      let moved : m ≡ record n { last_applied = n.last_applied + 1 } = cc (h, sent) in
      rw (one, moved)
        (
          record {
            valid = record { committed = v.committed; applied = omega arith; indexed = v.indexed };
            commit = omega arith;
            term = omega arith;
          },
          (
            Indexed-get_elem? 0 (n.last_applied + 1) n.log v.indexed found
                ∙ (let e0 : 0 + (n.last_applied + 1) ≡ n.last_applied + 1 = omega arith in
                    ap pos e0),
            refl,
          ),
        )
]

pub Step-Progress :
    {n m : Node} {msg : Option ApplyMsg} → IsValid n → Step n msg m → Progress n m × Moves n msg m
Step-Progress {n} v (vote args reply h) =
    let l = vote-Later n args v h in (Later-Progress l, l.applied)
Step-Progress {n} v (append args reply p prev at_places agrees h) =
    let l = append-Later n args p v prev at_places agrees h in (Later-Progress l, l.applied)
Step-Progress {n} v (wake event) =
    let l = run_follower-Later n event v in (Later-Progress l, l.applied)
Step-Progress {n} v (campaign args el h) =
    let l = start_election-Later n v h in (Later-Progress l, l.applied)
Step-Progress {n} v (count el reply) =
    let l = on_vote_reply-Later n el reply v in (Later-Progress l, l.applied)
Step-Progress {n} v (accept cmd) = let l = submit-Later n cmd v in (Later-Progress l, l.applied)
Step-Progress {n} v (replicate peer args reply again h) =
    let l = handle_append_reply-Later n peer args reply v h in (Later-Progress l, l.applied)
Step-Progress {n} v tick = let l = run_leader_tick-Later n v in (Later-Progress l, l.applied)
Step-Progress {n} v (trigger peer h) =
    let l = replication_worker_wakes-Later n peer v h in (Later-Progress l, l.applied)
Step-Progress {n} v (notified h) =
    let l = applier_wakes-Later n v h in (Later-Progress l, l.applied)
Step-Progress {n} v (apply msg h) = apply-Progress n msg v h

emit-InOrder :
    (n : Node) (msg : Option ApplyMsg) (msgs : List ApplyMsg) (m : Node) (final : ℕ)
    → Moves n msg m
    → InOrder m.last_applied msgs final
    → InOrder n.last_applied (emit msg msgs) final
emit-InOrder n none msgs m final moves rest = rw (← moves) rest
emit-InOrder n (some msg) msgs m final moves rest = (moves.0, rw moves.1 at rest)

-- Along any run of a well-formed node, in which each AppendEntries has its entries at their
-- places and agrees with what the node has committed, the invariant holds, term and commit index
-- never fall, and the messages to the state machine carry the indices that follow the last
-- applied one, one after another, up to the new last applied one.
pub Run-InOrder :
    {n m : Node} (msgs : List ApplyMsg)
    → IsValid n
    → Run n msgs m
    → Progress n m × InOrder n.last_applied msgs m.last_applied
Run-InOrder msgs v done = (record { valid = v; commit = omega arith; term = omega arith }, refl)
Run-InOrder msgs v (next {n} {m} {k} {msg} {msgs = rest} step run) =
    let (first, moves) = Step-Progress v step in
    let (later, order) = Run-InOrder rest first.valid run in
    (
      record {
        valid = later.valid;
        commit = omega (arith, first.commit, later.commit);
        term = omega (arith, first.term, later.term);
      },
      emit-InOrder n msg rest m k.last_applied moves order,
    )
