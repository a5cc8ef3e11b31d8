-- ===== src/Raft/Replication/Worker.antt =====
-- raft/node.go: the inner loop of replicationWorker, over the answers of one follower.
use kvraft.Base.{
  ◌∙◌, if◌then◌else◌, ltb, ℕ, zero, suc, ◌-◌, ◌≤◌, ◌<◌, ◌≡◌, refl, true, false, Option, some, List,
  [], ◌∷◌, All, arith, length, length-drop, get_elem?-some,
}
use kvraft.Base.Int.{ℤ, ◌≤ℤ◌}
use kvraft.Raft.Types.{AppendEntriesReply, leader}
use kvraft.Raft.Node.{Node, update}
use kvraft.Raft.Replication.{
  prepare_append, handle_append_reply, replicate_to_follower, replication_worker_rounds,
}

-- A follower of the same or an older term that accepts, and one that refuses.
abbrev pub Accepts : ℤ → AppendEntriesReply → Type 0
Accepts term reply = (reply.term ≤ℤ term) × (reply.success ≡ true)

abbrev pub Refuses : ℤ → AppendEntriesReply → Type 0
Refuses term reply = (reply.term ≤ℤ term) × (reply.success ≡ false)

abbrev pub answers_of : List AppendEntriesReply → List (Option AppendEntriesReply)
answers_of [] = []
answers_of (r ∷ rs) = some r ∷ answers_of rs

module _ (n m : Node) (peer : ℕ) (r : AppendEntriesReply) (rs : List AppendEntriesReply) where
  goes_on :
      replicate_to_follower n peer (some r) ≡ some (m, true)
      → replication_worker_rounds n peer (answers_of (r ∷ rs))
        ≡ replication_worker_rounds m peer (answers_of rs)
  unfolding replication_worker_rounds
  goes_on round = rw (replication_worker_rounds, round) refl

  stops :
      replicate_to_follower n peer (some r) ≡ some (m, false)
      → replication_worker_rounds n peer (answers_of (r ∷ rs)) ≡ some (m, false)
  unfolding replication_worker_rounds
  stops round = rw (replication_worker_rounds, round) refl

module _ (n : Node) (peer p : ℕ) (leads : n.state ≡ leader) (at : n.next_index peer ≡ suc p)
    (inside : p < length n.log) where
  accepted_round :
      (reply : AppendEntriesReply)
      → suc p < length n.log
      → length n.log - 1 ≤ n.match_index peer
      → Accepts n.current_term reply
      → replicate_to_follower n peer (some reply) ≡ some (n, true)
  unfolding replicate_to_follower prepare_append handle_append_reply
  accepted_round reply behind known accepts =
      let (e, found) = get_elem?-some n.log p (omega arith) in
      ground (arith, found, leads, at, accepts, length-drop (suc p) n.log)

  refused_round :
      (reply : AppendEntriesReply)
      → Refuses n.current_term reply
      → replicate_to_follower n peer (some reply) ≡ (
          if ltb 1 (suc p)
          then some (record n { next_index = update n.next_index peer p }, true)
          else some (n, false))
  unfolding replicate_to_follower prepare_append handle_append_reply
  refused_round reply refuses =
      let (e, found) = get_elem?-some n.log p inside in ground (arith, found, leads, at, refuses)

-- The worker can spin: where the leader knows that the follower has the whole log, and its next index
-- was turned back into the log nevertheless, any number of accepted messages changes nothing, and the
-- loop goes on at once.
pub worker_spins :
    (n : Node) (peer p : ℕ) (replies : List AppendEntriesReply)
    → n.state ≡ leader
    → n.next_index peer ≡ suc p
    → suc p < length n.log
    → length n.log - 1 ≤ n.match_index peer
    → All (Accepts n.current_term) replies
    → replication_worker_rounds n peer (answers_of replies) ≡ some (n, true)
worker_spins n peer p [] leads at inside known all = unfold replication_worker_rounds in refl
worker_spins n peer p (r ∷ rs) leads at inside known all =
    goes_on n n peer r rs (accepted_round n peer p leads at (omega arith) r inside known all.0)
    ∙ worker_spins n peer p rs leads at inside known all.1

-- Refusals turn the next index back one place at a time: a leader whose next index is p + 1, with the
-- place before it in the log, and that is refused p + 1 times in a row, stops with the next index 1
-- and its log as it was.
pub worker_backs_off :
    (n : Node) (peer p : ℕ) (replies : List AppendEntriesReply)
    → n.state ≡ leader
    → n.next_index peer ≡ suc p
    → p < length n.log
    → length replies ≡ suc p
    → All (Refuses n.current_term) replies
    → (m : Node) × (replication_worker_rounds n peer (answers_of replies) ≡ some (m, false))
      × (m.next_index peer ≡ 1)
      × (m.log ≡ n.log)
worker_backs_off n peer p [] leads at inside many all = absurd (omega arith)
worker_backs_off n peer zero (r ∷ rs) leads at inside many all =
    (n, stops n n peer r rs (refused_round n peer zero leads at inside r all.0), at, refl)
worker_backs_off n peer (suc q) (r ∷ rs) leads at inside many all =
    let back = record n { next_index = update n.next_index peer (suc q) } in
    let (m, runs, first, log) =
      worker_backs_off back peer q rs leads (ground arith) (omega arith) (omega arith) all.1 in
    (
      m,
      goes_on n back peer r rs (refused_round n peer (suc q) leads at inside r all.0 ∙ ground arith)
          ∙ runs,
      first,
      log,
    )
