-- ===== src/Raft/Cluster/Quiet.antt =====
-- Each handler's effect on the term, the vote and the state of its node.
use kvraft.Base.{
  Option, ℕ, ◌+◌, ◌≤◌, ◌≡◌, ◌⊎◌, inl, inr, refl, Option-cases, Bool, some, none, arith, length,
}
use kvraft.Base.Int.{ℤ, ◌≤ℤ◌, ◌<ℤ◌, pos_part}
use kvraft.Raft.Types.{
  RequestVoteArgs, RequestVoteReply, AppendEntriesArgs, AppendEntriesReply, leader,
}
use kvraft.Raft.Node.{
  Node, become_follower_locked, become_leader_locked, signal_all_replications, update,
}
use kvraft.Raft.Vote.{handle_request_vote}
use kvraft.Raft.Vote.Safety.{Bound, handle_request_vote-Bound}
use kvraft.Raft.Append.{handle_append_entries}
use kvraft.Raft.Commit.Frame.{try_advance_commit_index_locked-Committed}
use kvraft.Raft.Commit.{applier_wakes, apply_next, try_advance_commit_index_locked}
use kvraft.Raft.Election.{
  run_leader_tick, Election, FollowerEvent, heartbeat, vote, election_timer, run_follower,
  on_vote_reply, submit, votes_needed, count_vote,
}
use kvraft.Raft.Replication.{replication_worker_wakes, handle_append_reply}
use kvraft.Raft.Cluster.{Local, accept, trigger, notified, apply}

-- A node is not elected by the event, and keeps its vote, but in a term that is over.
pub record Quiet (over : ℤ → Type 0) (n m : Node) : Type 0 where
  pub id : m.id ≡ n.id
  pub peers : m.peers ≡ n.peers
  pub term : n.current_term ≤ℤ m.current_term
  pub leads : m.state ≡ leader → (n.state ≡ leader) × (m.current_term ≡ n.current_term)
  pub bound : (t : ℤ) (i : ℕ) → Bound t i n → Bound t i m ⊎ over t

module _ {over : ℤ → Type 0} where
  pub Quiet-refl : (n : Node) → Quiet over n n
  Quiet-refl n = record {
    id = refl;
    peers = refl;
    term = omega arith;
    leads = λ h. (h, refl);
    bound = λ t i b. inl b;
  }

  -- Term, vote and state stay.
  Quiet-same :
      {n m : Node}
      → m.id ≡ n.id
      → m.peers ≡ n.peers
      → m.current_term ≡ n.current_term
      → m.voted_for ≡ n.voted_for
      → (m.state ≡ leader → n.state ≡ leader)
      → Quiet over n m
  Quiet-same {n} {m} i p t v s = record {
    id = i;
    peers = p;
    term = ground arith;
    leads = λ h. (s h, t);
    bound = λ t' i b. ground arith;
  }

  pub run_follower-Quiet : (n : Node) (event : FollowerEvent) → Quiet over n (run_follower n event)
  unfolding run_follower
  run_follower-Quiet n heartbeat = Quiet-same refl refl refl refl (λ h. h)
  run_follower-Quiet n vote = Quiet-same refl refl refl refl (λ h. h)
  run_follower-Quiet n election_timer = Quiet-same refl refl refl refl (λ h. cc)

  pub run_leader_tick-Quiet : (n : Node) → Quiet over n (run_leader_tick n).0
  unfolding run_leader_tick signal_all_replications
  run_leader_tick-Quiet n = ground arith

  pub handle_request_vote-Quiet :
      (n : Node) (args : RequestVoteArgs) {m : Node} {reply : RequestVoteReply}
      → handle_request_vote n args ≡ some (m, reply)
      → Quiet over n m
  unfolding handle_request_vote become_follower_locked
  handle_request_vote-Quiet n args {m} h = record {
    id = ground arith;
    peers = ground arith;
    term = ground arith;
    leads = ground arith;
    bound = λ t i b. inl (handle_request_vote-Bound t i n args h b);
  }

  pub handle_append_reply-Quiet :
      (n : Node) (peer : ℕ) (args : AppendEntriesArgs) (reply : AppendEntriesReply) {m : Node}
      {again : Bool}
      → handle_append_reply n peer args reply ≡ some (m, again)
      → Quiet over n m
  unfolding handle_append_reply become_follower_locked
  handle_append_reply-Quiet n peer args reply h =
      elim (Option-cases (try_advance_commit_index_locked known)) [
        | inl panics ↦ ground (arith, panics)
        | inr (k, runs) ↦
            let frame = try_advance_commit_index_locked-Committed known runs in
            ground (arith, runs, frame.same)
      ]
    where
      match : ℕ
      match = pos_part args.prev_log_index + length args.entries

      known : Node
      known = record n {
        match_index = update n.match_index peer match;
        next_index = update n.next_index peer (match + 1);
      }

  pub Local-Quiet : {n m : Node} → Local n m → Quiet over n m
  unfolding submit signal_all_replications replication_worker_wakes applier_wakes apply_next
  Local-Quiet {n} (accept cmd) = ground arith
  Local-Quiet (trigger peer h) = ground arith
  Local-Quiet (notified h) = ground arith
  Local-Quiet (apply msg h) = ground arith

-- Only a message of the term's own leader can clear a vote of the term.
pub handle_append_entries-Quiet :
    (n : Node) (args : AppendEntriesArgs) {m : Node} {reply : AppendEntriesReply}
    → handle_append_entries n args ≡ some (m, reply)
    → Quiet (λ t. t ≡ args.term) n m
unfolding handle_append_entries become_follower_locked
handle_append_entries-Quiet n args h = ground arith

-- What a reply does: it ends the election, wins it, or leaves it open.
pub data Counted (n : Node) (el : Election) (reply : RequestVoteReply) (r : Node × Option Election)
    : Type 0 where
  stale :
      el.term <ℤ reply.term → r ≡ (become_follower_locked n reply.term, none) → Counted n el reply r
  win :
      votes_needed n ≤ (count_vote el reply).votes
      → n.current_term ≡ el.term
      → r ≡ (signal_all_replications (become_leader_locked n), none)
      → Counted n el reply r
  wait : r ≡ (n, some (count_vote el reply)) → Counted n el reply r

pub on_vote_reply-Counted :
    (n : Node) (el : Election) (reply : RequestVoteReply)
    → Counted n el reply (on_vote_reply n el reply)
unfolding on_vote_reply
on_vote_reply-Counted n el reply = ground arith

pub become_follower_locked-Quiet :
    (n : Node) (t : ℤ) → Quiet (λ u. t ≤ℤ u) n (become_follower_locked n t)
unfolding become_follower_locked
become_follower_locked-Quiet n t = ground arith
