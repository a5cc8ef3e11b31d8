-- ===== src/Raft/Cluster/Counts.antt =====
-- A reply to a candidate, whichever way it decides.
use kvraft.Base.{Option, ℕ, ◌+◌, ◌/◌, ◌≤◌, ◌≡◌, ◌≢◌, sym, subst, false, List, ◌∷◌, arith, length}
use kvraft.Raft.Types.{NodeState, leader, RequestVoteReply}
use kvraft.Raft.Node.{
  Node, is_leader_state, become_leader_locked, signal_all_replications, become_follower_locked,
}
use kvraft.Raft.Election.{Election, on_vote_reply, count_vote, votes_needed}
use kvraft.Raft.Cluster.{
  idle, counting, Cluster, node_at, phase_at, set_member, Among, remove, count_reply, after_reply,
  after_win,
}
use kvraft.Raft.Cluster.Quiet.{
  Counted, stale, win, wait, on_vote_reply-Counted, become_follower_locked-Quiet, Quiet-refl,
}
use kvraft.Raft.Cluster.Keeps.{set_member-Inv}
use kvraft.Raft.Cluster.Wins.{Crowned, win-Inv}
use kvraft.Raft.Cluster.Tallies.{all-Granted, open_still}
use kvraft.Raft.Cluster.Invariant.{MemberInv, Inv}

-- The votes that runCandidate waits for are no fewer than the nodes there are.
abbrev pub IsUnanimous : ℕ → Type 0
IsUnanimous size = size ≤ (size + 1) / 2 + 1

leader-Crowned : (n : Node) → Crowned n (signal_all_replications (become_leader_locked n))
unfolding signal_all_replications become_leader_locked
leader-Crowned n = ground arith

pub needs_all :
    (n : Node) (size votes : ℕ)
    → length n.peers ≡ size
    → IsUnanimous size
    → votes_needed n ≤ votes
    → size ≤ votes
unfolding votes_needed
needs_all n size votes e u h = ground (arith, e)

pub not-leader : (s : NodeState) → s ≢ leader → is_leader_state s ≡ false
not-leader s h = ground arith

module _ {size i : ℕ} {c : Cluster} (inv : Inv size c) (j : ℕ) (el : Election) (waiting : List ℕ)
    (reply : RequestVoteReply) (counts : phase_at c i ≡ counting el waiting)
    (asked : Among j waiting)
    (among : Among
      (record { candidate = i; voter = j; term = el.term; reply = reply })
      c.vote_answers)
    (unanimous : IsUnanimous size) where
  abbrev n : Node
  n = node_at c i

  old : MemberInv size c.vote_calls c.vote_answers c.elected i n (counting el waiting)
  old =
      subst (λ p. MemberInv size c.vote_calls c.vote_answers c.elected i n p) counts (inv.members i)

  abbrev after : Node × Option Election → Cluster
  after r = record (set_member c i r.0 (after_reply r.1 (remove j waiting))) {
    elected = after_win r.0 el c.elected;
  }

  Counted-Inv : (r : Node × Option Election) → Counted n el reply r → Inv size (after r)
  unfolding after_reply after_win become_follower_locked become_leader_locked
      signal_all_replications
  Counted-Inv r (stale newer e) =
      subst (λ r. Inv size (after r)) (sym e)
        (set_member-Inv inv idle (become_follower_locked-Quiet n reply.term)
          (λ t over camp. absurd (omega (arith, old.in_phase.1.latest t camp))) tt)
  Counted-Inv r (win enough current e) =
      subst (λ r. Inv size (after r)) (sym e)
        (subst
          (λ l.
            Inv size
              (record (set_member c i (signal_all_replications (become_leader_locked n)) idle) {
                elected = record { term = el.term; leader = l } ∷ c.elected;
              }))
          (sym old.id)
          (win-Inv inv old.in_phase.1
            (all-Granted inv j reply old.in_phase.0 old.in_phase.1 asked among
              (needs_all n size (count_vote el reply).votes old.sized unanimous enough))
            (leader-Crowned n) current))
  Counted-Inv r (wait e) =
      subst (λ r. Inv size (after r)) (sym e)
        (rw (not-leader n.state old.in_phase.0) (
          set_member-Inv inv (counting (count_vote el reply) (remove j waiting)) (Quiet-refl n)
            (λ t over camp. absurd over)
            (old.in_phase.0, open_still inv j reply old.in_phase.0 old.in_phase.1 asked among)))

  pub count_reply-Inv : Inv size (count_reply c i j el waiting reply)
  unfolding count_reply
  count_reply-Inv = Counted-Inv (on_vote_reply n el reply) (on_vote_reply-Counted n el reply)
