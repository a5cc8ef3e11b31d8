-- ===== src/Raft/Cluster/Preserved.antt =====
-- Every step of a cluster keeps the facts about its elections.
use kvraft.Base.{
  Bool, ℕ, ◌≡◌, ◌≢◌, sym, subst, refl, inl, inr, true, false, some, List, arith, length,
  if◌then◌else◌, Bytes,
}
use kvraft.Base.Int.{ℤ, pos}
use kvraft.Raft.Types.{
  leader, candidate, follower, RequestVoteArgs, RequestVoteReply, AppendEntriesArgs, NodeState,
}
use kvraft.Raft.Node.{Node, new_node}
use kvraft.Raft.Vote.{handle_request_vote}
use kvraft.Raft.Vote.Safety.{handle_request_vote-VoteEffect, Bound, Bound-granted}
use kvraft.Raft.Election.{run_leader_tick}
use kvraft.Raft.Replication.{prepare_append}
use kvraft.Raft.Cluster.{
  Member, Phase, idle, following, starting, leading, stopped, counting, VoteCall, Cluster, node_at,
  phase_at, set_member, Among, new_cluster, dispatch, Step, switch, wake, campaign, count, give_up,
  tick, stop, vote, send, append, replicate, alone, Reach, Steps, start, later,
}
use kvraft.Raft.Cluster.Quiet.{
  Quiet-refl, run_follower-Quiet, run_leader_tick-Quiet, handle_request_vote-Quiet,
  handle_append_entries-Quiet, handle_append_reply-Quiet, Local-Quiet, Quiet,
}
use kvraft.Raft.Cluster.Keeps.{
  set_member-Inv, add_answer-Inv, add_append-Inv, add_append_answer-Inv, update-cases,
}
use kvraft.Raft.Cluster.Starts.{start_election-Started}
use kvraft.Raft.Cluster.Campaigns.{campaign-Inv}
use kvraft.Raft.Cluster.Counts.{IsUnanimous, count_reply-Inv}
use kvraft.Raft.Cluster.Invariant.{Campaign, HasLeader, InPhase, AnswerInv, Inv}

pub new_cluster-Inv : (peers : List Bytes) → Inv (length peers) (new_cluster peers)
unfolding new_cluster new_node
new_cluster-Inv peers = record {
  members = λ i. record {
    id = refl;
    sized = refl;
    up = omega arith;
    won = λ h. ground arith;
    in_phase = tt;
  };
  calls = λ q h. absurd h;
  answers = λ v h. absurd h;
  appends = λ a h. absurd h;
  wins = λ w h. absurd h;
}

dispatch-InPhase :
    (size i : ℕ) (c : Cluster) (s : NodeState)
    → (node_at c i).state ≡ s
    → InPhase size c.vote_calls c.vote_answers c.elected i (node_at c i) (dispatch s)
unfolding dispatch
dispatch-InPhase size i c follower e = λ h. ground arith
dispatch-InPhase size i c candidate e = λ h. ground arith
dispatch-InPhase size i c leader e = tt

module _ {size : ℕ} {c : Cluster} (inv : Inv size c) (i : ℕ) where
  -- A node whose phase stays.
  keeps-InPhase :
      {over : ℤ → Type 0} {m : Node}
      → Quiet over (node_at c i) m
      → (p : Phase) → InPhase size c.vote_calls c.vote_answers c.elected i (node_at c i) p
      → InPhase size c.vote_calls c.vote_answers c.elected i m p
  keeps-InPhase q idle h = tt
  keeps-InPhase q leading h = tt
  keeps-InPhase q stopped h = tt
  keeps-InPhase q following h = λ l. h (q.leads l).0
  keeps-InPhase q starting h = λ l. h (q.leads l).0
  keeps-InPhase q (counting el waiting) (out, k) = (
    (λ l. out (q.leads l).0),
    record {
      inside = k.inside;
      current = omega (arith, k.current, q.term);
      latest = k.latest;
      started = k.started;
      unwon = k.unwon;
      tally = k.tally;
    },
  )

  keeps-Inv :
      {over : ℤ → Type 0} {m : Node}
      → Quiet over (node_at c i) m
      → ((t : ℤ) → over t → Campaign c.vote_calls t i → HasLeader c.elected t)
      → Inv size (set_member c i m (phase_at c i))
  keeps-Inv q led =
      set_member-Inv inv (phase_at c i) q led
        (keeps-InPhase q (phase_at c i) (inv.members i).in_phase)

-- The answer to a RequestVote of candidate `i`.
vote-AnswerInv :
    {size : ℕ} {c : Cluster} (inv : Inv size c) (i j : ℕ) (args : RequestVoteArgs) {m : Node}
    {reply : RequestVoteReply}
    → i ≢ j
    → Among (record { candidate = i; args = args }) c.vote_calls
    → handle_request_vote (node_at c j) args ≡ some (m, reply)
    → AnswerInv c.vote_calls c.elected
        (record { candidate = i; voter = j; term = args.term; reply = reply })
        m
vote-AnswerInv {c} inv i j args {m} {reply} other among h = record {
  past = λ g. ground (arith, (effect g).0);
  rival = rival;
}
  where
    effect :
        reply.vote_granted ≡ true → (m.current_term ≡ args.term) × (m.voted_for ≡ args.candidate_id)
    effect = (handle_request_vote-VoteEffect (node_at c j) args h).answered

    at_node :
        (q : VoteCall)
        → q.candidate ≡ j
        → q.args.term ≡ args.term
        → Bound q.args.term q.candidate (node_at c q.candidate)
        → Bound args.term j (node_at c j)
    at_node q at for bound =
        subst (λ k. Bound args.term k (node_at c k)) at
          (subst (λ t. Bound t q.candidate (node_at c q.candidate)) for bound)

    named : args.candidate_id ≡ pos j → i ≡ j
    named e = ground (arith, (inv.calls _ among).1.own, e)

    rival :
        reply.vote_granted ≡ true
        → Campaign c.vote_calls args.term j
        → HasLeader c.elected args.term
    rival g (q, asked, at, for) = elim (inv.calls q asked).1.bound [
      | inr (k, won) ↦ (k, subst (λ t. Among (record { term = t; leader = k }) c.elected) for won)
      | inl bound ↦ absurd (
          other (
            named (Bound-granted args.term j (node_at c j) args h (at_node q at for bound) refl g)))
    ]

pub prepare_append-leads :
    (n : Node) (peer : ℕ) {args : AppendEntriesArgs}
    → prepare_append n peer ≡ some args
    → (n.state ≡ leader) × (args.term ≡ n.current_term)
unfolding prepare_append
prepare_append-leads n peer h = ground arith

-- The phase after a tick.
looping :
    (size i : ℕ) (c : Cluster) (n : Node) (b : Bool)
    → InPhase size c.vote_calls c.vote_answers c.elected i n (if b then leading else idle)
looping size i c n true = tt
looping size i c n false = tt

pub Step-Inv :
    {peers : List Bytes} {c d : Cluster}
    → IsUnanimous (length peers)
    → Step peers c d
    → Inv (length peers) c
    → Inv (length peers) d
Step-Inv {peers} {c} u (switch i within p) inv =
    set_member-Inv inv _ (Quiet-refl (node_at c i)) (λ t h. absurd h)
      (dispatch-InPhase (length peers) i c (node_at c i).state refl)
Step-Inv {c} u (wake i event within p) inv =
    set_member-Inv inv idle (run_follower-Quiet (node_at c i) event) (λ t h. absurd h) tt
Step-Inv {c} u (campaign i args el within p h) inv =
    campaign-Inv inv within p (start_election-Started (node_at c i) h)
Step-Inv u (count i j el waiting reply within p asked among) inv =
    count_reply-Inv inv j el waiting reply p asked among u
Step-Inv {c} u (give_up i el waiting within p) inv =
    set_member-Inv inv idle (Quiet-refl (node_at c i)) (λ t h. absurd h) tt
Step-Inv {c} u (tick i within p) inv =
    set_member-Inv inv _ (run_leader_tick-Quiet (node_at c i)) (λ t h. absurd h)
      (looping _ i c _ (run_leader_tick (node_at c i)).1)
Step-Inv {c} u (stop i within) inv =
    set_member-Inv inv stopped (Quiet-refl (node_at c i)) (λ t h. absurd h) tt
Step-Inv {c} u (vote i j args {reply} within other among h) inv =
    add_answer-Inv
      (keeps-Inv inv j (handle_request_vote-Quiet (node_at c j) args h) (λ t o. absurd o))
      (record { candidate = i; voter = j; term = args.term; reply = reply })
      (update-cases
        (λ (a : Member).
          AnswerInv c.vote_calls c.elected
            (record { candidate = i; voter = j; term = args.term; reply = reply }) a.node)
        c.member j _ j (λ e. vote-AnswerInv inv i j args other among h) (λ e. absurd (e refl)))
Step-Inv {c} u (send i j args within to other h) inv =
    let (leads, term) = prepare_append-leads (node_at c i) j h in
    add_append-Inv inv (record { leader = i; peer = j; args = args })
      (subst (λ t. Among (record { term = t; leader = i }) c.elected) (sym term)
        ((inv.members i).won leads))
Step-Inv {c} u (append i j args {reply} within among h) inv =
    add_append_answer-Inv
      (keeps-Inv inv j (handle_append_entries-Quiet (node_at c j) args h) (λ t o camp. (
        i,
        subst (λ t. Among (record { term = t; leader = i }) c.elected) (sym o)
            (inv.appends _ among),
      )))
      (record { call = record { leader = i; peer = j; args = args }; reply = reply })
Step-Inv {c} u (replicate i j args reply again within among h) inv =
    keeps-Inv inv i (handle_append_reply-Quiet (node_at c i) j args reply h) (λ t o. absurd o)
Step-Inv {c} u (alone i within event) inv = keeps-Inv inv i (Local-Quiet event) (λ t o. absurd o)

pub Steps-Inv :
    {peers : List Bytes} {c d : Cluster}
    → IsUnanimous (length peers)
    → Steps peers c d
    → Inv (length peers) c
    → Inv (length peers) d
Steps-Inv u start inv = inv
Steps-Inv u (later run step) inv = Step-Inv u step (Steps-Inv u run inv)

pub Reach-Inv :
    {peers : List Bytes} {c : Cluster}
    → IsUnanimous (length peers)
    → Reach peers c
    → Inv (length peers) c
Reach-Inv {peers} u run = Steps-Inv u run (new_cluster-Inv peers)
