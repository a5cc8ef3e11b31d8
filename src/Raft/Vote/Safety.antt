-- ===== src/Raft/Vote/Safety.antt =====
-- What a node promises when it answers RequestVote.
use kvraft.Base.{
  ℕ, ◌-◌, ◌≡◌, ◌≢◌, ◌⊎◌, ◌∙◌, sym, inl, inr, true, none, some, arith, length, get_elem?-some,
}
use kvraft.Base.Int.{eq_ℤ_iff, ℤ, pos, ◌≤ℤ◌, ◌<ℤ◌}
use kvraft.Raft.Types.{RequestVoteArgs, RequestVoteReply}
use kvraft.Raft.Node.{Node, IsValid, become_follower_locked, last_log_term}
use kvraft.Raft.Vote.{handle_request_vote}

last_log_term-some : (n : Node) → IsValid n → (t : ℤ) × (last_log_term n.log ≡ some t)
unfolding last_log_term
last_log_term-some n v =
    let (e, h) = get_elem?-some n.log (length n.log - 1) (omega (arith, v.committed)) in
    (e.term, rw h)

-- On a well-formed node the handler returns, it does not panic.
pub handle_request_vote-ne-none :
    (n : Node) (args : RequestVoteArgs) → IsValid n → handle_request_vote n args ≢ none
unfolding handle_request_vote
handle_request_vote-ne-none n args v = let (t, h) = last_log_term-some n v in ground (arith, h)

-- What the handler may change, whatever the answer.
pub record VoteEffect (n : Node) (args : RequestVoteArgs) (n' : Node) (reply : RequestVoteReply)
    : Type 0 where
  pub log_kept : n'.log ≡ n.log
  pub commit_kept : n'.commit_index ≡ n.commit_index
  pub applied_kept : n'.last_applied ≡ n.last_applied
  pub term_grows : n.current_term ≤ℤ n'.current_term
  pub answered :
      reply.vote_granted ≡ true → (n'.current_term ≡ args.term) × (n'.voted_for ≡ args.candidate_id)

pub handle_request_vote-VoteEffect :
    (n : Node) (args : RequestVoteArgs) {n' : Node} {reply : RequestVoteReply}
    → handle_request_vote n args ≡ some (n', reply)
    → VoteEffect n args n' reply
unfolding handle_request_vote become_follower_locked
handle_request_vote-VoteEffect n args h = ground arith

-- The requests that a node answers one after another, and where they leave it.
pub data VoteRun : Node → Node → Type 0 where
  last_answer : {n : Node} → VoteRun n n
  then_answer :
      {n m k : Node} (args : RequestVoteArgs) (reply : RequestVoteReply)
      → handle_request_vote n args ≡ some (m, reply)
      → VoteRun m k
      → VoteRun n k

-- The vote of term `t` is bound to `c`, or the term is over.
abbrev pub Bound : ℤ → ℕ → Node → Type 0
Bound t c n = ((n.current_term ≡ t) × (n.voted_for ≡ pos c)) ⊎ (t <ℤ n.current_term)

pub handle_request_vote-Bound :
    (t : ℤ) (c : ℕ) (n : Node) (args : RequestVoteArgs) {m : Node} {reply : RequestVoteReply}
    → handle_request_vote n args ≡ some (m, reply)
    → Bound t c n
    → Bound t c m
unfolding handle_request_vote become_follower_locked
handle_request_vote-Bound t c n args h (inl b) =
    ground (arith, eq_ℤ_iff n.voted_for args.candidate_id)
handle_request_vote-Bound t c n args h (inr b) = ground arith

VoteRun-Bound : (t : ℤ) (c : ℕ) {n m : Node} → VoteRun n m → Bound t c n → Bound t c m
VoteRun-Bound t c last_answer b = b
VoteRun-Bound t c (then_answer {n} args reply h run) b =
    VoteRun-Bound t c run (handle_request_vote-Bound t c n args h b)

pub Bound-granted :
    (t : ℤ) (c : ℕ) (n : Node) (args : RequestVoteArgs) {m : Node} {reply : RequestVoteReply}
    → handle_request_vote n args ≡ some (m, reply)
    → Bound t c n
    → args.term ≡ t
    → reply.vote_granted ≡ true
    → args.candidate_id ≡ pos c
unfolding handle_request_vote become_follower_locked
Bound-granted t c n args h (inl b) e g = ground (arith, eq_ℤ_iff n.voted_for args.candidate_id)
Bound-granted t c n args h (inr b) e g = ground arith

-- As long as a node answers RequestVote only, two requests of one term that it grants, however
-- many others it answers between them, name the same candidate. The first one's id is not negative.
pub one_vote_per_term :
    (n m : Node) (a b : RequestVoteArgs) {n' m' : Node} {ra rb : RequestVoteReply} (c : ℕ)
    → a.candidate_id ≡ pos c
    → handle_request_vote n a ≡ some (n', ra)
    → ra.vote_granted ≡ true
    → VoteRun n' m
    → handle_request_vote m b ≡ some (m', rb)
    → rb.vote_granted ≡ true
    → b.term ≡ a.term
    → b.candidate_id ≡ a.candidate_id
one_vote_per_term n m a b {n'} c id ha ga run hb gb e =
    Bound-granted a.term c m b hb (VoteRun-Bound a.term c run bound) e gb ∙ sym id
  where
    bound : Bound a.term c n'
    bound = let eff = (handle_request_vote-VoteEffect n a ha).answered ga in inl (eff.0, eff.1 ∙ id)
