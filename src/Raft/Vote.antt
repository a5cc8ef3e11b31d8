-- ===== src/Raft/Vote.antt =====
-- raft/node.go: HandleRequestVote.
pub mod Safety
pub mod Forgotten
use kvraft.Base.{◌-◌, Bool, true, false, ◌&&◌, ◌||◌, Option, some, length, if◌then◌else◌, ◌>>=◌}
use kvraft.Base.Int.{ℤ, pos, negsuc, ltb_ℤ, leb_ℤ, eq_ℤ}
use kvraft.Raft.Types.{RequestVoteArgs, RequestVoteReply}
use kvraft.Raft.Node.{Node, offer, become_follower_locked, last_log_term}

-- `logOk`: the candidate's log ends in a later term, or in the same and is at least as long.
abbrev pub log_ok : RequestVoteArgs → ℤ → ℤ → Bool
log_ok args last_term last_index =
    ltb_ℤ last_term args.last_log_term
    || (eq_ℤ args.last_log_term last_term && leb_ℤ last_index args.last_log_index)

abbrev may_vote : Node → ℤ → Bool
may_vote n candidate_id = eq_ℤ n.voted_for (negsuc 0) || eq_ℤ n.voted_for candidate_id

-- The part after the term check, with the reply's term fixed before it.
decide_vote : Node → RequestVoteArgs → ℤ → ℤ → Node × RequestVoteReply
decide_vote n args reply_term last_term =
    if may_vote n args.candidate_id && log_ok args last_term (pos (length n.log - 1))
    then (
      record n { voted_for = args.candidate_id; vote_ch = offer 100 n.vote_ch },
      record { term = reply_term; vote_granted = true },
    )
    else (n, record { term = reply_term; vote_granted = false })

-- `if args.Term > n.currentTerm { n.becomeFollowerLocked(args.Term) }`
abbrev adopt_term : Node → ℤ → Node
adopt_term n term = if ltb_ℤ n.current_term term then become_follower_locked n term else n

-- `none` is the panic on an empty log.
unfoldable pub handle_request_vote : Node → RequestVoteArgs → Option (Node × RequestVoteReply)
unfolding decide_vote
handle_request_vote n args =
    if ltb_ℤ args.term n.current_term
    then some (n, record { term = n.current_term; vote_granted = false })
    else (do
      last_term ← last_log_term n.log
      some (decide_vote (adopt_term n args.term) args n.current_term last_term))
