-- ===== src/Raft/Vote/Forgotten.antt =====
-- A message of the leader makes a node forget its vote of the same term.
use kvraft.Base.{◌-◌, ◌≡◌, sym, ◌∙◌, true, some, arith, length}
use kvraft.Base.Int.{ℤ, pos, negsuc}
use kvraft.Raft.Types.{RequestVoteArgs, RequestVoteReply, AppendEntriesArgs, AppendEntriesReply}
use kvraft.Raft.Node.{Node, last_log_term, become_follower_locked}
use kvraft.Raft.Vote.{handle_request_vote, log_ok}
use kvraft.Raft.Append.{handle_append_entries}

heartbeat_clears :
    (n : Node) (heartbeat : AppendEntriesArgs) {n' : Node} {r : AppendEntriesReply}
    → heartbeat.term ≡ n.current_term
    → handle_append_entries n heartbeat ≡ some (n', r)
    → (n'.voted_for ≡ negsuc 0) × (n'.current_term ≡ n.current_term)
unfolding handle_append_entries become_follower_locked
heartbeat_clears n heartbeat e h = ground arith

grants_when_free :
    (n : Node) (b : RequestVoteArgs) (t : ℤ) {m : Node} {rb : RequestVoteReply}
    → n.voted_for ≡ negsuc 0
    → b.term ≡ n.current_term
    → last_log_term n.log ≡ some t
    → log_ok b t (pos (length n.log - 1)) ≡ true
    → handle_request_vote n b ≡ some (m, rb)
    → (rb.vote_granted ≡ true) × (m.voted_for ≡ b.candidate_id)
unfolding handle_request_vote become_follower_locked
grants_when_free n b t free e lt ok h = ground arith

-- After an AppendEntries of the current term that is answered, a node has no vote on record,
-- whoever it voted for, and a candidate of that term whose log is good enough, and whose request
-- is answered, gets its vote.
pub vote_forgotten :
    (n : Node) (heartbeat : AppendEntriesArgs) (b : RequestVoteArgs) (t : ℤ) {n' m : Node}
    {r : AppendEntriesReply} {rb : RequestVoteReply}
    → heartbeat.term ≡ n.current_term
    → handle_append_entries n heartbeat ≡ some (n', r)
    → b.term ≡ n.current_term
    → last_log_term n'.log ≡ some t
    → log_ok b t (pos (length n'.log - 1)) ≡ true
    → handle_request_vote n' b ≡ some (m, rb)
    → (n'.voted_for ≡ negsuc 0) × (rb.vote_granted ≡ true) × (m.voted_for ≡ b.candidate_id)
vote_forgotten n heartbeat b t {n'} eh hh eb lt ok hb =
    let (free, same) = heartbeat_clears n heartbeat eh hh in
    let (granted, voted) = grants_when_free n' b t free (eb ∙ sym same) lt ok hb in
    (free, granted, voted)
