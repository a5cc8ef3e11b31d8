-- ===== src/Raft/Election/Quorum.antt =====
-- How many votes make a leader.
use kvraft.Base.{ℕ, ◌+◌, ◌*◌, ◌≤◌, ◌<◌, ◌≡◌, true, false, some, arith, length}
use kvraft.Base.Int.{negsuc, ◌<ℤ◌}
use kvraft.Raft.Types.{RequestVoteReply, candidate, leader}
use kvraft.Raft.Node.{Node, become_leader_locked, become_follower_locked, signal_all_replications}
use kvraft.Raft.Election.{Election, votes_needed, on_vote_reply}

-- A candidate that is leader after a reply was the candidate of the election's term, and had the
-- votes needed, more than half of the peers: with the reply's vote, or without it where the reply
-- grants none.
pub leader_has_votes :
    (n : Node) (el : Election) (reply : RequestVoteReply)
    → n.state ≡ candidate
    → (on_vote_reply n el reply).0.state ≡ leader
    → (n.current_term ≡ el.term)
      × (length n.peers < 2 * votes_needed n)
      × (votes_needed n ≤ el.votes + 1)
      × (reply.vote_granted ≡ false → votes_needed n ≤ el.votes)
unfolding on_vote_reply become_leader_locked signal_all_replications become_follower_locked
leader_has_votes n el reply c h = ground arith

-- In a cluster of 2k + 1 peers a bare majority, k + 1 votes with the last one granted now, elects
-- no leader: the candidate goes on waiting.
pub majority_elects_none :
    (n : Node) (el : Election) (reply : RequestVoteReply) (k : ℕ)
    → length n.peers ≡ 2 * k + 1
    → el.votes ≡ k
    → reply.term ≡ el.term
    → reply.vote_granted ≡ true
    → on_vote_reply n el reply ≡ (n, some (record el { votes = k + 1 }))
unfolding on_vote_reply
majority_elects_none n el reply k odd votes same granted = ground arith

-- A reply newer than the election clears the vote on record also where the node has meanwhile moved
-- to the reply's term itself, and voted in it.
pub stale_election_clears_vote :
    (n : Node) (el : Election) (reply : RequestVoteReply)
    → el.term <ℤ reply.term
    → reply.term ≡ n.current_term
    → let n' = (on_vote_reply n el reply).0 in
      (n'.current_term ≡ n.current_term) × (n'.voted_for ≡ negsuc 0)
unfolding on_vote_reply become_follower_locked
stale_election_clears_vote n el reply older same = ground arith
