-- ===== src/Raft/Run.antt =====
-- raft/node.go: the life of one node, as a sequence of the events that its goroutines handle.
pub mod Invariant
pub mod Applied
use kvraft.Base.{ℕ, ◌+◌, ◌-◌, ◌≡◌, Bool, Option, none, some, List, [], ◌∷◌, drop}
use kvraft.Base.Int.{pos}
use kvraft.Raft.Types.{
  Command, RequestVoteArgs, RequestVoteReply, AppendEntriesArgs, AppendEntriesReply, ApplyMsg,
}
use kvraft.Raft.Node.{Node, Indexed}
use kvraft.Raft.Vote.{handle_request_vote}
use kvraft.Raft.Append.{handle_append_entries}
use kvraft.Raft.Append.Merge.{Agrees}
use kvraft.Raft.Commit.{applier_wakes, apply_next}
use kvraft.Raft.Election.{
  run_leader_tick, Election, FollowerEvent, run_follower, start_election, on_vote_reply, submit,
}
use kvraft.Raft.Replication.{replication_worker_wakes, handle_append_reply}

-- One event under the lock, with the message that goes to `applyCh` with it. A leader's message has
-- its entries at their places and agrees with what the node has committed, which is what the
-- protocol owes to every node; all other inputs are free.
pub data Step (n : Node) : Option ApplyMsg → Node → Type 0 where
  vote :
      {m : Node} (args : RequestVoteArgs) (reply : RequestVoteReply)
      → handle_request_vote n args ≡ some (m, reply)
      → Step n none m
  append :
      {m : Node} (args : AppendEntriesArgs) (reply : AppendEntriesReply) (p : ℕ)
      → args.prev_log_index ≡ pos p
      → Indexed (p + 1) args.entries
      → Agrees (n.commit_index - p) (drop (p + 1) n.log) args.entries
      → handle_append_entries n args ≡ some (m, reply)
      → Step n none m
  wake : (event : FollowerEvent) → Step n none (run_follower n event)
  campaign :
      {m : Node} (args : RequestVoteArgs) (el : Election)
      → start_election n ≡ some (m, args, el)
      → Step n none m
  count : (el : Election) (reply : RequestVoteReply) → Step n none (on_vote_reply n el reply).0
  accept : (cmd : Command) → Step n none (submit n cmd).0
  replicate :
      {m : Node} (peer : ℕ) (args : AppendEntriesArgs) (reply : AppendEntriesReply) (again : Bool)
      → handle_append_reply n peer args reply ≡ some (m, again)
      → Step n none m
  tick : Step n none (run_leader_tick n).0
  trigger : {m : Node} (peer : ℕ) → replication_worker_wakes n peer ≡ some m → Step n none m
  notified : {m : Node} → applier_wakes n ≡ some m → Step n none m
  apply : {m : Node} (msg : Option ApplyMsg) → apply_next n ≡ some (msg, m) → Step n msg m

abbrev pub emit : Option ApplyMsg → List ApplyMsg → List ApplyMsg
emit none msgs = msgs
emit (some msg) msgs = msg ∷ msgs

-- A run, with the messages that it sends to `applyCh`.
pub data Run : Node → List ApplyMsg → Node → Type 0 where
  done : {n : Node} → Run n [] n
  next :
      {n m k : Node} {msg : Option ApplyMsg} {msgs : List ApplyMsg}
      → Step n msg m
      → Run m msgs k
      → Run n (emit msg msgs) k
