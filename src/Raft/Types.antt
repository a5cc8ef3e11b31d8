-- ===== src/Raft/Types.antt =====
-- raft/rpc.go: the messages, log entries and node states. A Go `int` is a ℤ.
use kvraft.Base.{List, Bool, Bytes}
use kvraft.Base.Int.{ℤ}

pub record Command : Type 0 where
  pub type : Bytes
  pub key : Bytes
  pub value : Bytes

pub record LogEntry : Type 0 where
  pub term : ℤ
  pub index : ℤ
  pub command : Command

pub record RequestVoteArgs : Type 0 where
  pub term : ℤ
  pub candidate_id : ℤ
  pub last_log_index : ℤ
  pub last_log_term : ℤ

pub record RequestVoteReply : Type 0 where
  pub term : ℤ
  pub vote_granted : Bool

pub record AppendEntriesArgs : Type 0 where
  pub term : ℤ
  pub leader_id : ℤ
  pub prev_log_index : ℤ
  pub prev_log_term : ℤ
  pub entries : List LogEntry
  pub leader_commit : ℤ

pub record AppendEntriesReply : Type 0 where
  pub term : ℤ
  pub success : Bool

pub record ApplyMsg : Type 0 where
  pub index : ℤ
  pub term : ℤ
  pub command : Command

pub data NodeState : Type 0 where
  follower candidate leader : NodeState
