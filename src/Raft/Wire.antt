-- ===== src/Raft/Wire.antt =====
-- raft/rpc.go: the conversions between raft's messages and the generated ones, whose numbers are 32
-- bits wide.
pub mod RoundTrip
use kvraft.Base.{
  ℕ, suc, ◌+◌, ◌-◌, ◌%◌, Bool, Bytes, Option, none, some, List, [], ◌∷◌, ltb, if◌then◌else◌, ◌>>=◌,
  map,
}
use kvraft.Base.Int.{ℤ, pos, negsuc}
use kvraft.Raft.Types.{
  Command, LogEntry, RequestVoteArgs, RequestVoteReply, AppendEntriesArgs, AppendEntriesReply,
}

abbrev pub two_to_31 : ℕ
two_to_31 = 2147483648

abbrev pub two_to_32 : ℕ
two_to_32 = 4294967296

-- `int32(x)`: the low 32 bits, as a signed number. `half` is 2 ^ 31.
unfoldable pub int32_of : ℕ → ℤ
int32_of n = if ltb n two_to_31 then pos n else negsuc (two_to_32 - 1 - n)

unfoldable pub int32 : ℤ → ℤ
unfolding int32_of
int32 (pos n) = int32_of (n % two_to_32)
int32 (negsuc n) = int32_of (two_to_32 - 1 - n % two_to_32)

-- The generated messages: a message inside a message is a pointer.
pub record PbLogEntry : Type 0 where
  pub term : ℤ
  pub index : ℤ
  pub command : Option Command

pub record PbRequestVoteRequest : Type 0 where
  pub term : ℤ
  pub candidate_id : ℤ
  pub last_log_index : ℤ
  pub last_log_term : ℤ

pub record PbRequestVoteResponse : Type 0 where
  pub term : ℤ
  pub vote_granted : Bool

pub record PbAppendEntriesRequest : Type 0 where
  pub term : ℤ
  pub leader_id : ℤ
  pub prev_log_index : ℤ
  pub prev_log_term : ℤ
  pub entries : List PbLogEntry
  pub leader_commit : ℤ

pub record PbAppendEntriesResponse : Type 0 where
  pub term : ℤ
  pub success : Bool

unfoldable pub request_vote_args_to_proto : RequestVoteArgs → PbRequestVoteRequest
request_vote_args_to_proto args = record {
  term = int32 args.term;
  candidate_id = int32 args.candidate_id;
  last_log_index = int32 args.last_log_index;
  last_log_term = int32 args.last_log_term;
}

unfoldable pub request_vote_args_from_proto : PbRequestVoteRequest → RequestVoteArgs
request_vote_args_from_proto req = record {
  term = req.term;
  candidate_id = req.candidate_id;
  last_log_index = req.last_log_index;
  last_log_term = req.last_log_term;
}

unfoldable pub request_vote_reply_to_proto : RequestVoteReply → PbRequestVoteResponse
request_vote_reply_to_proto reply = record {
  term = int32 reply.term;
  vote_granted = reply.vote_granted;
}

unfoldable pub request_vote_reply_from_proto : PbRequestVoteResponse → RequestVoteReply
request_vote_reply_from_proto reply = record {
  term = reply.term;
  vote_granted = reply.vote_granted;
}

unfoldable pub append_entries_reply_to_proto : AppendEntriesReply → PbAppendEntriesResponse
append_entries_reply_to_proto reply = record { term = int32 reply.term; success = reply.success }

unfoldable pub append_entries_reply_from_proto : PbAppendEntriesResponse → AppendEntriesReply
append_entries_reply_from_proto reply = record { term = reply.term; success = reply.success }

unfoldable pub log_entry_to_proto : LogEntry → PbLogEntry
log_entry_to_proto entry = record {
  term = int32 entry.term;
  index = int32 entry.index;
  command = some entry.command;
}

-- `none`: the panic on an entry without a command.
unfoldable pub log_entry_from_proto : PbLogEntry → Option LogEntry
log_entry_from_proto entry = entry.command >>= λ command.
    some (record { term = entry.term; index = entry.index; command = command })

unfoldable pub entries_to_proto : List LogEntry → List PbLogEntry
entries_to_proto [] = []
entries_to_proto (e ∷ es) = log_entry_to_proto e ∷ entries_to_proto es

unfoldable pub entries_from_proto : List PbLogEntry → Option (List LogEntry)
entries_from_proto [] = some []
entries_from_proto (e ∷ es) =
    log_entry_from_proto e >>= λ entry. entries_from_proto es >>= λ rest. some (entry ∷ rest)

unfoldable pub append_entries_args_to_proto : AppendEntriesArgs → PbAppendEntriesRequest
append_entries_args_to_proto args = record {
  term = int32 args.term;
  leader_id = int32 args.leader_id;
  prev_log_index = int32 args.prev_log_index;
  prev_log_term = int32 args.prev_log_term;
  entries = entries_to_proto args.entries;
  leader_commit = int32 args.leader_commit;
}

unfoldable pub append_entries_args_from_proto : PbAppendEntriesRequest → Option AppendEntriesArgs
append_entries_args_from_proto req = entries_from_proto req.entries >>= λ entries. some (record {
  term = req.term;
  leader_id = req.leader_id;
  prev_log_index = req.prev_log_index;
  prev_log_term = req.prev_log_term;
  entries = entries;
  leader_commit = req.leader_commit;
})
