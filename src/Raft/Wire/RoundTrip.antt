-- ===== src/Raft/Wire/RoundTrip.antt =====
-- raft/rpc.go: a message comes through the wire unchanged just when its numbers fit in 32 bits.
use kvraft.Base.{◌≢◌, ◌<◌, ◌≡◌, ◌↔◌, refl, none, some, List, [], ◌∷◌, arith, All}
use kvraft.Base.Int.{ℤ, pos, negsuc}
use kvraft.Raft.Types.{LogEntry, RequestVoteArgs, AppendEntriesArgs}
use kvraft.Raft.Wire.{
  two_to_31, int32_of, int32, request_vote_args_to_proto, request_vote_args_from_proto,
  log_entry_to_proto, log_entry_from_proto, entries_to_proto, entries_from_proto,
  append_entries_args_to_proto, append_entries_args_from_proto,
}

pub IsInt32 : ℤ → Type 0
IsInt32 (pos n) = n < two_to_31
IsInt32 (negsuc n) = n < two_to_31

pub int32_iff : (z : ℤ) → (int32 z ≡ z) ↔ IsInt32 z
unfolding int32 int32_of IsInt32
int32_iff (pos n) = ground arith
int32_iff (negsuc n) = ground arith

pub int32-IsInt32 : (z : ℤ) → IsInt32 (int32 z)
unfolding int32 int32_of IsInt32
int32-IsInt32 (pos n) = ground arith
int32-IsInt32 (negsuc n) = ground arith

pub VoteArgsFit : RequestVoteArgs → Type 0
VoteArgsFit a =
    IsInt32 a.term × IsInt32 a.candidate_id × IsInt32 a.last_log_index × IsInt32 a.last_log_term

-- The arguments of RequestVote arrive as they were sent exactly when each number fits in 32 bits.
pub request_vote_args_roundtrip :
    (a : RequestVoteArgs)
    → (request_vote_args_from_proto (request_vote_args_to_proto a) ≡ a) ↔ VoteArgsFit a
unfolding request_vote_args_from_proto request_vote_args_to_proto VoteArgsFit
request_vote_args_roundtrip a = ground (
  arith,
  int32_iff a.term,
  int32_iff a.candidate_id,
  int32_iff a.last_log_index,
  int32_iff a.last_log_term,
)

pub EntryFits : LogEntry → Type 0
EntryFits e = IsInt32 e.term × IsInt32 e.index

log_entry_roundtrip :
    (e : LogEntry) → (log_entry_from_proto (log_entry_to_proto e) ≡ some e) ↔ EntryFits e
unfolding log_entry_from_proto log_entry_to_proto EntryFits
log_entry_roundtrip e = ground (arith, int32_iff e.term, int32_iff e.index)

-- An entry always comes through the wire: the sender gives it a command.
log_entry-arrives :
    (e : LogEntry)
    → log_entry_from_proto (log_entry_to_proto e)
      ≡ some (record { term = int32 e.term; index = int32 e.index; command = e.command })
unfolding log_entry_from_proto log_entry_to_proto
log_entry-arrives e = refl

arrived : List LogEntry → List LogEntry
arrived [] = []
arrived (e ∷ es) =
    record { term = int32 e.term; index = int32 e.index; command = e.command } ∷ arrived es

entries-arrive : (es : List LogEntry) → entries_from_proto (entries_to_proto es) ≡ some (arrived es)
unfolding entries_from_proto entries_to_proto arrived log_entry_from_proto log_entry_to_proto
entries-arrive [] = refl
entries-arrive (e ∷ es) = rw (entries-arrive es) refl

arrived_iff : (es : List LogEntry) → (arrived es ≡ es) ↔ All EntryFits es
unfolding arrived EntryFits
arrived_iff [] = ground arith
arrived_iff (e ∷ es) = ground (arith, arrived_iff es, int32_iff e.term, int32_iff e.index)

pub AppendArgsFit : AppendEntriesArgs → Type 0
AppendArgsFit a =
    (IsInt32 a.term × IsInt32 a.leader_id × IsInt32 a.prev_log_index)
    × IsInt32 a.prev_log_term
    × All EntryFits a.entries
    × IsInt32 a.leader_commit

-- The arguments of AppendEntries, whatever they are, arrive without a panic, and arrive as they were
-- sent exactly when each number in them and in their entries fits in 32 bits.
pub append_entries_args_roundtrip :
    (a : AppendEntriesArgs)
    → (append_entries_args_from_proto (append_entries_args_to_proto a) ≢ none)
      × ((append_entries_args_from_proto (append_entries_args_to_proto a) ≡ some a)
          ↔ AppendArgsFit a)
unfolding append_entries_args_from_proto append_entries_args_to_proto AppendArgsFit
append_entries_args_roundtrip a = ground (
  arith,
  entries-arrive a.entries,
  arrived_iff a.entries,
  int32_iff a.term,
  int32_iff a.leader_id,
  int32_iff a.prev_log_index,
  int32_iff a.prev_log_term,
  int32_iff a.leader_commit,
)
