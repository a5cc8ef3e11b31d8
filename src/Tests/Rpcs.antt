-- ===== src/Tests/Rpcs.antt =====
-- server/server.go: an RPC to a node whose connection is open already.
use kvraft.Base.{ℕ, ◌≡◌, refl, Option, none, some, true, [], ◌∷◌, Bytes, codes, eq_bytes}
use kvraft.Base.Int.{pos}
use kvraft.Base.Assoc.{Assoc, lookup, bytes_eq}
use kvraft.Raft.Types.{RequestVoteArgs}
use kvraft.Raft.Node.{become_follower_locked, last_log_term}
use kvraft.Raft.Vote.{handle_request_vote}
use kvraft.Raft.Append.{handle_append_entries, append_loop, append_entry}
use kvraft.Raft.Wire.{
  PbRequestVoteRequest, PbRequestVoteResponse, PbAppendEntriesRequest, PbAppendEntriesResponse,
  request_vote_args_to_proto, request_vote_args_from_proto, request_vote_reply_to_proto,
  append_entries_args_to_proto, append_entries_args_from_proto, append_entries_reply_to_proto,
  entries_to_proto, entries_from_proto, log_entry_to_proto, log_entry_from_proto, int32, int32_of,
}
use kvraft.Raft.Wire.RoundTrip.{
  IsInt32, int32_iff, VoteArgsFit, AppendArgsFit, append_entries_args_roundtrip,
  request_vote_args_roundtrip,
}
use kvraft.Server.Rpc.{
  serve_request_vote, serve_append_entries, get_connection, call_append_entries, call_request_vote,
}
use kvraft.Server.Rpc.Transparent.{append_entries_arrives, request_vote_arrives}
use kvraft.Tests.Consensus.{node, beat}

abbrev open_conns : Assoc Bytes ℕ
open_conns = (codes "b", 7) ∷ []

abbrev to_node : ℕ → PbAppendEntriesRequest → Option PbAppendEntriesResponse
to_node conn req = elim (serve_append_entries node req) [ none ↦ none | some r ↦ some r.1 ]

abbrev to_voter : ℕ → PbRequestVoteRequest → Option PbRequestVoteResponse
to_voter conn req = elim (serve_request_vote node req) [ none ↦ none | some r ↦ some r.1 ]

abbrev ask : RequestVoteArgs
ask = record { term = pos 2; candidate_id = pos 0; last_log_index = pos 5; last_log_term = pos 1 }

small : IsInt32 node.current_term
unfolding int32 int32_of
small = (int32_iff (pos 1)).0 refl

beat_fits : AppendArgsFit beat
unfolding append_entries_args_to_proto append_entries_args_from_proto entries_to_proto
    entries_from_proto log_entry_to_proto log_entry_from_proto int32 int32_of
beat_fits = (append_entries_args_roundtrip beat).1.0 refl

ask_fits : VoteArgsFit ask
unfolding request_vote_args_to_proto request_vote_args_from_proto int32 int32_of
ask_fits = (request_vote_args_roundtrip ask).0 refl

append_entries_arrives_example :
    (call_append_entries to_node open_conns (codes "b") none beat).0
    ≡ some (record { term = pos 1; success = true })
unfolding get_connection lookup serve_append_entries serve_request_vote handle_append_entries
    handle_request_vote append_loop append_entry become_follower_locked last_log_term
    append_entries_args_to_proto append_entries_args_from_proto entries_to_proto entries_from_proto
    log_entry_to_proto log_entry_from_proto request_vote_args_to_proto request_vote_args_from_proto
    append_entries_reply_to_proto request_vote_reply_to_proto int32 int32_of eq_bytes
append_entries_arrives_example =
    (append_entries_arrives open_conns (codes "b") none {conn = 7} refl to_node node beat beat_fits
      small refl refl refl).1

request_vote_arrives_example :
    (call_request_vote to_voter open_conns (codes "b") none ask).0
    ≡ some (record { term = pos 1; vote_granted = true })
unfolding get_connection lookup serve_append_entries serve_request_vote handle_append_entries
    handle_request_vote append_loop append_entry become_follower_locked last_log_term
    append_entries_args_to_proto append_entries_args_from_proto entries_to_proto entries_from_proto
    log_entry_to_proto log_entry_from_proto request_vote_args_to_proto request_vote_args_from_proto
    append_entries_reply_to_proto request_vote_reply_to_proto int32 int32_of eq_bytes
request_vote_arrives_example =
    (request_vote_arrives open_conns (codes "b") none {conn = 7} refl to_voter node ask ask_fits
      small refl refl refl).1
