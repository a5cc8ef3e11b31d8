-- ===== src/Server/Rpc.antt =====
-- server/server.go: the two ends of raft's RPCs, GRPCRaftService and GRPCClient.
pub mod Transparent
use kvraft.Base.{Option, none, some, ◌>>=◌, Bytes}
use kvraft.Base.Assoc.{Assoc, lookup, insert, bytes_eq}
use kvraft.Raft.Types.{RequestVoteArgs, RequestVoteReply, AppendEntriesArgs, AppendEntriesReply}
use kvraft.Raft.Node.{Node}
use kvraft.Raft.Vote.{handle_request_vote}
use kvraft.Raft.Append.{handle_append_entries}
use kvraft.Raft.Wire.{
  PbRequestVoteRequest, PbRequestVoteResponse, PbAppendEntriesRequest, PbAppendEntriesResponse,
  request_vote_args_to_proto, request_vote_args_from_proto, request_vote_reply_to_proto,
  request_vote_reply_from_proto, append_entries_args_to_proto, append_entries_args_from_proto,
  append_entries_reply_to_proto, append_entries_reply_from_proto,
}

-- GRPCRaftService.RequestVote and AppendEntries on the node of the server; `none` is a panic.
unfoldable pub serve_request_vote :
    Node → PbRequestVoteRequest → Option (Node × PbRequestVoteResponse)
serve_request_vote n req = do
  r ← handle_request_vote n (request_vote_args_from_proto req)
  some (r.0, request_vote_reply_to_proto r.1)

unfoldable pub serve_append_entries :
    Node → PbAppendEntriesRequest → Option (Node × PbAppendEntriesResponse)
serve_append_entries n req = do
  args ← append_entries_args_from_proto req
  r ← handle_append_entries n args
  some (r.0, append_entries_reply_to_proto r.1)

module _ {Conn : Type 0} where
  -- `dialed` is what grpc.Dial gives, `none` where it fails.
  unfoldable pub get_connection :
      Assoc Bytes Conn → Bytes → Option Conn → Option Conn × Assoc Bytes Conn
  get_connection conns target dialed = elim (lookup target conns) [
    | some conn ↦ (some conn, conns)
    | none ↦ elim dialed [
      | some conn ↦ (some conn, insert target conn conns)
      | none ↦ (none, conns)
    ]
  ]

  -- GRPCClient.RequestVote and AppendEntries: `transport` is the generated client's call over a
  -- connection. `none` is an error.
  unfoldable pub call_request_vote :
      (Conn → PbRequestVoteRequest → Option PbRequestVoteResponse)
      → Assoc Bytes Conn
      → Bytes
      → Option Conn
      → RequestVoteArgs
      → Option RequestVoteReply × Assoc Bytes Conn
  call_request_vote transport conns target dialed args =
      let (found, after) = get_connection conns target dialed in
      (
        (do
          conn ← found
          resp ← transport conn (request_vote_args_to_proto args)
          some (request_vote_reply_from_proto resp)),
        after,
      )

  unfoldable pub call_append_entries :
      (Conn → PbAppendEntriesRequest → Option PbAppendEntriesResponse)
      → Assoc Bytes Conn
      → Bytes
      → Option Conn
      → AppendEntriesArgs
      → Option AppendEntriesReply × Assoc Bytes Conn
  call_append_entries transport conns target dialed args =
      let (found, after) = get_connection conns target dialed in
      (
        (do
          conn ← found
          resp ← transport conn (append_entries_args_to_proto args)
          some (append_entries_reply_from_proto resp)),
        after,
      )
