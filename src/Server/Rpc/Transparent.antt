-- ===== src/Server/Rpc/Transparent.antt =====
-- An RPC gives its caller what the handler of the other node answers.
use kvraft.Base.{Bool, ◌≡◌, refl, ap, ◌∙◌, Option, some, Bytes, arith}
use kvraft.Base.Int.{ℤ}
use kvraft.Base.Assoc.{Assoc, bytes_eq}
use kvraft.Raft.Types.{RequestVoteArgs, RequestVoteReply, AppendEntriesArgs, AppendEntriesReply}
use kvraft.Raft.Node.{Node}
use kvraft.Raft.Vote.{handle_request_vote}
use kvraft.Raft.Append.{handle_append_entries}
use kvraft.Raft.Wire.{
  PbRequestVoteRequest, PbRequestVoteResponse, PbAppendEntriesRequest, PbAppendEntriesResponse,
  request_vote_args_to_proto, request_vote_reply_to_proto, request_vote_reply_from_proto,
  append_entries_args_to_proto, append_entries_reply_to_proto, append_entries_reply_from_proto,
  int32,
}
use kvraft.Raft.Wire.RoundTrip.{
  IsInt32, int32_iff, VoteArgsFit, AppendArgsFit, append_entries_args_roundtrip,
  request_vote_args_roundtrip,
}
use kvraft.Server.Rpc.{
  serve_request_vote, serve_append_entries, get_connection, call_append_entries, call_request_vote,
}

-- A reply carries the term that the node had.
vote-term :
    (n : Node) (args : RequestVoteArgs) {m : Node} {reply : RequestVoteReply}
    → handle_request_vote n args ≡ some (m, reply)
    → reply.term ≡ n.current_term
unfolding handle_request_vote
vote-term n args h = ground arith

append-term :
    (n : Node) (args : AppendEntriesArgs) {m : Node} {reply : AppendEntriesReply}
    → handle_append_entries n args ≡ some (m, reply)
    → reply.term ≡ n.current_term
unfolding handle_append_entries
append-term n args h = ground arith

abbrev reply_of : ℤ → Bool → AppendEntriesReply
reply_of term success = record { term = term; success = success }

abbrev vote_of : ℤ → Bool → RequestVoteReply
vote_of term vote_granted = record { term = term; vote_granted = vote_granted }

serve_request_vote_lem :
    (n : Node) (args : RequestVoteArgs) {m : Node} {reply : RequestVoteReply}
    → VoteArgsFit args
    → handle_request_vote n args ≡ some (m, reply)
    → serve_request_vote n (request_vote_args_to_proto args)
      ≡ some (m, request_vote_reply_to_proto reply)
unfolding serve_request_vote
serve_request_vote_lem n args fit h = rw ((request_vote_args_roundtrip args).1 fit, h) refl

serve_append_entries_lem :
    (n : Node) (args : AppendEntriesArgs) {m : Node} {reply : AppendEntriesReply}
    → AppendArgsFit args
    → handle_append_entries n args ≡ some (m, reply)
    → serve_append_entries n (append_entries_args_to_proto args)
      ≡ some (m, append_entries_reply_to_proto reply)
unfolding serve_append_entries
serve_append_entries_lem n args fit h = rw ((append_entries_args_roundtrip args).1.1 fit, h) refl

module _ {Conn : Type 0} (conns : Assoc Bytes Conn) (target : Bytes) (dialed : Option Conn)
    {conn : Conn} (connected : (get_connection conns target dialed).0 ≡ some conn) where
  call_append_entries_lem :
      (transport : Conn → PbAppendEntriesRequest → Option PbAppendEntriesResponse)
      (args : AppendEntriesArgs) (reply : AppendEntriesReply)
      → int32 reply.term ≡ reply.term
      → transport conn (append_entries_args_to_proto args)
        ≡ some (append_entries_reply_to_proto reply)
      → (call_append_entries transport conns target dialed args).0 ≡ some reply
  unfolding call_append_entries append_entries_reply_to_proto append_entries_reply_from_proto
  call_append_entries_lem transport args reply fits answered =
      rw (connected, answered) (ap (λ t. some (reply_of t reply.success)) fits)

  -- Where the sender has a connection, and the call over it brings the response that the other
  -- server gives, an AppendEntries whose numbers fit in 32 bits, as the other node's term does, moves
  -- that node as its handler does on the arguments themselves, and the sender reads the handler's
  -- reply.
  pub append_entries_arrives :
      (transport : Conn → PbAppendEntriesRequest → Option PbAppendEntriesResponse) (n : Node)
      (args : AppendEntriesArgs) {m : Node} {reply : AppendEntriesReply}
      {served : Node × PbAppendEntriesResponse}
      → AppendArgsFit args
      → IsInt32 n.current_term
      → handle_append_entries n args ≡ some (m, reply)
      → serve_append_entries n (append_entries_args_to_proto args) ≡ some served
      → transport conn (append_entries_args_to_proto args) ≡ some served.1
      → (served.0 ≡ m) × ((call_append_entries transport conns target dialed args).0 ≡ some reply)
  append_entries_arrives transport n args {m} {reply} {served} fit small h served_is answered =
      let here = serve_append_entries_lem n args fit h in
      let same : served ≡ (m, append_entries_reply_to_proto reply) = cc (here, served_is) in
      let term : int32 reply.term ≡ reply.term =
        rw (append-term n args h) ((int32_iff n.current_term).1 small) in
      (
        ap (λ (p : Node × PbAppendEntriesResponse). p.0) same,
        call_append_entries_lem transport args reply term
            (answered ∙ ap (λ (p : Node × PbAppendEntriesResponse). some p.1) same),
      )

  call_request_vote_lem :
      (transport : Conn → PbRequestVoteRequest → Option PbRequestVoteResponse)
      (args : RequestVoteArgs) (reply : RequestVoteReply)
      → int32 reply.term ≡ reply.term
      → transport conn (request_vote_args_to_proto args) ≡ some (request_vote_reply_to_proto reply)
      → (call_request_vote transport conns target dialed args).0 ≡ some reply
  unfolding call_request_vote request_vote_reply_to_proto request_vote_reply_from_proto
  call_request_vote_lem transport args reply fits answered =
      rw (connected, answered) (ap (λ t. some (vote_of t reply.vote_granted)) fits)

  -- Where the sender has a connection, and the call over it brings the response that the other
  -- server gives, a RequestVote whose numbers fit in 32 bits, as the other node's term does, moves
  -- that node as its handler does on the arguments themselves, and the sender reads the handler's
  -- reply.
  pub request_vote_arrives :
      (transport : Conn → PbRequestVoteRequest → Option PbRequestVoteResponse) (n : Node)
      (args : RequestVoteArgs) {m : Node} {reply : RequestVoteReply}
      {served : Node × PbRequestVoteResponse}
      → VoteArgsFit args
      → IsInt32 n.current_term
      → handle_request_vote n args ≡ some (m, reply)
      → serve_request_vote n (request_vote_args_to_proto args) ≡ some served
      → transport conn (request_vote_args_to_proto args) ≡ some served.1
      → (served.0 ≡ m) × ((call_request_vote transport conns target dialed args).0 ≡ some reply)
  request_vote_arrives transport n args {m} {reply} {served} fit small h served_is answered =
      let here = serve_request_vote_lem n args fit h in
      let same : served ≡ (m, request_vote_reply_to_proto reply) = cc (here, served_is) in
      let term : int32 reply.term ≡ reply.term =
        rw (vote-term n args h) ((int32_iff n.current_term).1 small) in
      (
        ap (λ (p : Node × PbRequestVoteResponse). p.0) same,
        call_request_vote_lem transport args reply term
            (answered ∙ ap (λ (p : Node × PbRequestVoteResponse). some p.1) same),
      )
