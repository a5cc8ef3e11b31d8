-- ===== src/Server/Requests/Hints.antt =====
-- server/server.go: which entry a call waits for, and which server a refused client is sent to.
use kvraft.Base.{
  Option-cases, List, ◌≡◌, ◌≢◌, ◌⊎◌, inl, inr, some, [], ◌∷◌, ◌++◌, Bytes, arith, length, get_elem?,
  get_elem?-append_right,
}
use kvraft.Base.Int.{pos, ◌≤ℤ◌}
use kvraft.Base.Assoc.{lookup}
use kvraft.Raft.Types.{Command, LogEntry, leader}
use kvraft.Raft.Node.{Node, signal_all_replications}
use kvraft.Raft.Election.{submit}
use kvraft.Server.Types.{ServerError, not_leader, PendingKey}
use kvraft.Server.Requests.{Server, int_eq, start_submit, leader_address, error_response}

last_is : (log : List LogEntry) (e : LogEntry) → get_elem? (log ++ e ∷ []) (length log) ≡ some e
last_is log e = get_elem?-append_right log (e ∷ []) (length log) 0 (omega arith)

-- A call that goes on to wait was taken by a leader, and waits for the key of the entry that holds
-- its own command, at the end of the leader's log.
pub start_submit-own_entry :
    (s : Server) (command : Command) {s' : Server} {key : PendingKey}
    → start_submit s command ≡ (s', inr key)
    → (n : Node) × (n' : Node) × (s.raft_node ≡ some n)
      × (n.state ≡ leader)
      × (s'.raft_node ≡ some n')
      × (key.index ≡ pos (length n.log))
      × (get_elem? n'.log (length n.log)
          ≡ some (record { term = key.term; index = key.index; command = command }))
unfolding start_submit submit signal_all_replications
start_submit-own_entry s command {s'} {key} h = elim (Option-cases s.raft_node) [
  | inl e ↦ absurd (ground (arith, h, e))
  | inr (n, e) ↦ (
    n,
    (submit n command).0,
    e,
    ground (arith, h, e),
    ground (arith, h, e),
    ground (arith, h, e),
    ground (
      arith,
      h,
      e,
      last_is n.log
          (record { term = n.current_term; index = pos (length n.log); command = command }),
    ),
  )
]

-- A refusal names a server only where the error is that the node is not the leader, and then it names
-- the one that the node takes for the leader: the peer with its id, or this server itself.
pub error_response-leader :
    (text : ServerError → Bytes) (s : Server) (e : ServerError)
    → (error_response text s e).leader ≢ []
    → (e ≡ not_leader)
      × ((n : Node) × (s.raft_node ≡ some n)
          × (pos 0 ≤ℤ n.leader_id)
          × ((lookup n.leader_id s.client_peers ≡ some (error_response text s e).leader)
              ⊎ ((n.leader_id ≡ s.id) × ((error_response text s e).leader ≡ s.client_address))))
unfolding error_response leader_address
error_response-leader text s e h = elim (Option-cases s.raft_node) [
  | inl at ↦ absurd (ground (arith, h, at))
  | inr (n, at) ↦ (ground (arith, h, at), (n, at, ground (arith, h, at), ground (arith, h, at)))
]
