-- ===== src/Server/Requests.antt =====
-- server/server.go: what a client's call answers: submitAndWait up to its wait, the leader hint, and
-- the responses of GRPCKVService.
pub mod Hints
use kvraft.Base.{
  ◌⊎◌, inl, inr, Bool, true, false, Option, none, some, List, [], Bytes, codes, if◌then◌else◌,
}
use kvraft.Base.Int.{ℤ, pos, ltb_ℤ, eq_ℤ, eq_ℤ_iff}
use kvraft.Base.Assoc.{Eq, Assoc, lookup}
use kvraft.Raft.Types.{Command}
use kvraft.Raft.Node.{Node}
use kvraft.Raft.Election.{submit}
use kvraft.Server.Types.{ServerError, not_leader, PendingKey}
use kvraft.Server.Apply.{op_put, op_delete, command_type_read_barrier}

instance abbrev pub int_eq : Eq ℤ
int_eq = record { beq = eq_ℤ; beq_iff = eq_ℤ_iff }

-- The fields of RaftKVServer that a request reads; `raft_node` is none where it is nil.
pub record Server : Type 0 where
  pub id : ℤ
  pub client_address : Bytes
  pub client_peers : Assoc ℤ Bytes
  pub raft_node : Option Node

pub record KvResponse : Type 0 where
  pub success : Bool
  pub value : Bytes
  pub error : Bytes
  pub leader : Bytes

-- submitAndWait up to the key that it waits for.
unfoldable pub start_submit : Server → Command → Server × (ServerError ⊎ PendingKey)
start_submit s command = elim s.raft_node [
  | none ↦ (s, inl not_leader)
  | some n ↦
      let (n', (index, term, is_leader)) = submit n command in
      (
        record s { raft_node = some n' },
        (if is_leader then inr (record { index = index; term = term }) else inl not_leader),
      )
]

abbrev pub put_command : Bytes → Bytes → Command
put_command key value = record { type = op_put; key = key; value = value }

abbrev pub delete_command : Bytes → Command
delete_command key = record { type = op_delete; key = key; value = [] }

abbrev pub read_barrier : Command
read_barrier = record { type = command_type_read_barrier; key = []; value = [] }

unfoldable pub leader_address : Server → Bytes
leader_address s = elim s.raft_node [
  | none ↦ []
  | some n ↦ if ltb_ℤ n.leader_id (pos 0) then [] else elim (lookup n.leader_id s.client_peers) [
    | some address ↦ address
    | none ↦ if eq_ℤ n.leader_id s.id then s.client_address else []
  ]
]

abbrev pub is_not_leader : ServerError → Bool
is_not_leader not_leader = true
is_not_leader _ = false

-- The text of an error is the error's own; it is an argument here.
unfoldable pub error_response : (ServerError → Bytes) → Server → ServerError → KvResponse
error_response text s e = record {
  success = false;
  value = [];
  error = text e;
  leader = if is_not_leader e then leader_address s else [];
}

unfoldable pub get_response : (ServerError → Bytes) → Server → ServerError ⊎ Bytes → KvResponse
get_response text s (inl e) = error_response text s e
get_response text s (inr value) = record { success = true; value = value; error = []; leader = [] }

-- Put and Delete answer in the same way.
unfoldable pub write_response : (ServerError → Bytes) → Server → Option ServerError → KvResponse
write_response text s (some e) = error_response text s e
write_response text s none = record { success = true; value = []; error = []; leader = [] }
