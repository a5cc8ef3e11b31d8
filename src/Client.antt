-- ===== src/Client.antt =====
-- common/kv_api.go and cmd/kv-client/main.go: a client's call, and the commands of the shell.
pub mod Words
pub mod Shell
use kvraft.Base.{
  ◌⊎◌, inl, inr, Bool, true, false, List, [], ◌∷◌, Bytes, codes, eq_bytes, if◌then◌else◌,
}
use kvraft.Server.Requests.{KvResponse}
use kvraft.Server.Apply.{op_put, op_delete}

-- pb.KVRequest
pub record KvRequest : Type 0 where
  pub key : Bytes
  pub value : Bytes

pub record ClientRequest : Type 0 where
  pub type : Bytes
  pub key : Bytes
  pub value : Bytes

pub record ClientResponse : Type 0 where
  pub success : Bool
  pub value : Bytes
  pub error : Bytes
  pub leader : Bytes

-- pb.KVServiceClient, which is generated: what each call answers, and what it does to the servers
-- behind it. A failed call has an error of the transport.
pub record KvServiceClient (S E : Type 0) : Type 0 where
  pub get : KvRequest → S → (E ⊎ KvResponse) × S
  pub put : KvRequest → S → (E ⊎ KvResponse) × S
  pub delete : KvRequest → S → (E ⊎ KvResponse) × S

abbrev pub op_get : Bytes
op_get = codes "get"

module _ {S E : Type 0} where
  -- `if err != nil { return ClientResponse{}, err }`, and else the fields one by one.
  unfoldable pub client_response : (E ⊎ KvResponse) × S → (E ⊎ ClientResponse) × S
  client_response (inl e, s) = (inl e, s)
  client_response (inr r, s) =
      (inr (record { success = r.success; value = r.value; error = r.error; leader = r.leader }), s)

  unfoldable pub invoke_kv : KvServiceClient S E → ClientRequest → S → (E ⊎ ClientResponse) × S
  invoke_kv client req s =
      if eq_bytes req.type op_get
      then client_response (client.get (record { key = req.key; value = [] }) s)
      else if eq_bytes req.type op_put
      then client_response (client.put (record { key = req.key; value = req.value }) s)
      else if eq_bytes req.type op_delete
      then client_response (client.delete (record { key = req.key; value = [] }) s)
      else (
        inr (record { success = false; value = []; error = codes "unknown command"; leader = [] }),
        s,
      )
