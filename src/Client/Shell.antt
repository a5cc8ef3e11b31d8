-- ===== src/Client/Shell.antt =====
-- cmd/kv-client/main.go: the loop over the lines of the input. What it prints is a list of Line.
pub mod Reports
pub mod Answers
use kvraft.Base.{
  ◌⊎◌, inl, inr, ◌≡◌, Bool, true, false, ◌||◌, List, [], ◌∷◌, ◌++◌, Bytes, codes, eq_bytes,
  if◌then◌else◌,
}
use kvraft.Client.{KvServiceClient, ClientRequest, ClientResponse, invoke_kv, op_get}
use kvraft.Client.Words.{fields}
use kvraft.Server.Apply.{op_put, op_delete}

-- The lines that the shell prints, or logs.
pub data Line (E : Type 0) : Type 0 where
  goodbye help usage_put usage_get usage_delete ok other_node : Line E
  shown unknown hint failed : Bytes → Line E
  rpc_error : E → Line E

-- What one line of the input does: what it prints, the servers after it, and whether the loop goes on.
pub record Turn (S E : Type 0) : Type 0 where
  pub lines : List (Line E)
  pub servers : S
  pub goes_on : Bool

abbrev pub not_leader_text : Bytes
not_leader_text = codes "not leader"

unfoldable pub print_leader_hint : {E : Type 0} → Bytes → Line E
print_leader_hint leader = if eq_bytes leader [] then other_node else hint leader

module _ {S E : Type 0} where
  -- An answer: the line for success is the command's own.
  unfoldable pub print_answer : (ClientResponse → Line E) → (E ⊎ ClientResponse) × S → Turn S E
  unfolding print_leader_hint
  print_answer success (inl e, s) = record {
    lines = rpc_error e ∷ [];
    servers = s;
    goes_on = false;
  }
  print_answer success (inr resp, s) = record {
    lines =
        if resp.success
        then success resp ∷ []
        else failed resp.error
          ∷ (if eq_bytes resp.error not_leader_text
              then print_leader_hint resp.leader ∷ []
              else []);
    servers = s;
    goes_on = true;
  }

  abbrev say : Line E → S → Turn S E
  say line s = record { lines = line ∷ []; servers = s; goes_on = true }

  -- The words behind the command; a wrong number of them prints the usage.
  unfoldable pub run_put : KvServiceClient S E → List Bytes → S → Turn S E
  run_put client (key ∷ value ∷ []) s =
      print_answer (λ resp. ok)
        (invoke_kv client (record { type = op_put; key = key; value = value }) s)
  run_put client _ s = say usage_put s

  unfoldable pub run_get : KvServiceClient S E → List Bytes → S → Turn S E
  run_get client (key ∷ []) s =
      print_answer (λ resp. shown resp.value)
        (invoke_kv client (record { type = op_get; key = key; value = [] }) s)
  run_get client _ s = say usage_get s

  unfoldable pub run_delete : KvServiceClient S E → List Bytes → S → Turn S E
  run_delete client (key ∷ []) s =
      print_answer (λ resp. ok)
        (invoke_kv client (record { type = op_delete; key = key; value = [] }) s)
  run_delete client _ s = say usage_delete s

  unfoldable pub run_words : KvServiceClient S E → List Bytes → S → Turn S E
  run_words client [] s = record { lines = []; servers = s; goes_on = true }
  run_words client (cmd ∷ args) s =
      if eq_bytes cmd (codes "quit") || eq_bytes cmd (codes "exit")
      then record { lines = goodbye ∷ []; servers = s; goes_on = false }
      else if eq_bytes cmd (codes "help")
      then say help s
      else if eq_bytes cmd (codes "put")
      then run_put client args s
      else if eq_bytes cmd (codes "get")
      then run_get client args s
      else if eq_bytes cmd (codes "delete")
      then run_delete client args s
      else say (unknown cmd) s

  -- The loop, through the lines that there are.
  unfoldable pub run_shell : KvServiceClient S E → List Bytes → S → List (Line E) × S
  run_shell client [] s = ([], s)
  run_shell client (line ∷ input) s =
      let turn = run_words client (fields line) s in
      let (rest, last) = run_shell client input turn.servers in
      if turn.goes_on then (turn.lines ++ rest, last) else (turn.lines, turn.servers)
