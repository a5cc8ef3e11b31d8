-- ===== src/Tests/Clients.antt =====
-- common/ and cmd/kv-client/: a client that is sent to the leader, and one that writes.
use kvraft.Base.{
  inl, inr, ◌≡◌, refl, true, none, some, List, [], ◌∷◌, Bytes, codes, eq_bytes, arith,
}
use kvraft.Base.Spaces.{space_width}
use kvraft.Base.Int.{pos}
use kvraft.Base.Assoc.{lookup}
use kvraft.Raft.Node.{new_node}
use kvraft.Server.Types.{ServerError, not_leader, commit_timeout, server_closed, canceled, store}
use kvraft.Server.Requests.{Server, get_response, write_response, error_response, leader_address}
use kvraft.Client.{KvServiceClient, KvRequest, invoke_kv, client_response}
use kvraft.Client.Words.{fields, fields_from, begins_word, join_words, IsWord}
use kvraft.Client.Shell.{
  Line, ok, failed, hint, goodbye, usage_get, run_words, run_shell, run_get, run_put, print_answer,
  print_leader_hint,
}
use kvraft.Client.Shell.Reports.{IsReport}
use kvraft.Client.Shell.Answers.{IsText, get_line, put_line}

abbrev text : ServerError → Bytes
text not_leader = codes "not leader"
text commit_timeout = codes "timed out waiting for commit"
text server_closed = codes "server closed"
text canceled = codes "canceled"
text (store e) = codes "store"

texts : IsText text
texts not_leader = (λ h. refl, λ h. refl)
texts commit_timeout = (λ h. cc, λ h. cc)
texts server_closed = (λ h. cc, λ h. cc)
texts canceled = (λ h. cc, λ h. cc)
texts (store e) = (λ h. cc, λ h. cc)

-- Server 0, whose node takes node 1 for the leader.
abbrev server : Server
server = record {
  id = pos 0;
  client_address = codes "a:1";
  client_peers = (pos 1, codes "b:1") ∷ [];
  raft_node = some (record (new_node 0 (codes "a" ∷ codes "b" ∷ [])) { leader_id = pos 1 });
}

-- A service that counts the calls: it is no leader for reads, and takes every write.
abbrev service : KvServiceClient (List KvRequest) ⊥
service = record {
  get = λ req s. (inr (get_response text server (inl not_leader)), req ∷ s);
  put = λ req s. (inr (write_response text server none), req ∷ s);
  delete = λ req s. (inr (write_response text server none), req ∷ s);
}

letter : IsWord (codes "k")
letter = ground arith

letters : IsWord (codes "vv")
letters = ground arith

get_line_example :
    (lines : List (Line ⊥)) × (run_words service
        (fields (join_words (codes "get" ∷ codes "k" ∷ [])))
        []
      ≡ record {
        lines = lines;
        servers = record { key = codes "k"; value = [] } ∷ [];
        goes_on = true;
      })
    × IsReport text server not_leader lines
get_line_example = get_line service text server (codes "k") (inl not_leader) [] _ texts letter refl

put_line_example :
    (lines : List (Line ⊥)) × (run_words service
        (fields (join_words (codes "put" ∷ codes "k" ∷ codes "vv" ∷ [])))
        []
      ≡ record {
        lines = lines;
        servers = record { key = codes "k"; value = codes "vv" } ∷ [];
        goes_on = true;
      })
    × (lines ≡ ok ∷ [])
put_line_example =
    put_line service text server (codes "k") (codes "vv") none [] _ texts letter letters refl

-- White space outside ASCII parts words too; a letter outside ASCII does not.
wide_fields :
    fields (0xc3 ∷ 0xa9 ∷ 0xc2 ∷ 0xa0 ∷ b'v' ∷ 0xe3 ∷ 0x80 ∷ 0x80 ∷ 0xc2 ∷ 0x85 ∷ b'w' ∷ [])
    ≡ (0xc3 ∷ 0xa9 ∷ []) ∷ codes "v" ∷ codes "w" ∷ []
unfolding fields fields_from begins_word space_width
wide_fields = refl

-- A session: what stands behind quit is not read.
session :
    run_shell service
      (codes "get k" ∷ codes "  put  k  v " ∷ codes "get" ∷ codes "quit" ∷ codes "put a b" ∷ [])
      []
    ≡ (
      failed (codes "not leader") ∷ hint (codes "b:1") ∷ ok ∷ usage_get ∷ goodbye ∷ [],
      record { key = codes "k"; value = codes "v" } ∷ record { key = codes "k"; value = [] } ∷ [],
    )
unfolding run_shell run_words run_get run_put print_answer print_leader_hint invoke_kv lookup
    client_response fields fields_from begins_word space_width get_response write_response
    error_response leader_address eq_bytes new_node
session = refl
