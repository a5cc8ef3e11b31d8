-- ===== src/Client/Shell/Reports.antt =====
-- cmd/kv-client/main.go: what the shell prints for an error of a server, and where it sends the user.
use kvraft.Base.{
  ◌⊎◌, inl, inr, ◌≡◌, ◌≢◌, sym, Bool-cases, Option-cases, ◌∙◌, refl, none, some, List, [], ◌∷◌,
  Bytes, eq_bytes, eq_bytes_iff, if◌then◌else◌, arith,
}
use kvraft.Base.Int.{pos, ◌≤ℤ◌, eq_ℤ_iff}
use kvraft.Base.Assoc.{lookup}
use kvraft.Raft.Node.{Node}
use kvraft.Server.Types.{ServerError, not_leader, commit_timeout, server_closed, canceled, store}
use kvraft.Server.Requests.{Server, int_eq, leader_address, is_not_leader}
use kvraft.Client.Shell.{Line, other_node, hint, failed, print_leader_hint}

-- The address that a server knows for the leader that its node names: the one on record for the
-- leader's id or, where none is and the id is the server's, its own. It is not empty.
abbrev pub KnowsLeader : Server → Bytes → Type 0
KnowsLeader s address =
    (address ≢ [])
    × (n : Node) × (s.raft_node ≡ some n)
    × (pos 0 ≤ℤ n.leader_id)
    × ((lookup n.leader_id s.client_peers ≡ some address)
        ⊎ ((lookup n.leader_id s.client_peers ≡ none)
            × (n.leader_id ≡ s.id)
            × (address ≡ s.client_address)))

-- What the shell prints for an error of the server: its text and, exactly where the error is that it
-- is not the leader, the address of the leader that it knows, or that another node is to be tried
-- where it knows none.
abbrev pub IsReport :
    {E : Type 0} → (ServerError → Bytes) → Server → ServerError → List (Line E) → Type 0
IsReport text s e lines =
    ((e ≢ not_leader) × (lines ≡ failed (text e) ∷ []))
    ⊎ (((e ≡ not_leader)
          × (address : Bytes) × KnowsLeader s address
          × (lines ≡ failed (text e) ∷ hint address ∷ []))
        ⊎ ((e ≡ not_leader)
            × ((address : Bytes) → ¬ KnowsLeader s address)
            × (lines ≡ failed (text e) ∷ other_node ∷ [])))

-- The lines that the code prints for an error.
abbrev pub error_lines : {E : Type 0} → (ServerError → Bytes) → Server → ServerError → List (Line E)
error_lines text server e =
    failed (text e)
    ∷ (if is_not_leader e then print_leader_hint (leader_address server) ∷ [] else [])

leader_address-KnowsLeader : (s : Server) → leader_address s ≢ [] → KnowsLeader s (leader_address s)
unfolding leader_address
leader_address-KnowsLeader s h = elim (Option-cases s.raft_node) [
  | inl missing ↦ absurd (ground (arith, h, missing))
  | inr (n, at) ↦
      (h, n, at, ground (arith, h, at), ground (arith, h, at, eq_ℤ_iff n.leader_id s.id))
]

known_is_leader_address :
    (s : Server) (address : Bytes) → KnowsLeader s address → leader_address s ≡ address
unfolding leader_address
known_is_leader_address s address (some_address, n, at, known, from) =
    ground (arith, at, known, from, eq_ℤ_iff n.leader_id s.id)

hint_line :
    {E : Type 0} (text : ServerError → Bytes) (s : Server)
    → IsReport {E = E} text s not_leader
        (failed (text not_leader) ∷ print_leader_hint (leader_address s) ∷ [])
unfolding print_leader_hint
hint_line text s = elim (Bool-cases (eq_bytes (leader_address s) [])) [
  | inl missing ↦
      let empty = (eq_bytes_iff (leader_address s) []).0 missing in
      inr (
        inr (
          refl,
          (λ address known. known.0 (sym (known_is_leader_address s address known) ∙ empty)),
          rw (print_leader_hint, missing) refl,
        ))
  | inr found ↦ inr (
      inl (
        refl,
        leader_address s,
        leader_address-KnowsLeader s (ground (arith, found, eq_bytes_iff (leader_address s) [])),
        rw (print_leader_hint, found) refl,
      ))
]

pub error_lines-IsReport :
    {E : Type 0} (text : ServerError → Bytes) (s : Server) (e : ServerError)
    → IsReport {E = E} text s e (error_lines text s e)
error_lines-IsReport text s not_leader = hint_line text s
error_lines-IsReport text s commit_timeout = inl ((λ h. cc), refl)
error_lines-IsReport text s server_closed = inl ((λ h. cc), refl)
error_lines-IsReport text s canceled = inl ((λ h. cc), refl)
error_lines-IsReport text s (store e) = inl ((λ h. cc), refl)
