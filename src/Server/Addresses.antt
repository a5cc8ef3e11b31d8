-- ===== src/Server/Addresses.antt =====
-- server/server.go: deriveClientPeerAddresses and addressesByID, with what they use of net, strconv
-- and strings.
pub mod ById
use kvraft.Base.{
  ℕ, zero, suc, ◌+◌, ◌-◌, ◌*◌, ◌/◌, ◌%◌, Bool, true, false, not, ◌&&◌, ◌||◌, Option, none, some,
  List, [], ◌∷◌, ◌++◌, Bytes, codes, eq_bytes, length, take, drop, ltb, leb, ◌==◌, if◌then◌else◌,
  ◌>>=◌,
}
use kvraft.Base.Spaces.{space_width}
use kvraft.Base.Int.{ℤ, pos, negsuc, leb_ℤ, ◌+ℤ◌, ◌-ℤ◌}
use kvraft.Base.Assoc.{Assoc, insert}
use kvraft.Kvstore.Names.{print_digits}
use kvraft.Server.Requests.{int_eq}

-- What stands behind the rest of a rune of white space, and the white space after it.
unfoldable pub trim_left : ℕ → Bytes → Bytes
trim_left skip [] = []
trim_left (suc skip) (b ∷ s) = trim_left skip s
trim_left zero (b ∷ s) = elim (space_width (b ∷ s)) [ suc skip ↦ trim_left skip s | zero ↦ b ∷ s ]

-- What stands before the place from which on all is white space.
unfoldable pub trim_right : Bytes → Bytes
trim_right [] = []
trim_right (b ∷ s) = elim (trim_left 0 (b ∷ s)) [ [] ↦ [] | _ ∷ _ ↦ b ∷ trim_right s ]

-- `strings.TrimSpace`
unfoldable pub trim_space : Bytes → Bytes
unfolding trim_left trim_right
trim_space s = trim_right (trim_left 0 s)

-- `strings.IndexByte`; none for -1.
unfoldable pub index_byte : ℕ → Bytes → Option ℕ
index_byte b [] = none
index_byte b (c ∷ s) =
    let rest = index_byte b s in
    if c == b then some 0 else elim rest [ none ↦ none | some i ↦ some (i + 1) ]

unfoldable pub last_index_byte : ℕ → Bytes → Option ℕ
last_index_byte b [] = none
last_index_byte b (c ∷ s) = elim (last_index_byte b s) [
  | some i ↦ some (i + 1)
  | none ↦ if c == b then some 0 else none
]

abbrev pub has_byte : ℕ → Bytes → Bool
has_byte b s = elim (index_byte b s) [ none ↦ false | some _ ↦ true ]

-- The end of `net.SplitHostPort`: brackets must not stand behind their place.
split_at : Bytes → ℕ → ℕ → ℕ → Bytes → Option (Bytes × Bytes)
split_at s colon j k host =
    if has_byte b'[' (drop j s) || has_byte b']' (drop k s)
    then none
    else some (host, drop (colon + 1) s)

split_bracketed : Bytes → ℕ → Option (Bytes × Bytes)
unfolding split_at
split_bracketed s colon = elim (index_byte b']' s) [
  | none ↦ none
  | some end ↦ if end + 1 == colon then split_at s colon 1 (end + 1) (drop 1 (take end s)) else none
]

-- `net.SplitHostPort`: host and port behind the last colon; none for its errors.
unfoldable pub split_host_port : Bytes → Option (Bytes × Bytes)
unfolding split_bracketed split_at
split_host_port s = elim (last_index_byte b':' s) [
  | none ↦ none
  | some colon ↦
      if eq_bytes (take 1 s) (codes "[")
      then split_bracketed s colon
      else if has_byte b':' (take colon s)
      then none
      else split_at s colon 0 0 (take colon s)
]

-- `net.JoinHostPort`
unfoldable pub join_host_port : Bytes → Bytes → Bytes
join_host_port host port =
    if has_byte b':' host
    then codes "[" ++ (host ++ (codes "]:" ++ port))
    else host ++ (codes ":" ++ port)

-- The digits of a number below `limit`, from the value of those in front.
atoi_digits : ℕ → Bytes → ℕ → Option ℕ
atoi_digits limit [] n = some n
atoi_digits limit (c ∷ s) n =
    let next = n * 10 + (c - b'0') in
    let rest = atoi_digits limit s next in
    if ltb c b'0' || (ltb b'9' c || leb limit next) then none else rest

abbrev pub max_int64 : ℕ
max_int64 = 9223372036854775807

abbrev negated : ℕ → ℤ
negated zero = pos 0
negated (suc n) = negsuc n

unsigned : ℕ → Bytes → Option ℕ
unfolding atoi_digits
unsigned limit [] = none
unsigned limit (c ∷ s) = atoi_digits limit (c ∷ s) 0

-- `strconv.Atoi`: an optional sign, and digits of an int64.
unfoldable pub atoi : Bytes → Option ℤ
unfolding unsigned
atoi [] = none
atoi (c ∷ s) =
    if c == b'-'
    then elim (unsigned (max_int64 + 2) s) [ none ↦ none | some n ↦ some (negated n) ]
    else elim (unsigned (max_int64 + 1) (if c == b'+' then s else c ∷ s)) [
      | none ↦ none
      | some n ↦ some (pos n)
    ]

-- The number of digits, for numbers of at most twenty.
width : ℕ → ℕ → ℕ
width zero n = 1
width (suc fuel) n = let rest = width fuel (n / 10) in if ltb n 10 then 1 else rest + 1

-- `strconv.Itoa` and `%d`.
unfoldable pub itoa : ℤ → Bytes
unfolding width
itoa (pos n) = print_digits (width 20 n) n []
itoa (negsuc n) = codes "-" ++ print_digits (width 20 (n + 1)) (n + 1) []

abbrev pub split_port : Bytes → Option (Bytes × ℤ)
split_port address = do (host, text) ← split_host_port address; port ← atoi text; some (host, port)

abbrev pub two_to_64 : ℕ
two_to_64 = 18446744073709551616

-- Go's int has 64 bits: the low 64 bits of a sum or a difference, as a signed number.
unfoldable pub int64_of : ℕ → ℤ
int64_of n = if leb n max_int64 then pos n else negsuc (two_to_64 - 1 - n)

unfoldable pub int64 : ℤ → ℤ
unfolding int64_of
int64 (pos n) = int64_of (n % two_to_64)
int64 (negsuc n) = int64_of (two_to_64 - 1 - n % two_to_64)

-- One round of the loop: the address with its port moved by `offset`.
unfoldable pub derive_address : ℤ → Bytes → Option Bytes
derive_address offset peer = do
  (host, peer_port) ← split_port (trim_space peer)
  let client_peer_port = int64 (peer_port +ℤ offset)
  if leb_ℤ client_peer_port (pos 0)
      then none
      else some (join_host_port host (itoa client_peer_port))

unfoldable pub derive_addresses : ℤ → List Bytes → Option (List Bytes)
derive_addresses offset [] = some []
derive_addresses offset (peer ∷ peers) = do
  address ← derive_address offset peer
  addresses ← derive_addresses offset peers
  some (address ∷ addresses)

unfoldable pub derive_client_peer_addresses : List Bytes → Bytes → Bytes → Option (List Bytes)
derive_client_peer_addresses raft_peers raft_address client_address = do
  (_, raft_port) ← split_port raft_address
  (_, client_port) ← split_port client_address
  derive_addresses (int64 (client_port -ℤ raft_port)) raft_peers

unfoldable pub addresses_from : ℕ → List Bytes → Assoc ℤ Bytes → Assoc ℤ Bytes
addresses_from i [] by_id = by_id
addresses_from i (address ∷ addresses) by_id =
    addresses_from (i + 1) addresses (
      if eq_bytes (trim_space address) [] then by_id else insert (pos i) (trim_space address) by_id)

unfoldable pub addresses_by_id : List Bytes → Assoc ℤ Bytes
unfolding addresses_from
addresses_by_id addresses = addresses_from 0 addresses []

-- The field of the server, with its own address.
unfoldable pub client_peers_of : List Bytes → ℤ → Bytes → Assoc ℤ Bytes
client_peers_of client_peers id client_address =
    let by_id = addresses_by_id client_peers in
    if eq_bytes client_address [] then by_id else insert id client_address by_id
