-- ===== src/Server/Config/Bounds.antt =====
-- What a configuration is after normalizeConfig.
use kvraft.Base.{
  ◌≡◌, refl, inl, inr, some, List, [], ◌∷◌, Bytes, arith, length, Option-cases, ℕ, ◌+◌, ◌-◌, ◌*◌,
  ◌/◌, ◌%◌, leb, Bool-cases,
}
use kvraft.Base.Int.{ℤ, pos, pos_part, neg_part, negsuc, ◌<ℤ◌, ◌≤ℤ◌, ◌+ℤ◌, ◌-ℤ◌}
use kvraft.Server.Addresses.{
  trim_space, itoa, split_port, join_host_port, derive_address, derive_addresses,
  derive_client_peer_addresses, int64, int64_of, max_int64, two_to_64,
}

-- Two numbers that are the same in 64 bits.
abbrev pub SameIn64 : ℤ → ℤ → Type 0
SameIn64 a b =
    (j k : ℕ) × (pos_part a + neg_part b + j * two_to_64 ≡ pos_part b + neg_part a + k * two_to_64)

-- The address has the host of the peer and the one port from 1 up to the largest int that is, in
-- 64 bits, as far from the peer's port as `client` is from `raft`.
abbrev pub IsMoved : ℤ → ℤ → Bytes → Bytes → Type 0
IsMoved client raft peer address =
    (host : Bytes) × (old new : ℤ) × (split_port (trim_space peer) ≡ some (host, old))
    × (pos 0 <ℤ new)
    × (new ≤ℤ pos max_int64)
    × SameIn64 (new +ℤ raft) (old +ℤ client)
    × (address ≡ join_host_port host (itoa new))

abbrev pub AllMoved : ℤ → ℤ → List Bytes → List Bytes → Type 0
AllMoved client raft [] [] = Unit
AllMoved client raft (p ∷ ps) (a ∷ addresses) =
    IsMoved client raft p a × AllMoved client raft ps addresses
AllMoved client raft [] (a ∷ addresses) = ⊥
AllMoved client raft (p ∷ ps) [] = ⊥

int64-SameIn64 : (a : ℤ) → SameIn64 (int64 a) a
unfolding int64 int64_of
int64-SameIn64 (pos n) = elim (Bool-cases (leb (n % two_to_64) max_int64)) [
  | inl low ↦ (n / two_to_64, 0, ground (arith, low))
  | inr high ↦ (n / two_to_64 + 1, 0, ground (arith, high))
]
int64-SameIn64 (negsuc n) = elim (Bool-cases (leb (two_to_64 - 1 - n % two_to_64) max_int64)) [
  | inl low ↦ (0, n / two_to_64 + 1, ground (arith, low))
  | inr high ↦ (1, n / two_to_64 + 1, ground (arith, high))
]

int64-le-max_int64 : (a : ℤ) → int64 a ≤ℤ pos max_int64
unfolding int64 int64_of
int64-le-max_int64 (pos n) = ground arith
int64-le-max_int64 (negsuc n) = ground arith

parts-add :
    (a b : ℤ)
    → pos_part (a +ℤ b) + (neg_part a + neg_part b) ≡ neg_part (a +ℤ b) + (pos_part a + pos_part b)
parts-add a b = ground arith

parts-sub :
    (a b : ℤ)
    → pos_part (a -ℤ b) + (neg_part a + pos_part b) ≡ neg_part (a -ℤ b) + (pos_part a + neg_part b)
parts-sub a b = ground arith

add_up :
    (old client raft offset new : ℤ)
    → SameIn64 new (old +ℤ offset)
    → SameIn64 offset (client -ℤ raft)
    → SameIn64 (new +ℤ raft) (old +ℤ client)
add_up old client raft offset new (j, k, outer) (i, l, inner) = (
  j + i,
  k + l,
  omega (
    arith,
    outer,
    inner,
    parts-add old offset,
    parts-sub client raft,
    parts-add new raft,
    parts-add old client,
  ),
)

-- The wrapped sum with a wrapped difference.
moved_SameIn64 :
    (old client raft : ℤ) → SameIn64 (int64 (old +ℤ int64 (client -ℤ raft)) +ℤ raft) (old +ℤ client)
moved_SameIn64 old client raft =
    add_up old client raft (int64 (client -ℤ raft)) (int64 (old +ℤ int64 (client -ℤ raft)))
      (int64-SameIn64 (old +ℤ int64 (client -ℤ raft))) (int64-SameIn64 (client -ℤ raft))

derive_address-IsMoved :
    (client raft : ℤ) (peer address : Bytes)
    → derive_address (int64 (client -ℤ raft)) peer ≡ some address
    → IsMoved client raft peer address
unfolding derive_address
derive_address-IsMoved client raft peer address h =
    elim (Option-cases (split_port (trim_space peer))) [
      | inl missing ↦ absurd (ground (arith, h, missing))
      | inr ((host, port), found) ↦ (
        host,
        port,
        int64 (port +ℤ int64 (client -ℤ raft)),
        found,
        ground (arith, h, found),
        int64-le-max_int64 (port +ℤ int64 (client -ℤ raft)),
        moved_SameIn64 port client raft,
        ground (arith, h, found),
      )
    ]

derive_addresses-AllMoved :
    (client raft : ℤ) (peers addresses : List Bytes)
    → derive_addresses (int64 (client -ℤ raft)) peers ≡ some addresses
    → AllMoved client raft peers addresses × (length addresses ≡ length peers)
unfolding derive_addresses
derive_addresses-AllMoved client raft [] [] h = (tt, refl)
derive_addresses-AllMoved client raft [] (a ∷ addresses) h = absurd (ground (arith, h))
derive_addresses-AllMoved client raft (p ∷ peers) addresses h =
    elim (Option-cases (derive_address (int64 (client -ℤ raft)) p)) [
      | inl missing ↦ absurd (ground (arith, h, missing))
      | inr (a, found) ↦ elim (Option-cases (derive_addresses (int64 (client -ℤ raft)) peers)) [
        | inl missing ↦ absurd (ground (arith, h, found, missing))
        | inr (rest, others) ↦
            let is : a ∷ rest ≡ addresses = ground (arith, h, found, others) in
            let (moved, size) = derive_addresses-AllMoved client raft peers rest others in
            rw (← is) ((derive_address-IsMoved client raft p a found, moved), omega (arith, size))
      ]
    ]

-- The addresses that are derived for the clients are as many as the peers, and each is the host of
-- its peer with a port from 1 up to the largest int: the one that is, in the 64 bits of Go's int, as
-- far from the peer's port as the client port of this node is from its own port.
pub derive_client_peer_addresses-AllMoved :
    (peers : List Bytes) (raft_address client_address : Bytes) (addresses : List Bytes)
    → derive_client_peer_addresses peers raft_address client_address ≡ some addresses
    → (raft client : Bytes × ℤ) × (split_port raft_address ≡ some raft)
      × (split_port client_address ≡ some client)
      × AllMoved client.1 raft.1 peers addresses
      × (length addresses ≡ length peers)
unfolding derive_client_peer_addresses
derive_client_peer_addresses-AllMoved peers raft_address client_address addresses h =
    elim (Option-cases (split_port raft_address)) [
      | inl missing ↦ absurd (ground (arith, h, missing))
      | inr (raft, found) ↦ elim (Option-cases (split_port client_address)) [
        | inl missing ↦ absurd (ground (arith, h, found, missing))
        | inr (client, other) ↦
            let (moved, size) =
              derive_addresses-AllMoved client.1 raft.1 peers addresses
                (ground (arith, h, found, other)) in
            (raft, client, found, other, moved, size)
      ]
    ]
