-- ===== src/Server/Addresses/ById.antt =====
-- The map of client addresses: each id has its own entry of the list.
use kvraft.Base.{
  ℕ, zero, suc, ◌+◌, ◌≤◌, ◌-◌, ◌&&◌, not, ltb, ◌≡◌, refl, ◌∙◌, inl, inr, Option, none, some, List,
  [], ◌∷◌, Bytes, arith, eq_bytes, get_elem?, if◌then◌else◌, ◌==◌, Bool-cases,
}
use kvraft.Base.Int.{ℤ, pos, eq_ℤ, eq_ℤ_iff}
use kvraft.Base.Assoc.{Assoc, lookup, insert, lookup-insert}
use kvraft.Server.Requests.{int_eq}
use kvraft.Server.Addresses.{trim_space, addresses_from, addresses_by_id, client_peers_of}

-- The entry for an address of the list: an empty one has none.
abbrev pub entry_for : Option Bytes → Option Bytes
entry_for none = none
entry_for (some address) =
    if eq_bytes (trim_space address) [] then none else some (trim_space address)

-- The map in front of a round has no id from the round's own on.
abbrev added : ℕ → Bytes → Assoc ℤ Bytes → Assoc ℤ Bytes
added k address m =
    if eq_bytes (trim_space address) [] then m else insert (pos k) (trim_space address) m

lookup-added :
    (k j : ℕ) (address : Bytes) (m : Assoc ℤ Bytes)
    → lookup (pos k) m ≡ none
    → lookup (pos j) (added k address m)
      ≡ (if j == k then entry_for (some address) else lookup (pos j) m)
lookup-added k j address m missing = elim (Bool-cases (j == k)) [
  | inl here ↦
      let same : j ≡ k = ground (arith, here) in
      rw same (ground (arith, missing, lookup-insert (pos k) (pos k) (trim_space address) m))
  | inr other ↦ ground (arith, other, lookup-insert (pos k) (pos j) (trim_space address) m)
]

lookup-addresses_from :
    (k : ℕ) (addresses : List Bytes) (m : Assoc ℤ Bytes) (j : ℕ)
    → ((i : ℕ) → k ≤ i → lookup (pos i) m ≡ none)
    → lookup (pos j) (addresses_from k addresses m)
      ≡ (if ltb j k then lookup (pos j) m else entry_for (get_elem? addresses (j - k)))
unfolding addresses_from
lookup-addresses_from k [] m j missing = ground (arith, missing j)
lookup-addresses_from k (a ∷ addresses) m j missing =
    let added_missing : (i : ℕ) → k + 1 ≤ i → lookup (pos i) (added k a m) ≡ none = λ i at.
      lookup-added k i a m (missing k (omega arith))
      ∙ ground (arith, at, missing i (omega (arith, at))) in
    lookup-addresses_from (k + 1) addresses (added k a m) j added_missing ∙ shifted
  where
    shifted :
        (if ltb j (k + 1)
          then lookup (pos j) (added k a m)
          else entry_for (get_elem? addresses (j - (k + 1))))
        ≡ (if ltb j k then lookup (pos j) m else entry_for (get_elem? (a ∷ addresses) (j - k)))
    shifted = elim (Bool-cases (ltb k j)) [
      | inl behind ↦
          let e : j - k ≡ suc (j - (k + 1)) = ground (arith, behind) in
          rw e (ground (arith, behind))
      | inr not_behind ↦ elim (Bool-cases (j == k)) [
        | inl here ↦
            let e : j - k ≡ zero = ground (arith, here) in
            rw e (ground (arith, here, lookup-added k j a m (missing k (omega arith))))
        | inr other ↦
            ground (arith, not_behind, other, lookup-added k j a m (missing k (omega arith)))
      ]
    ]

-- The map of the client addresses has for each id the trimmed entry of the list at that place, if
-- there is one that is not empty, but for the own id the own address, if that is not empty.
pub lookup-client_peers_of :
    (client_peers : List Bytes) (id : ℤ) (client_address : Bytes) (j : ℕ)
    → lookup (pos j) (client_peers_of client_peers id client_address) ≡ (
        if eq_ℤ id (pos j) && not (eq_bytes client_address [])
        then some client_address
        else entry_for (get_elem? client_peers j))
unfolding client_peers_of addresses_by_id lookup
lookup-client_peers_of client_peers id client_address j =
    let e : j - 0 ≡ j = omega arith in
    let from = rw e at (lookup-addresses_from 0 client_peers [] j (λ i at. refl)) in
    ground (
      arith,
      from,
      eq_ℤ_iff id (pos j),
      lookup-insert id (pos j) client_address (addresses_by_id client_peers),
    )
