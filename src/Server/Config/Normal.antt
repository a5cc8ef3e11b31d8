-- ===== src/Server/Config/Normal.antt =====
-- normalizeConfig accepts, fills in, and changes nothing the second time.
use kvraft.Base.{
  ◌<◌, ◌≡◌, ◌≢◌, refl, sym, ap, subst, ◌∙◌, ◌⊎◌, inl, inr, true, false, not, ◌&&◌, some, List, [],
  Bytes, arith, eq_bytes, eq_bytes_iff, length, get_elem?, ltb, ◌==◌, Bool-cases, Option-cases,
}
use kvraft.Base.Int.{pos, pos_part, ◌≤ℤ◌, ◌<ℤ◌, ltb_ℤ}
use kvraft.Server.Addresses.{trim_space, derive_client_peer_addresses}
use kvraft.Server.Config.{
  Config, check_config, with_client_address, with_client_peers, with_defaults, normalize_config,
}
use kvraft.Server.Config.Bounds.{derive_client_peer_addresses-AllMoved}

-- What NewRaftKVServer goes on with.
pub record IsNormal (cfg : Config) : Type 0 where
  pub id : pos 0 ≤ℤ cfg.id
  pub raft_address : cfg.raft_address ≢ []
  pub client_peers : (length cfg.client_peers ≡ 0) ⊎ (length cfg.client_peers ≡ length cfg.peers)
  pub store_dir : cfg.store_dir ≢ []
  pub apply_buffer : pos 0 <ℤ cfg.apply_buffer
  pub commit_timeout : pos 0 <ℤ cfg.commit_timeout
  pub max_size : pos 0 <ℤ cfg.store_options.max_data_file_size_bytes
  pub read_write : cfg.store_options.read_write ≡ true

-- What the steps between the tests and the defaults leave of the tests.
record IsChecked (cfg : Config) : Type 0 where
  id : pos 0 ≤ℤ cfg.id
  raft_address : cfg.raft_address ≢ []
  client_peers : (length cfg.client_peers ≡ 0) ⊎ (length cfg.client_peers ≡ length cfg.peers)

check_config-IsChecked : (cfg : Config) → check_config cfg ≡ true → IsChecked cfg
unfolding check_config
check_config-IsChecked cfg h = record {
  id = ground (arith, h);
  raft_address = ground (arith, h, eq_bytes_iff cfg.raft_address []);
  client_peers = ground (arith, h);
}

-- The client address is the only field that its step sets, and its own entry is what it sets it to.
with_client_address-cases :
    (cfg : Config)
    → (with_client_address cfg ≡ cfg)
      ⊎ ((address : Bytes) × (eq_bytes cfg.client_address [] ≡ true)
          × (ltb_ℤ cfg.id (pos (length cfg.client_peers)) ≡ true)
          × (get_elem? cfg.client_peers (pos_part cfg.id) ≡ some address)
          × (with_client_address cfg ≡ record cfg { client_address = trim_space address }))
unfolding with_client_address
with_client_address-cases cfg =
    elim (Bool-cases
      (eq_bytes cfg.client_address [] && ltb_ℤ cfg.id (pos (length cfg.client_peers)))) [
        | inr otherwise ↦ inl (ground (arith, otherwise))
        | inl wanted ↦ elim (Option-cases (get_elem? cfg.client_peers (pos_part cfg.id))) [
          | inl missing ↦ inl (ground (arith, wanted, missing))
          | inr (address, found) ↦ inr (
            address,
            ground (arith, wanted),
            ground (arith, wanted),
            found,
            ground (arith, wanted, found),
          )
        ]
      ]

with_client_address_twice :
    (cfg : Config) → with_client_address (with_client_address cfg) ≡ with_client_address cfg
unfolding with_client_address
with_client_address_twice cfg = elim (with_client_address-cases cfg) [
  | inl same ↦ ap with_client_address same
  | inr (address, empty, below, found, is) ↦ rw is (ground (arith, found))
]

with_client_peers-cases :
    (cfg c : Config)
    → with_client_peers cfg ≡ some c
    → (cfg ≡ c)
      ⊎ ((derived : List Bytes) × (c ≡ record cfg { client_peers = derived })
          × (length derived ≡ length cfg.peers)
          × (0 < length cfg.peers)
          × (eq_bytes cfg.client_address [] ≡ false))
unfolding with_client_peers
with_client_peers-cases cfg c h =
    elim (Option-cases
      (derive_client_peer_addresses cfg.peers cfg.raft_address cfg.client_address)) [
        | inl missing ↦ inl (ground (arith, h, missing))
        | inr (derived, found) ↦
            let (_, _, _, _, _, size) =
              derive_client_peer_addresses-AllMoved cfg.peers cfg.raft_address cfg.client_address
                derived found in
            elim (Bool-cases (
              (length cfg.client_peers == 0)
              && (ltb 0 (length cfg.peers) && not (eq_bytes cfg.client_address [])))) [
                | inr otherwise ↦ inl (ground (arith, h, otherwise))
                | inl wanted ↦ inr (
                  derived,
                  ground (arith, h, wanted, found),
                  size,
                  ground (arith, wanted),
                  ground (arith, wanted),
                )
              ]
      ]

-- The steps between the tests and the defaults, done a second time.
filled_twice :
    (cfg c : Config)
    → with_client_peers (with_client_address cfg) ≡ some c
    → (with_client_address c ≡ c) × (with_client_peers c ≡ some c)
unfolding with_client_peers with_client_address
filled_twice cfg c h = elim (with_client_peers-cases (with_client_address cfg) c h) [
  | inl same ↦
      subst (λ (x : Config). (with_client_address x ≡ x) × (with_client_peers x ≡ some x)) same
        (with_client_address_twice cfg, h ∙ ap some (sym same))
  | inr (derived, is, size, some_peer, address) ↦
      (rw is (ground (arith, address)), rw is (ground (arith, address, size, some_peer)))
]

address-IsChecked : (cfg : Config) → IsChecked cfg → IsChecked (with_client_address cfg)
address-IsChecked cfg k = elim (with_client_address-cases cfg) [
  | inl same ↦ subst IsChecked (sym same) k
  | inr (address, _, _, _, is) ↦
      subst IsChecked (sym is)
        (record { id = k.id; raft_address = k.raft_address; client_peers = k.client_peers })
]

filled-IsChecked :
    (cfg c : Config)
    → with_client_peers (with_client_address cfg) ≡ some c
    → IsChecked cfg
    → IsChecked c
filled-IsChecked cfg c h k =
    let mid = with_client_address cfg in
    let k' = address-IsChecked cfg k in
    elim (with_client_peers-cases mid c h) [
      | inl same ↦ subst IsChecked same k'
      | inr (derived, is, size, _, _) ↦
          subst IsChecked (sym is)
            (record { id = k'.id; raft_address = k'.raft_address; client_peers = inr size })
    ]

IsChecked-check_config : (cfg : Config) → IsChecked cfg → check_config cfg ≡ true
unfolding check_config
IsChecked-check_config cfg k =
    ground (arith, k.id, k.raft_address, eq_bytes_iff cfg.raft_address [], k.client_peers)

normalize-inversion :
    (cfg c : Config)
    → normalize_config cfg ≡ some c
    → (mid : Config) × (check_config cfg ≡ true)
      × (with_client_peers (with_client_address cfg) ≡ some mid)
      × (c ≡ with_defaults mid)
unfolding normalize_config
normalize-inversion cfg c h = elim (Option-cases (with_client_peers (with_client_address cfg))) [
  | inl missing ↦ absurd (ground (arith, h, missing))
  | inr (mid, found) ↦ (mid, ground (arith, h), found, ground (arith, h, found))
]

defaults-IsNormal : (cfg : Config) → IsChecked cfg → IsNormal (with_defaults cfg)
unfolding with_defaults
defaults-IsNormal cfg k = record {
  id = k.id;
  raft_address = k.raft_address;
  client_peers = k.client_peers;
  store_dir = ground (arith, eq_bytes_iff cfg.store_dir []);
  apply_buffer = ground arith;
  commit_timeout = ground arith;
  max_size = ground arith;
  read_write = refl;
}

defaults_twice : (cfg : Config) → with_defaults (with_defaults cfg) ≡ with_defaults cfg
unfolding with_defaults eq_bytes
defaults_twice cfg = ground arith

address_defaults :
    (cfg : Config)
    → with_client_address (with_defaults cfg) ≡ with_defaults (with_client_address cfg)
unfolding with_client_address with_defaults
address_defaults cfg = elim (Option-cases (get_elem? cfg.client_peers (pos_part cfg.id))) [
  | inl missing ↦ ground (arith, missing)
  | inr (address, found) ↦ ground (arith, found)
]

peers_defaults :
    (cfg : Config)
    → with_client_peers cfg ≡ some cfg
    → with_client_peers (with_defaults cfg) ≡ some (with_defaults cfg)
unfolding with_client_peers with_defaults
peers_defaults cfg h =
    elim (Option-cases
      (derive_client_peer_addresses cfg.peers cfg.raft_address cfg.client_address)) [
        | inl missing ↦ ground (arith, missing, h)
        | inr (derived, found) ↦ ground (arith, found, h)
      ]

normalize_lem :
    (cfg mid : Config)
    → check_config cfg ≡ true
    → with_client_peers (with_client_address cfg) ≡ some mid
    → normalize_config cfg ≡ some (with_defaults mid)
unfolding normalize_config
normalize_lem cfg mid passes fills = ground (arith, passes, fills)

-- A configuration that normalizeConfig returns has an id of at least 0, a raft address and a store
-- directory, no client peers or as many as peers, a buffer, a timeout and a file size above 0, and
-- a store that may be written; and normalizeConfig returns it unchanged when it is given it.
pub normalize_config-IsNormal :
    (cfg c : Config) → normalize_config cfg ≡ some c → IsNormal c × (normalize_config c ≡ some c)
normalize_config-IsNormal cfg c h =
    let (mid, passes, fills, is) = normalize-inversion cfg c h in
    let checked = filled-IsChecked cfg mid fills (check_config-IsChecked cfg passes) in
    let (again, peers_again) = filled_twice cfg mid fills in
    let now = defaults-IsNormal mid checked in
    let passes_again =
      IsChecked-check_config (with_defaults mid) (record {
        id = now.id;
        raft_address = now.raft_address;
        client_peers = now.client_peers;
      }) in
    let fills_again : with_client_peers (with_client_address (with_defaults mid))
        ≡ some (with_defaults mid) =
      ap with_client_peers (address_defaults mid ∙ ap with_defaults again)
      ∙ peers_defaults mid peers_again in
    subst (λ (x : Config). IsNormal x × (normalize_config x ≡ some x)) (sym is)
      (
        now,
        normalize_lem (with_defaults mid) (with_defaults mid) passes_again fills_again
            ∙ ap some (defaults_twice mid),
      )
