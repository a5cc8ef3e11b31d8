-- ===== src/Tests/Startup.antt =====
-- server/server.go: the theorems on the configuration, at a cluster of two nodes.
use kvraft.Base.{◌≡◌, refl, true, false, some, List, [], ◌∷◌, Bytes, codes, length, eq_bytes}
use kvraft.Base.Spaces.{space_width}
use kvraft.Base.Int.{ℤ, pos, negsuc}
use kvraft.Kvstore.Names.{print_digits}
use kvraft.Server.Requests.{int_eq}
use kvraft.Server.Addresses.{
  trim_space, trim_left, trim_right, index_byte, last_index_byte, split_host_port, join_host_port,
  atoi, itoa, split_port, derive_address, derive_addresses, derive_client_peer_addresses, int64,
  int64_of,
}
use kvraft.Server.Config.{
  Config, check_config, with_client_address, with_client_peers, with_defaults, normalize_config,
}
use kvraft.Server.Config.Bounds.{AllMoved, derive_client_peer_addresses-AllMoved}
use kvraft.Server.Config.Normal.{IsNormal, normalize_config-IsNormal}

abbrev raft_peers : List Bytes
raft_peers = codes " a:9000" ∷ codes "[::1]:9001" ∷ []

abbrev client_peers : List Bytes
client_peers = codes "a:8000" ∷ codes "[::1]:8001" ∷ []

derived :
    derive_client_peer_addresses raft_peers (codes "[::1]:9001") (codes ":8001") ≡ some client_peers
unfolding derive_client_peer_addresses derive_addresses derive_address int64 int64_of
    split_host_port join_host_port atoi itoa print_digits trim_space trim_left trim_right
    space_width index_byte last_index_byte eq_bytes
derived = refl

derive_client_peer_addresses-AllMoved_example :
    (raft client : Bytes × ℤ) × (split_port (codes "[::1]:9001") ≡ some raft)
    × (split_port (codes ":8001") ≡ some client)
    × AllMoved client.1 raft.1 raft_peers client_peers
    × (length client_peers ≡ length raft_peers)
derive_client_peer_addresses-AllMoved_example =
    derive_client_peer_addresses-AllMoved raft_peers (codes "[::1]:9001") (codes ":8001")
      client_peers derived

-- White space is trimmed on both sides, also outside ASCII.
trims_wide :
    trim_space (32 ∷ 0xc2 ∷ 0xa0 ∷ b'a' ∷ 32 ∷ b'b' ∷ 0xe2 ∷ 0x80 ∷ 0x89 ∷ 10 ∷ []) ≡ codes "a b"
unfolding trim_space trim_left trim_right space_width
trims_wide = refl

-- The sum of ports wraps around: a port far beyond what a listener takes.
wrapped_port :
    derive_client_peer_addresses (codes "a:0" ∷ []) (codes ":1") (codes ":-9223372036854775808")
    ≡ some (codes "a:9223372036854775807" ∷ [])
unfolding derive_client_peer_addresses derive_addresses derive_address int64 int64_of
    split_host_port join_host_port atoi itoa print_digits trim_space trim_left trim_right
    space_width index_byte last_index_byte eq_bytes
wrapped_port = refl

-- Nothing but the id, the addresses and the peers is given.
abbrev given : Config
given = record {
  id = pos 1;
  raft_address = codes "[::1]:9001";
  client_address = codes ":8001";
  peers = raft_peers;
  client_peers = [];
  store_dir = [];
  store_options = record {
    read_write = false;
    sync_on_put = false;
    max_data_file_size_bytes = pos 0;
  };
  apply_buffer = negsuc 0;
  commit_timeout = pos 0;
}

abbrev normal : Config
normal = record given {
  client_peers = client_peers;
  store_dir = codes "kvstore_1";
  store_options = record {
    read_write = true;
    sync_on_put = false;
    max_data_file_size_bytes = pos 67108864;
  };
  apply_buffer = pos 256;
  commit_timeout = pos 5000000000;
}

normalizes : normalize_config given ≡ some normal
unfolding normalize_config check_config with_client_address with_client_peers with_defaults
    derive_client_peer_addresses derive_addresses derive_address int64 int64_of split_host_port
    join_host_port atoi itoa print_digits trim_space trim_left trim_right space_width index_byte
    last_index_byte eq_bytes
normalizes = refl

normalize_config-IsNormal_example : IsNormal normal × (normalize_config normal ≡ some normal)
normalize_config-IsNormal_example = normalize_config-IsNormal given normal normalizes
