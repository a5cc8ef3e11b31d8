-- ===== src/Server/Config.antt =====
-- server/server.go: Config and normalizeConfig.
pub mod Bounds
pub mod Normal
use kvraft.Base.{
  ℕ, Bool, true, false, not, ◌&&◌, Option, none, some, List, [], ◌∷◌, ◌++◌, Bytes, codes, eq_bytes,
  length, get_elem?, ltb, ◌==◌, if◌then◌else◌, ◌>>=◌,
}
use kvraft.Base.Int.{ℤ, pos, negsuc, pos_part, ltb_ℤ, leb_ℤ}
use kvraft.Kvstore.Types.{OpenOptions}
use kvraft.Server.Addresses.{trim_space, itoa, derive_client_peer_addresses}

-- `commit_timeout` is in nanoseconds.
pub record Config : Type 0 where
  pub id : ℤ
  pub raft_address : Bytes
  pub client_address : Bytes
  pub peers : List Bytes
  pub client_peers : List Bytes
  pub store_dir : Bytes
  pub store_options : OpenOptions
  pub apply_buffer : ℤ
  pub commit_timeout : ℤ

abbrev is_empty : Bytes → Bool
is_empty s = eq_bytes s []

-- The three tests in front.
unfoldable pub check_config : Config → Bool
check_config cfg =
    not (ltb_ℤ cfg.id (pos 0))
    && (not (is_empty cfg.raft_address)
        && not
            (ltb 0 (length cfg.client_peers) && not (length cfg.client_peers == length cfg.peers)))

-- `cfg.ClientPeers[cfg.ID]`, where the id is below their number.
unfoldable pub with_client_address : Config → Config
with_client_address cfg =
    if is_empty cfg.client_address && ltb_ℤ cfg.id (pos (length cfg.client_peers))
    then elim (get_elem? cfg.client_peers (pos_part cfg.id)) [
      | none ↦ cfg
      | some address ↦ record cfg { client_address = trim_space address }
    ]
    else cfg

unfoldable pub with_client_peers : Config → Option Config
with_client_peers cfg =
    if (length cfg.client_peers == 0)
      && (ltb 0 (length cfg.peers) && not (is_empty cfg.client_address))
    then elim (derive_client_peer_addresses cfg.peers cfg.raft_address cfg.client_address) [
      | none ↦ none
      | some derived ↦ some (record cfg { client_peers = derived })
    ]
    else some cfg

abbrev default_max_data_file_size : ℤ
default_max_data_file_size = pos 67108864

-- Five seconds.
abbrev default_commit_timeout : ℤ
default_commit_timeout = pos 5000000000

unfoldable pub with_defaults : Config → Config
with_defaults cfg = record cfg {
  store_dir = if is_empty cfg.store_dir then codes "kvstore_" ++ itoa cfg.id else cfg.store_dir;
  apply_buffer = if leb_ℤ cfg.apply_buffer (pos 0) then pos 256 else cfg.apply_buffer;
  commit_timeout =
      if leb_ℤ cfg.commit_timeout (pos 0) then default_commit_timeout else cfg.commit_timeout;
  store_options = record cfg.store_options {
    max_data_file_size_bytes =
        if leb_ℤ cfg.store_options.max_data_file_size_bytes (pos 0)
        then default_max_data_file_size
        else cfg.store_options.max_data_file_size_bytes;
    read_write = true;
  };
}

-- none for any of the errors, which differ in their texts.
unfoldable pub normalize_config : Config → Option Config
normalize_config cfg =
    if not (check_config cfg)
    then none
    else do filled ← with_client_peers (with_client_address cfg); some (with_defaults filled)
