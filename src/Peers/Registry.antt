-- ===== src/Peers/Registry.antt =====
-- src/peer_registry.rs, `PeerRegistry`. The clock is read once in each operation. The gauge is the value
-- that the registry set NETWORK_PEERS to last; src/gossip_discovery.rs and src/iroh_network.rs set the
-- same gauge to the sizes of maps of their own. `peers_map` hands the map out, and has no caller in the
-- repository.
use cyberfly_rust_node.Common.{
  ℕ, suc, ◌+◌, ◌-◌, ◌*◌, Bool, true, false, ◌&&◌, not, Option, none, some, List, [], ◌∷◌, ◌++◌, ltb,
  if◌then◌else◌, length, filter, map,
}
use cyberfly_rust_node.Common.Int.{ℤ, pos_part, neg_part, wrap_i64, ltb_ℤ}
use cyberfly_rust_node.Common.Text.{Str, codes, str_eq}
use cyberfly_rust_node.Common.Assoc.{lookup, insert, str_key}
use cyberfly_rust_node.Peers.Meta.{
  PeerCapabilities, PeerStatus, connected, idle, stale, expired, PeerMeta, seconds_since, new_meta,
  touch, in_backoff, status,
}
use cyberfly_rust_node.Peers.Meta

pub record PeerRegistryConfig : Type 0 where
  pub idle_timeout : ℕ
  pub expiration_timeout : ℕ
  pub cleanup_interval : ℕ
  pub max_failures : ℕ
  pub backoff_duration : ℕ
  pub target_peer_count : ℕ

-- With the gauge NETWORK_PEERS.
pub record PeerRegistry : Type 0 where
  pub peers : List (Str × PeerMeta)
  pub announcement_cache : List (Str × ℤ)
  pub config : PeerRegistryConfig
  pub local_node_id : Str
  pub network_peers : ℕ

abbrev pub default_config : PeerRegistryConfig
default_config = record {
  idle_timeout = 15;
  expiration_timeout = 30;
  cleanup_interval = 10;
  max_failures = 5;
  backoff_duration = 300;
  target_peer_count = 8;
}

unfoldable pub new_registry : Str → PeerRegistryConfig → ℕ → PeerRegistry
new_registry local_node_id config gauge = record {
  peers = [];
  announcement_cache = [];
  config = config;
  local_node_id = local_node_id;
  network_peers = gauge;
}

abbrev seen_again : ℕ → Option Str → PeerMeta → PeerMeta
seen_again now none meta = touch now meta
seen_again now (some addr) meta = record (touch now meta) { addr = some addr }

abbrev upserted : ℕ → Option Str → Bool → Option PeerMeta → PeerMeta
upserted now addr is_bootstrap none = new_meta now addr is_bootstrap
upserted now addr is_bootstrap (some meta) = seen_again now addr meta

unfoldable pub upsert_peer : ℕ → Str → Option Str → Bool → PeerRegistry → PeerRegistry
upsert_peer now peer_id addr is_bootstrap r =
    if str_eq peer_id r.local_node_id
    then r
    else let peers =
        insert peer_id (upserted now addr is_bootstrap (lookup peer_id r.peers)) r.peers in
      record r { peers = peers; network_peers = length peers }

-- self.peers.get_mut(&peer_id) with a change.
abbrev pub modify : Str → (PeerMeta → PeerMeta) → PeerRegistry → PeerRegistry
modify peer_id change r = elim (lookup peer_id r.peers) [
  | none ↦ r
  | some meta ↦ record r { peers = insert peer_id (change meta) r.peers }
]

unfoldable pub set_peer_region : Str → Str → PeerRegistry → PeerRegistry
set_peer_region peer_id region r = modify peer_id (λ meta. record meta { region = some region }) r

unfoldable pub set_peer_capabilities : Str → PeerCapabilities → PeerRegistry → PeerRegistry
set_peer_capabilities peer_id capabilities r =
    modify peer_id (λ meta. record meta { capabilities = capabilities }) r

unfoldable pub record_failure : ℕ → Str → PeerRegistry → PeerRegistry
record_failure now peer_id r = modify peer_id (λ meta. Meta.record_failure now meta) r

unfoldable pub record_success : ℕ → Str → PeerRegistry → PeerRegistry
record_success now peer_id r = modify peer_id (λ meta. touch now (Meta.reset_failures meta)) r

unfoldable pub touch_peer : ℕ → Str → PeerRegistry → PeerRegistry
touch_peer now peer_id r = modify peer_id (λ meta. touch now meta) r

abbrev pub backing_off : ℕ → PeerRegistryConfig → PeerMeta → Bool
backing_off now config meta = in_backoff now config.max_failures config.backoff_duration meta

abbrev pub status_of : ℕ → PeerRegistryConfig → PeerMeta → PeerStatus
status_of now config meta = status now config.idle_timeout config.expiration_timeout meta

unfoldable pub is_in_backoff : ℕ → Str → PeerRegistry → Bool
is_in_backoff now peer_id r = elim (lookup peer_id r.peers) [
  | none ↦ false
  | some meta ↦ backing_off now r.config meta
]

unfoldable pub peer_count : PeerRegistry → ℕ
peer_count r = length r.peers

abbrev one_more : PeerStatus → ℕ × (ℕ × ℕ) → ℕ × (ℕ × ℕ)
one_more connected (c, (i, s)) = (suc c, (i, s))
one_more idle (c, (i, s)) = (c, (suc i, s))
one_more stale (c, (i, s)) = (c, (i, suc s))
one_more expired (c, (i, s)) = (c, (i, suc s))

unfoldable pub count_by_status :
    ℕ → PeerRegistryConfig → List (Str × PeerMeta) → ℕ × (ℕ × ℕ) → ℕ × (ℕ × ℕ)
count_by_status now config [] counts = counts
count_by_status now config ((k, meta) ∷ m) counts =
    count_by_status now config m (one_more (status_of now config meta) counts)

unfoldable pub peer_count_by_status : ℕ → PeerRegistry → ℕ × (ℕ × ℕ)
peer_count_by_status now r = count_by_status now r.config r.peers (0, (0, 0))

abbrev pub counts_as_expired : PeerStatus → Bool
counts_as_expired expired = true
counts_as_expired _ = false

abbrev pub counts_as_stale : PeerStatus → Bool
counts_as_stale stale = true
counts_as_stale expired = true
counts_as_stale _ = false

abbrev connectable : ℕ → PeerRegistryConfig → Str × PeerMeta → Bool
connectable now config (k, meta) =
    not (counts_as_expired (status_of now config meta)) && not (backing_off now config meta)

abbrev id_and_addr : Str × PeerMeta → Str × Option Str
id_and_addr (k, meta) = (k, meta.addr)

unfoldable pub get_connectable_peers : ℕ → PeerRegistry → List (Str × Option Str)
get_connectable_peers now r = map id_and_addr (filter (connectable now r.config) r.peers)

-- The test of `retain`: bootstrap peers stay five times as long. The product is in u64, cast to i64.
unfoldable pub keeps : ℕ → PeerRegistryConfig → PeerMeta → Bool
keeps now config meta =
    if counts_as_stale (status_of now config meta)
    then meta.is_bootstrap
      && ltb_ℤ (seconds_since now meta.last_seen) (wrap_i64 (config.expiration_timeout * 5))
    else true

unfoldable pub retain : (PeerMeta → Bool) → List (Str × PeerMeta) → List (Str × PeerMeta)
retain keep [] = []
retain keep ((k, meta) ∷ m) =
    let rest = retain keep m in if keep meta then (k, meta) ∷ rest else rest

unfoldable pub removed : (PeerMeta → Bool) → List (Str × PeerMeta) → List Str
removed keep [] = []
removed keep ((k, meta) ∷ m) = let rest = removed keep m in if keep meta then rest else k ∷ rest

unfoldable pub cleanup_expired : ℕ → PeerRegistry → List Str × PeerRegistry
cleanup_expired now r =
    let peers = retain (keeps now r.config) r.peers in
    (removed (keeps now r.config) r.peers, record r { peers = peers; network_peers = length peers })

abbrev peer_line : Str × PeerMeta → Str
peer_line (k, meta) = elim meta.addr [ none ↦ k | some addr ↦ k ++ codes "@" ++ addr ]

unfoldable pub get_peer_list : PeerRegistry → List Str
get_peer_list r = map peer_line r.peers

unfoldable pub get_peer_info : Str → PeerRegistry → Option PeerMeta
get_peer_info peer_id r = lookup peer_id r.peers

unfoldable pub needs_more_peers : ℕ → PeerRegistry → Bool
needs_more_peers now r =
    let (c, others) = peer_count_by_status now r in ltb c r.config.target_peer_count

unfoldable pub is_newer_announcement : Str → ℤ → PeerRegistry → Bool
is_newer_announcement node_id timestamp r = elim (lookup node_id r.announcement_cache) [
  | none ↦ true
  | some cached ↦ ltb_ℤ cached timestamp
]

unfoldable pub cache_announcement : Str → ℤ → PeerRegistry → PeerRegistry
cache_announcement node_id timestamp r = record r {
  announcement_cache = insert node_id timestamp r.announcement_cache;
}

-- timestamp > now - max_age_seconds, with `now` in seconds.
abbrev is_recent : ℕ → ℕ → Str × ℤ → Bool
is_recent now max_age_seconds (node_id, timestamp) =
    ltb (now + neg_part timestamp) (pos_part timestamp + max_age_seconds)

unfoldable pub cleanup_announcement_cache : ℕ → ℕ → PeerRegistry → PeerRegistry
cleanup_announcement_cache now max_age_seconds r = record r {
  announcement_cache = filter (is_recent now max_age_seconds) r.announcement_cache;
}

unfoldable pub run_full_cleanup : ℕ → ℕ → PeerRegistry → List Str × (ℕ × PeerRegistry)
run_full_cleanup now now_seconds r =
    let (expired_peers, r') = cleanup_expired now r in
    let r'' = cleanup_announcement_cache now_seconds 3600 r' in
    (expired_peers, (length r'.announcement_cache - length r''.announcement_cache, r''))
