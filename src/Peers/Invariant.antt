-- ===== src/Peers/Invariant.antt =====
-- src/peer_registry.rs: the invariant of the registry, and the clean-up of peers that were not seen.
use cyberfly_rust_node.Common.{
  ℕ, ◌*◌, ◌^◌, ◌<◌, ◌≡◌, refl, sym, ◌∙◌, inl, inr, Bool, false, not, ◌||◌, ◌&&◌, Option, none, some,
  List, [], ◌∷◌, arith, if◌then◌else◌, Bool-cases, Option-cases, length, ltb, ◌/◌, ◌-◌, ◌≤◌,
}
use cyberfly_rust_node.Common.Int.{ℤ}
use cyberfly_rust_node.Common.Text.{Str, str_eq, str_eq_iff}
use cyberfly_rust_node.Common.Assoc.{contains, lookup, str_key, lookup-insert}
use cyberfly_rust_node.Common.Unique.{IsUnique, insert-IsUnique, length-insert}
use cyberfly_rust_node.Peers.Meta.{PeerCapabilities, PeerMeta, status}
use cyberfly_rust_node.Peers.Registry.{
  PeerRegistryConfig, PeerRegistry, new_registry, upsert_peer, modify, set_peer_region,
  set_peer_capabilities, record_failure, record_success, touch_peer, keeps, retain, removed,
  cleanup_expired, cache_announcement, cleanup_announcement_cache,
}

-- No peer has two entries, the node itself has none, and the gauge shows the number of peers.
pub record IsWellFormed (r : PeerRegistry) : Type 0 where
  pub unique : IsUnique r.peers
  pub no_self : lookup r.local_node_id r.peers ≡ none
  pub gauged : r.network_peers ≡ length r.peers

new_registry-IsWellFormed :
    (id : Str) (config : PeerRegistryConfig) → IsWellFormed (new_registry id config 0)
unfolding new_registry IsUnique lookup
new_registry-IsWellFormed id config = record { unique = tt; no_self = refl; gauged = refl }

upsert_peer-IsWellFormed :
    (now : ℕ) (id : Str) (addr : Option Str) (b : Bool) (r : PeerRegistry)
    → IsWellFormed r
    → IsWellFormed (upsert_peer now id addr b r)
unfolding upsert_peer
upsert_peer-IsWellFormed now id addr b r i = elim (Bool-cases (str_eq id r.local_node_id)) [
  | inl self ↦ rw self i
  | inr other ↦ rw other record {
    unique = insert-IsUnique id _ r.peers i.unique;
    no_self = lookup-insert id r.local_node_id _ r.peers ∙ rw other i.no_self;
    gauged = refl;
  }
]

modify-IsWellFormed :
    (id : Str) (change : PeerMeta → PeerMeta) (r : PeerRegistry)
    → IsWellFormed r
    → IsWellFormed (modify id change r)
modify-IsWellFormed id change r i = elim (Option-cases (lookup id r.peers)) [
  | inl e ↦ rw (modify, e) i
  | inr (meta, e) ↦
      let other : str_eq id r.local_node_id ≡ false =
        ground (arith, i.no_self, str_eq_iff id r.local_node_id) in
      rw (modify, e)
        record {
          unique = insert-IsUnique id (change meta) r.peers i.unique;
          no_self = lookup-insert id r.local_node_id (change meta) r.peers ∙ rw other i.no_self;
          gauged = i.gauged ∙ sym (length-insert id (change meta) r.peers ∙ ground arith);
        }
]

-- Both need the entries of a key to be one.
retain_absent :
    (keep : PeerMeta → Bool) (k : Str) (m : List (Str × PeerMeta))
    → lookup k m ≡ none
    → lookup k (retain keep m) ≡ none
unfolding lookup retain
retain_absent keep k [] h = refl
retain_absent keep k ((j, meta) ∷ m) h = ground (arith, retain_absent keep k m)

retain-IsUnique :
    (keep : PeerMeta → Bool) (m : List (Str × PeerMeta)) → IsUnique m → IsUnique (retain keep m)
unfolding IsUnique retain
retain-IsUnique keep [] u = tt
retain-IsUnique keep ((j, meta) ∷ m) (absent, u) =
    ground (arith, retain_absent keep j m, retain-IsUnique keep m u)

abbrev pub kept : (PeerMeta → Bool) → Option PeerMeta → Option PeerMeta
kept keep none = none
kept keep (some meta) = if keep meta then some meta else none

lookup-retain :
    (keep : PeerMeta → Bool) (k : Str) (m : List (Str × PeerMeta))
    → IsUnique m
    → lookup k (retain keep m) ≡ kept keep (lookup k m)
unfolding lookup retain IsUnique
lookup-retain keep k [] u = refl
lookup-retain keep k ((j, meta) ∷ m) (absent, u) =
    ground (arith, str_eq_iff j k, retain_absent keep k m, lookup-retain keep k m u)

abbrev pub dropped : (PeerMeta → Bool) → Option PeerMeta → Bool
dropped keep none = false
dropped keep (some meta) = not (keep meta)

removed_absent :
    (keep : PeerMeta → Bool) (k : Str) (m : List (Str × PeerMeta))
    → lookup k m ≡ none
    → contains k (removed keep m) ≡ false
unfolding lookup removed contains
removed_absent keep k [] h = refl
removed_absent keep k ((j, meta) ∷ m) h = ground (arith, removed_absent keep k m)

contains-removed :
    (keep : PeerMeta → Bool) (k : Str) (m : List (Str × PeerMeta))
    → IsUnique m
    → contains k (removed keep m) ≡ dropped keep (lookup k m)
unfolding lookup removed IsUnique contains
contains-removed keep k [] u = refl
contains-removed keep k ((j, meta) ∷ m) (absent, u) =
    ground (arith, str_eq_iff j k, removed_absent keep k m, contains-removed keep k m u)

-- A clean-up of a well-formed registry keeps exactly the entries that pass the test of `retain`, returns
-- exactly the others' peers, and leaves the registry well-formed.
pub cleanup_expired_lem :
    (now : ℕ) (r : PeerRegistry)
    → IsWellFormed r
    → IsWellFormed (cleanup_expired now r).1
      × ((k : Str)
          → (lookup k (cleanup_expired now r).1.peers
              ≡ kept (keeps now r.config) (lookup k r.peers))
            × (contains k (cleanup_expired now r).0
                ≡ dropped (keeps now r.config) (lookup k r.peers)))
unfolding cleanup_expired
cleanup_expired_lem now r i = (
  record {
    unique = retain-IsUnique (keeps now r.config) r.peers i.unique;
    no_self = retain_absent (keeps now r.config) r.local_node_id r.peers i.no_self;
    gauged = refl;
  },
  λ k. (
    lookup-retain (keeps now r.config) k r.peers i.unique,
    contains-removed (keeps now r.config) k r.peers i.unique,
  ),
)

-- The seconds since a peer was last seen.
abbrev pub silence : ℕ → PeerMeta → ℕ
silence now meta = (now - meta.last_seen) / 10 ^ 9

-- With timeouts of which five times the longer is below 2^63, and a clock that has not gone back, the
-- test of `retain` lets a peer stay for the idle timeout, for the expiration timeout, and a bootstrap
-- peer for five times the latter.
pub keeps_lem :
    (now : ℕ) (config : PeerRegistryConfig) (meta : PeerMeta)
    → meta.last_seen ≤ now
    → config.idle_timeout < 2 ^ 63
    → config.expiration_timeout * 5 < 2 ^ 63
    → keeps now config meta ≡ (
        ltb (silence now meta) config.idle_timeout
        || ltb (silence now meta) config.expiration_timeout
        || (meta.is_bootstrap && ltb (silence now meta) (config.expiration_timeout * 5)))
unfolding keeps status
keeps_lem now config meta before idle expiry = ground arith

-- A step of the registry: one of its operations, with any arguments.
pub data Step (r : PeerRegistry) : PeerRegistry → Type 0 where
  upsert :
      (now : ℕ) (id : Str) (addr : Option Str) (b : Bool) → Step r (upsert_peer now id addr b r)
  region : (id name : Str) → Step r (set_peer_region id name r)
  capable : (id : Str) (c : PeerCapabilities) → Step r (set_peer_capabilities id c r)
  fail : (now : ℕ) (id : Str) → Step r (record_failure now id r)
  succeed : (now : ℕ) (id : Str) → Step r (record_success now id r)
  touched : (now : ℕ) (id : Str) → Step r (touch_peer now id r)
  clean : (now : ℕ) → Step r (cleanup_expired now r).1
  announce : (id : Str) (time : ℤ) → Step r (cache_announcement id time r)
  forget : (now age : ℕ) → Step r (cleanup_announcement_cache now age r)

pub data Attained : PeerRegistry → Type 0 where
  start : (id : Str) (config : PeerRegistryConfig) → Attained (new_registry id config 0)
  then_ : (r r' : PeerRegistry) → Attained r → Step r r' → Attained r'

step-IsWellFormed : (r r' : PeerRegistry) → Step r r' → IsWellFormed r → IsWellFormed r'
unfolding set_peer_region set_peer_capabilities record_failure record_success touch_peer
    cache_announcement cleanup_announcement_cache
step-IsWellFormed r _ (upsert now id addr b) i = upsert_peer-IsWellFormed now id addr b r i
step-IsWellFormed r _ (region id name) i = modify-IsWellFormed id _ r i
step-IsWellFormed r _ (capable id c) i = modify-IsWellFormed id _ r i
step-IsWellFormed r _ (fail now id) i = modify-IsWellFormed id _ r i
step-IsWellFormed r _ (succeed now id) i = modify-IsWellFormed id _ r i
step-IsWellFormed r _ (touched now id) i = modify-IsWellFormed id _ r i
step-IsWellFormed r _ (clean now) i = (cleanup_expired_lem now r i).0
step-IsWellFormed r _ (announce id time) i = record {
  unique = i.unique;
  no_self = i.no_self;
  gauged = i.gauged;
}
step-IsWellFormed r _ (forget now age) i = record {
  unique = i.unique;
  no_self = i.no_self;
  gauged = i.gauged;
}

-- In every registry that its operations, one after the other, reach from a new one, the node itself is
-- not among the peers, no peer has two entries, and the value to which the registry last set the gauge
-- is the number of its peers.
pub Attained-IsWellFormed : (r : PeerRegistry) → Attained r → IsWellFormed r
Attained-IsWellFormed _ (start id config) = new_registry-IsWellFormed id config
Attained-IsWellFormed _ (then_ r r' before step) =
    step-IsWellFormed r r' step (Attained-IsWellFormed r before)
