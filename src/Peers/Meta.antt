-- ===== src/Peers/Meta.antt =====
-- src/peer_registry.rs: what is known of a peer. The clock's readings are in nanoseconds; a peer and an
-- address stand as their text.
use cyberfly_rust_node.Common.{
  ℕ, suc, ◌-◌, ◌/◌, ◌%◌, ◌^◌, Bool, false, Option, none, some, ltb, if◌then◌else◌,
}
use cyberfly_rust_node.Common.Int.{ℤ, pos, negsuc, wrap_i64, quot_ℤ, ltb_ℤ}
use cyberfly_rust_node.Common.Text.{Str}

pub record PeerCapabilities : Type 0 where
  pub supports_mqtt : Bool
  pub supports_streams : Bool
  pub supports_timeseries : Bool
  pub supports_geo : Bool

pub data PeerStatus : Type 0 where
  connected idle stale expired : PeerStatus

pub record PeerMeta : Type 0 where
  pub first_seen : ℕ
  pub last_seen : ℕ
  pub addr : Option Str
  pub region : Option Str
  pub capabilities : PeerCapabilities
  pub failure_count : ℕ
  pub last_failure : Option ℕ
  pub is_bootstrap : Bool

-- now.signed_duration_since(t).num_seconds(), rounded towards zero.
abbrev pub seconds_since : ℕ → ℕ → ℤ
seconds_since now t =
    if ltb now t then quot_ℤ (negsuc (t - now - 1)) (10 ^ 9) else pos ((now - t) / 10 ^ 9)

unfoldable pub new_meta : ℕ → Option Str → Bool → PeerMeta
new_meta now addr is_bootstrap = record {
  first_seen = now;
  last_seen = now;
  addr = addr;
  region = none;
  capabilities = record {
    supports_mqtt = false;
    supports_streams = false;
    supports_timeseries = false;
    supports_geo = false;
  };
  failure_count = 0;
  last_failure = none;
  is_bootstrap = is_bootstrap;
}

unfoldable pub touch : ℕ → PeerMeta → PeerMeta
touch now meta = record meta { last_seen = now }

-- The count is a u32.
unfoldable pub record_failure : ℕ → PeerMeta → PeerMeta
record_failure now meta = record meta {
  failure_count = suc meta.failure_count % 2 ^ 32;
  last_failure = some now;
}

unfoldable pub reset_failures : PeerMeta → PeerMeta
reset_failures meta = record meta { failure_count = 0; last_failure = none }

-- Durations of the configuration in whole seconds.
unfoldable pub in_backoff : ℕ → ℕ → ℕ → PeerMeta → Bool
in_backoff now max_failures backoff_duration meta =
    if ltb meta.failure_count max_failures then false else elim meta.last_failure [
      | none ↦ false
      | some last_failure ↦ ltb_ℤ (seconds_since now last_failure) (wrap_i64 backoff_duration)
    ]

unfoldable pub status : ℕ → ℕ → ℕ → PeerMeta → PeerStatus
status now idle_timeout stale_timeout meta =
    let seconds = seconds_since now meta.last_seen in
    if ltb_ℤ seconds (wrap_i64 idle_timeout)
    then connected
    else if ltb_ℤ seconds (wrap_i64 stale_timeout)
    then idle
    else stale
