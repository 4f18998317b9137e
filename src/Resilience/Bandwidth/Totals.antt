-- ===== src/Resilience/Bandwidth/Totals.antt =====
-- src/network_resilience.rs, `BandwidthThrottle`: what an upload or a download leaves behind.
use cyberfly_rust_node.Common.{ℕ, ◌+◌, ◌-◌, ◌≤◌, ◌≡◌, Bool, false, some, arith, if◌then◌else◌}
use cyberfly_rust_node.Resilience.Breaker.{EndpointId}
use cyberfly_rust_node.Resilience.Bandwidth.{
  u64, TokenBucket, refill, try_consume, Lane, BandwidthThrottle, pass_global, pass_peer,
  try_transfer, try_upload,
}

-- The total of uploaded bytes grows by an upload's bytes exactly when the upload is allowed; the
-- downloads and the configuration are as before.
pub try_upload_total :
    (per_refill : ℕ → ℕ → ℕ) (clock : ℕ → ℕ) (peer_id : EndpointId) (bytes : ℕ)
    (t t' : BandwidthThrottle) (sent : Bool)
    → try_upload per_refill clock peer_id bytes t ≡ some (t', sent)
    → (t'.upload.total ≡ (if sent then u64 (t.upload.total + bytes) else t.upload.total))
      × (t'.download ≡ t.download)
      × (t'.config ≡ t.config)
unfolding try_upload try_transfer pass_global pass_peer
try_upload_total per_refill clock peer_id bytes t t' sent h =
    (ground arith, ground arith, ground arith)

-- Where the global bucket holds the bytes of a transfer after its refill and the transfer is refused,
-- the bytes are taken from the global bucket all the same, and nothing is added to the total.
pub peer_refusal_spends :
    (per_refill : ℕ → ℕ → ℕ) (clock : ℕ → ℕ) (per_peer_bps interval : ℕ) (peer_id : EndpointId)
    (bytes : ℕ) (lane lane' : Lane) (b c : TokenBucket)
    → lane.bucket ≡ some b
    → refill (clock 0) b ≡ some c
    → bytes ≤ c.tokens
    → try_transfer per_refill clock per_peer_bps interval peer_id bytes lane ≡ some (lane', false)
    → (lane'.bucket ≡ some (record c { tokens = c.tokens - bytes })) × (lane'.total ≡ lane.total)
unfolding try_transfer pass_global pass_peer try_consume
peer_refusal_spends per_refill clock per_peer_bps interval peer_id bytes lane lane' b c hb hc fits
      h =
    (ground arith, ground arith)
