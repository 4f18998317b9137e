-- ===== src/Resilience/Scores.antt =====
-- src/network_resilience.rs, `ReputationManager`: the bounds of a score, and when it bans.
use cyberfly_rust_node.Common.{ℕ, ◌≡◌, true, ◌||◌, Option, none, some, arith}
use cyberfly_rust_node.Common.Float.{Float, IsFloat}
use cyberfly_rust_node.Common.Assoc.{nat_eq}
use cyberfly_rust_node.Resilience.Reputation.{
  ReputationConfig, PeerReputation, update_latency, ban_if_low, sync_succeeded, sync_failed,
  message_succeeded, message_failed,
}

module _ {F : Type 0} (fl : Float F) (config : ReputationConfig F) where
  -- A failed sync or message costs the configured loss, down to the least score at most; it bans the
  -- peer exactly when its score is then at that level, and lifts no ban. A success gives the gain, up
  -- to the greatest score, and changes no ban. The levels are to be numbers.
  pub score_lem :
      (law : IsFloat fl) (now bytes : ℕ) (latency : Option F) (rep : PeerReputation F)
      → fl.leb config.min_score config.min_score ≡ true
      → fl.leb config.max_score config.max_score ≡ true
      → let f = sync_failed fl config now rep in
        let g = message_failed fl config now rep in
        let s = sync_succeeded fl config now latency rep in
        let t = message_succeeded fl config now bytes rep in
        (f.score ≡ fl.max (fl.minus rep.score config.sync_failure_loss) config.min_score)
        × (f.is_banned ≡ (rep.is_banned || fl.leb f.score config.min_score))
        × (fl.leb config.min_score f.score ≡ true)
        × (g.is_banned ≡ (rep.is_banned || fl.leb g.score config.min_score))
        × (fl.leb config.min_score g.score ≡ true)
        × (s.is_banned ≡ rep.is_banned)
        × (fl.leb s.score config.max_score ≡ true)
        × (t.is_banned ≡ rep.is_banned)
        × (fl.leb t.score config.max_score ≡ true)
  unfolding sync_failed message_failed sync_succeeded message_succeeded ban_if_low update_latency
  score_lem law now bytes none rep lo hi = ground (
    arith,
    law.max_ge (fl.minus rep.score config.sync_failure_loss) config.min_score lo,
    law.max_ge (fl.minus rep.score config.message_failure_loss) config.min_score lo,
    law.min_le (fl.plus rep.score config.sync_success_gain) config.max_score hi,
    law.min_le (fl.plus rep.score config.message_success_gain) config.max_score hi,
  )
  score_lem law now bytes (some l) rep lo hi = ground (
    arith,
    law.max_ge (fl.minus rep.score config.sync_failure_loss) config.min_score lo,
    law.max_ge (fl.minus rep.score config.message_failure_loss) config.min_score lo,
    law.min_le (fl.plus rep.score config.sync_success_gain) config.max_score hi,
    law.min_le (fl.plus rep.score config.message_success_gain) config.max_score hi,
  )
