-- ===== src/Resilience/Ranking.antt =====
-- src/network_resilience.rs, `ReputationManager`: who is banned, and the order of the peers.
use cyberfly_rust_node.Common.{
  ℕ, suc, Bool, false, ◌&&◌, not, Option, none, some, List, [], ◌∷◌, ◌==◌, if◌then◌else◌, filter,
  map, take,
}
use cyberfly_rust_node.Common.Lists.{sort_by}
use cyberfly_rust_node.Common.Float.{Float}
use cyberfly_rust_node.Common.Assoc.{lookup, nat_eq}
use cyberfly_rust_node.Resilience.Breaker.{EndpointId}
use cyberfly_rust_node.Resilience.Reputation.{ReputationConfig, PeerReputation, reliability}

module _ {F : Type 0} (fl : Float F) where
  module _ (config : ReputationConfig F) where
    -- The composite score of a candidate.
    unfoldable pub composite : PeerReputation F → F
    composite rep = fl.plus rep.score (
        if fl.ltb (fl.decimal 0 0) rep.avg_latency_ms
        then fl.times config.latency_weight
            (fl.min (fl.divide (fl.decimal 0 1000) rep.avg_latency_ms) (fl.decimal 0 10))
        else fl.decimal 0 0)

    abbrev pub is_candidate : EndpointId × PeerReputation F → Bool
    is_candidate (peer, rep) =
        not rep.is_banned && fl.ltb (fl.times config.initial_score (fl.decimal 1 5)) rep.score

    abbrev ranked : EndpointId × PeerReputation F → EndpointId × F
    ranked (peer, rep) = (peer, composite rep)

    -- `b.partial_cmp(a)` is not Greater: `a` may stand before `b`.
    abbrev before_composite : EndpointId × F → EndpointId × F → Bool
    before_composite (p, x) (q, y) = not (fl.ltb x y)

    abbrev candidate_id : EndpointId × F → EndpointId
    candidate_id (p, x) = p

    unfoldable pub get_sync_candidates : ℕ → List (EndpointId × PeerReputation F) → List EndpointId
    get_sync_candidates limit m =
        map candidate_id
          (take limit (sort_by before_composite (map ranked (filter is_candidate m))))

  unfoldable pub get_reputation :
      EndpointId → List (EndpointId × PeerReputation F) → Option (PeerReputation F)
  get_reputation peer m = lookup peer m

  unfoldable pub is_banned : EndpointId → List (EndpointId × PeerReputation F) → Bool
  is_banned peer m = elim (lookup peer m) [ none ↦ false | some rep ↦ rep.is_banned ]

  abbrev pub is_free : EndpointId × PeerReputation F → Bool
  is_free (peer, rep) = not rep.is_banned

  abbrev pub before_score : EndpointId × PeerReputation F → EndpointId × PeerReputation F → Bool
  before_score (p, a) (q, b) = not (fl.ltb a.score b.score)

  unfoldable pub get_top_peers :
      ℕ → List (EndpointId × PeerReputation F) → List (EndpointId × PeerReputation F)
  get_top_peers limit m = take limit (sort_by before_score (filter is_free m))

  pub record ReputationSummary : Type 0 where
    pub total_peers : ℕ
    pub banned_peers : ℕ
    pub avg_score : F
    pub avg_reliability : F

  -- The sums over all peers: how many, how many banned, the scores and the reliabilities.
  unfoldable pub summed : List (EndpointId × PeerReputation F) → ℕ → ℕ → F → F → ReputationSummary
  summed [] total banned score reliable = record {
    total_peers = total;
    banned_peers = banned;
    avg_score = if total == 0 then fl.decimal 0 0 else fl.divide score (fl.of_u64 total);
    avg_reliability = if total == 0 then fl.decimal 0 0 else fl.divide reliable (fl.of_u64 total);
  }
  summed ((peer, rep) ∷ m) total banned score reliable =
      summed m (suc total) (if rep.is_banned then suc banned else banned) (fl.plus score rep.score)
        (fl.plus reliable (reliability fl rep))

  unfoldable pub get_reputation_summary : List (EndpointId × PeerReputation F) → ReputationSummary
  get_reputation_summary m = summed m 0 0 (fl.decimal 0 0) (fl.decimal 0 0)
