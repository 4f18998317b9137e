-- ===== src/Resilience/Standing.antt =====
-- src/network_resilience.rs, `ReputationManager` and `NetworkResilience`: scores, bans and what a ban
-- keeps from a peer.
use cyberfly_rust_node.Common.{
  ℕ, ◌≡◌, ◌≢◌, refl, ◌∙◌, inl, inr, true, false, Option, none, some, List, [], ◌∷◌, In, arith,
  Option-cases,
}
use cyberfly_rust_node.Common.Float.{Float}
use cyberfly_rust_node.Common.Assoc.{lookup, lookup-insert, nat_eq}
use cyberfly_rust_node.Common.Unique.{IsUnique, insert-IsUnique, In-lookup}
use cyberfly_rust_node.Common.Sort.{sort_by-In, filter-In, take-In, map-In}
use cyberfly_rust_node.Resilience.Breaker.{EndpointId, CircuitBreakerConfig}
use cyberfly_rust_node.Resilience.Reputation.{
  ReputationConfig, PeerReputation, update_latency, ban_if_low, sync_succeeded, sync_failed,
  message_succeeded, message_failed, bytes_sent_to, get_or_create, change_entry,
  record_sync_success, record_sync_failure, record_message_success, record_message_failure,
  record_bytes_sent, decayed, apply_decay, unban,
}
use cyberfly_rust_node.Resilience.Ranking.{
  is_banned, is_candidate, get_sync_candidates, is_free, get_top_peers,
}
use cyberfly_rust_node.Resilience.Combined.{
  NetworkResilience, should_communicate, succeed_with, fail_with, Event, ask, success, failure,
  message_success, message_failure, bytes_sent, decay, unban_, happen, happen_all,
}

module _ {F : Type 0} (fl : Float F) (config : ReputationConfig F) where
  change-banned :
      (now : ℕ) (peer q : EndpointId) (change : PeerReputation F → PeerReputation F)
      (m : List (EndpointId × PeerReputation F))
      → ((rep : PeerReputation F) → rep.is_banned ≡ true → (change rep).is_banned ≡ true)
      → is_banned fl q m ≡ true
      → is_banned fl q (change_entry fl config now peer change m) ≡ true
  unfolding is_banned get_or_create
  change-banned now peer q change m keeps h = elim (Option-cases (lookup peer m)) [
    | inl none_p ↦
        ground (arith, lookup-insert peer q (change (get_or_create fl config now peer m)) m)
    | inr (rep, some_p) ↦ ground (arith, lookup-insert peer q (change rep) m, keeps rep)
  ]

  succeeded-banned :
      (now : ℕ) (latency : Option F) (rep : PeerReputation F)
      → (sync_succeeded fl config now latency rep).is_banned ≡ rep.is_banned
  unfolding sync_succeeded update_latency
  succeeded-banned now none rep = refl
  succeeded-banned now (some l) rep = refl

  decay-banned :
      (now : ℕ) (q : EndpointId) (m : List (EndpointId × PeerReputation F))
      → is_banned fl q (apply_decay fl config now m) ≡ is_banned fl q m
  unfolding is_banned apply_decay decayed lookup
  decay-banned now q [] = refl
  decay-banned now q ((k, rep) ∷ m) = ground (arith, decay-banned now q m)

-- The event lifts no ban of the peer.
abbrev pub Keeps :
    {F : Type 0} {fl : Float F} {c : CircuitBreakerConfig} {r : ReputationConfig F}
    → EndpointId
    → List (Event fl c r)
    → Type 0
Keeps q [] = Unit {0}
Keeps q (unban_ p ∷ events) = (p ≢ q) × Keeps q events
Keeps q (_ ∷ events) = Keeps q events

module _ {F : Type 0} (fl : Float F) (circuit : CircuitBreakerConfig)
    (config : ReputationConfig F) where
  failed-banned :
      (now : ℕ) (rep : PeerReputation F)
      → rep.is_banned ≡ true
      → (sync_failed fl config now rep).is_banned ≡ true
  unfolding sync_failed ban_if_low
  failed-banned now rep h = ground arith

  undelivered-banned :
      (now : ℕ) (rep : PeerReputation F)
      → rep.is_banned ≡ true
      → (message_failed fl config now rep).is_banned ≡ true
  unfolding message_failed ban_if_low
  undelivered-banned now rep h = ground arith

  delivered-banned :
      (now bytes : ℕ) (rep : PeerReputation F)
      → rep.is_banned ≡ true
      → (message_succeeded fl config now bytes rep).is_banned ≡ true
  unfolding message_succeeded
  delivered-banned now bytes rep h = h

  unban-banned :
      (p q : EndpointId) (m : List (EndpointId × PeerReputation F))
      → p ≢ q
      → is_banned fl q m ≡ true
      → is_banned fl q (unban fl config p m) ≡ true
  unfolding is_banned unban
  unban-banned p q m ne h = elim (Option-cases (lookup p m)) [
    | inl e ↦ ground arith
    | inr (rep, e) ↦ ground (
      arith,
      lookup-insert p q
          (record rep { is_banned = false; ban_reason = none; score = config.initial_score }) m,
    )
  ]

  ask-reputation :
      (now : ℕ) (p : EndpointId) (n : NetworkResilience F)
      → (should_communicate fl circuit config now p n).0.reputation ≡ n.reputation
  unfolding should_communicate
  ask-reputation now p n = ground arith

  stays_banned :
      (events : List (Event fl circuit config)) (q : EndpointId) (n : NetworkResilience F)
      → Keeps q events
      → is_banned fl q n.reputation ≡ true
      → is_banned fl q (happen_all fl circuit config events n).reputation ≡ true
  unfolding happen_all happen should_communicate succeed_with fail_with record_sync_success
      record_sync_failure record_message_success record_message_failure record_bytes_sent
  stays_banned [] q n k h = h
  stays_banned (ask now p ∷ events) q n k h =
      stays_banned events q _ k (rw (ask-reputation now p n) h)
  stays_banned (success now p l ∷ events) q n k h = stays_banned events q _ k (
      change-banned fl config now p q (sync_succeeded fl config now l) n.reputation
        (λ rep e. succeeded-banned fl config now l rep ∙ e) h)
  stays_banned (failure now p ∷ events) q n k h = stays_banned events q _ k (
      change-banned fl config now p q (sync_failed fl config now) n.reputation (failed-banned now)
        h)
  stays_banned (message_success now p b ∷ events) q n k h = stays_banned events q _ k (
      change-banned fl config now p q (message_succeeded fl config now b) n.reputation
        (delivered-banned now b) h)
  stays_banned (message_failure now p ∷ events) q n k h = stays_banned events q _ k (
      change-banned fl config now p q (message_failed fl config now) n.reputation
        (undelivered-banned now) h)
  stays_banned (bytes_sent now p b ∷ events) q n k h =
      stays_banned events q _ k (
        change-banned fl config now p q (bytes_sent_to fl config now b) n.reputation (λ rep e. e) h)
  stays_banned (decay now ∷ events) q n k h =
      stays_banned events q _ k (decay-banned fl config now q n.reputation ∙ h)
  stays_banned (unban_ p ∷ events) q n k h =
      stays_banned events q _ k.1 (unban-banned p q n.reputation k.0 h)

  decay-IsUnique :
      (now : ℕ) (m : List (EndpointId × PeerReputation F))
      → IsUnique m
      → IsUnique (apply_decay fl config now m)
  unfolding IsUnique apply_decay lookup
  decay-IsUnique now [] u = tt
  decay-IsUnique now ((k, rep) ∷ m) (absent, u) =
      (decay_absent now k m absent, decay-IsUnique now m u)
    where
      decay_absent :
          (now k : ℕ) (m : List (EndpointId × PeerReputation F))
          → lookup k m ≡ none
          → lookup k (apply_decay fl config now m) ≡ none
      decay_absent now k [] h = refl
      decay_absent now k ((j, r) ∷ m) h = ground (arith, decay_absent now k m)

  unban-IsUnique :
      (p : EndpointId) (m : List (EndpointId × PeerReputation F))
      → IsUnique m
      → IsUnique (unban fl config p m)
  unfolding unban
  unban-IsUnique p m u = elim (Option-cases (lookup p m)) [
    | inl e ↦ rw (unban, e) u
    | inr (rep, e) ↦ rw (unban, e) (insert-IsUnique p _ m u)
  ]

  happen-IsUnique :
      (events : List (Event fl circuit config)) (n : NetworkResilience F)
      → IsUnique n.reputation
      → IsUnique (happen_all fl circuit config events n).reputation
  unfolding happen_all happen succeed_with fail_with record_sync_success record_sync_failure
      record_message_success record_message_failure record_bytes_sent
  happen-IsUnique [] n u = u
  happen-IsUnique (ask now p ∷ events) n u =
      happen-IsUnique events _ (rw (ask-reputation now p n) u)
  happen-IsUnique (success now p l ∷ events) n u =
      happen-IsUnique events _ (insert-IsUnique p _ n.reputation u)
  happen-IsUnique (failure now p ∷ events) n u =
      happen-IsUnique events _ (insert-IsUnique p _ n.reputation u)
  happen-IsUnique (message_success now p b ∷ events) n u =
      happen-IsUnique events _ (insert-IsUnique p _ n.reputation u)
  happen-IsUnique (message_failure now p ∷ events) n u =
      happen-IsUnique events _ (insert-IsUnique p _ n.reputation u)
  happen-IsUnique (bytes_sent now p b ∷ events) n u =
      happen-IsUnique events _ (insert-IsUnique p _ n.reputation u)
  happen-IsUnique (decay now ∷ events) n u =
      happen-IsUnique events _ (decay-IsUnique now n.reputation u)
  happen-IsUnique (unban_ p ∷ events) n u =
      happen-IsUnique events _ (unban-IsUnique p n.reputation u)

  candidate_free :
      (limit : ℕ) (q : EndpointId) (m : List (EndpointId × PeerReputation F))
      → IsUnique m
      → In q (get_sync_candidates fl config limit m)
      → is_banned fl q m ≡ false
  unfolding get_sync_candidates is_banned
  candidate_free limit q m u i =
      let (x, e, i₁) = map-In _ q _ i in
      let (y, e₁, i₂) = map-In _ x _ (sort_by-In _ x _ (take-In limit x _ i₁)) in
      let (i₃, t) = filter-In (is_candidate fl config) y m i₂ in
      let found = In-lookup y.0 y.1 m u i₃ in ground arith

  top_free :
      (limit : ℕ) (y : EndpointId × PeerReputation F) (m : List (EndpointId × PeerReputation F))
      → IsUnique m
      → In y (get_top_peers fl limit m)
      → is_banned fl y.0 m ≡ false
  unfolding get_top_peers is_banned
  top_free limit y m u i =
      let (i₁, t) = filter-In (is_free fl) y m (sort_by-In _ y _ (take-In limit y _ i)) in
      let found = In-lookup y.0 y.1 m u i₁ in ground arith

  -- A banned peer stays out until it is unbanned: after any events that lift no ban of it, from a
  -- state with one reputation for each peer, asking whether to communicate with it answers no whatever
  -- its circuit says, and it is neither a candidate for a sync nor among the top peers.
  pub banned_lem :
      (events : List (Event fl circuit config)) (q : EndpointId) (n : NetworkResilience F)
      (now limit : ℕ)
      → IsUnique n.reputation
      → Keeps q events
      → is_banned fl q n.reputation ≡ true
      → let n' = happen_all fl circuit config events n in
        ((should_communicate fl circuit config now q n').1 ≡ false)
        × (¬ In q (get_sync_candidates fl config limit n'.reputation))
        × ((rep : PeerReputation F) → ¬ In (q, rep) (get_top_peers fl limit n'.reputation))
  unfolding should_communicate
  banned_lem events q n now limit u k h =
      let b = stays_banned events q n k h in
      let u' = happen-IsUnique events n u in
      (
        ground arith,
        λ i. let f = candidate_free limit q _ u' i in absurd (cc),
        λ rep i. let f = top_free limit (q, rep) _ u' i in absurd (cc),
      )
