-- ===== src/Resilience/Breaker/Trips.antt =====
-- src/network_resilience.rs, `CircuitBreaker`: when a circuit opens, and how it closes again.
use cyberfly_rust_node.Common.{
  ℕ, zero, suc, ◌+◌, ◌-◌, ◌^◌, ◌≤◌, ◌<◌, ◌≡◌, refl, ap, ◌∙◌, true, false, some, List, [], ◌∷◌, ◌++◌,
  arith, ltb, leb, if◌then◌else◌, length, length-append, Bool-cases, inl, inr, ltb→lt,
}
use cyberfly_rust_node.Resilience.Breaker.{
  closed, open_, half_open, CircuitBreakerConfig, PeerCircuitState, default_state, allow_open,
  allow_peer, succeed_peer, recent_failures, count_failure, fail_peer,
}

abbrev pub Between : ℕ → ℕ → List ℕ → Type 0
Between lo hi [] = Unit
Between lo hi (t ∷ ts) = (lo ≤ t) × (t ≤ hi) × Between lo hi ts

Between-snoc :
    (lo hi t : ℕ) (ts : List ℕ) → Between lo hi ts → lo ≤ t → t ≤ hi → Between lo hi (ts ++ t ∷ [])
Between-snoc lo hi t [] h l u = (l, u, tt)
Between-snoc lo hi t (x ∷ ts) h l u = (h.0, h.1, Between-snoc lo hi t ts h.2 l u)

module _ (config : CircuitBreakerConfig) where
  -- Failures at the given times, one after the other.
  pub fail_run : List ℕ → PeerCircuitState → PeerCircuitState
  fail_run [] p = p
  fail_run (t ∷ ts) p = fail_run ts (fail_peer config t p)

  -- Successes, so many.
  pub succeed_run : ℕ → PeerCircuitState → PeerCircuitState
  succeed_run zero p = p
  succeed_run (suc n) p = succeed_run n (succeed_peer config p)

  window_keeps :
      (lo hi now : ℕ) (ts : List ℕ)
      → hi - lo < config.failure_window
      → Between lo hi ts
      → now ≤ hi
      → recent_failures config now ts ≡ ts ++ now ∷ []
  unfolding recent_failures
  window_keeps lo hi now [] h b u = refl
  window_keeps lo hi now (t ∷ ts) h b u = ground (arith, window_keeps lo hi now ts h b.2 u)

  fail_run_open :
      (ts : List ℕ) (p : PeerCircuitState) → p.state ≡ open_ → (fail_run ts p).state ≡ open_
  unfolding fail_run
  fail_run_open [] p h = h
  fail_run_open (t ∷ ts) p h =
      fail_run_open ts (fail_peer config t p) (unfold fail_peer count_failure in ground arith)

  -- One more failure within the window of a closed circuit.
  fail_step :
      (lo hi t : ℕ) (p : PeerCircuitState)
      → hi - lo < config.failure_window
      → config.failure_threshold < 2 ^ 32
      → Between lo hi p.failure_timestamps
      → t ≤ hi
      → p.state ≡ closed
      → length p.failure_timestamps < config.failure_threshold
      → ((fail_peer config t p).failure_timestamps ≡ p.failure_timestamps ++ t ∷ [])
        × ((fail_peer config t p).state ≡ (
            if leb config.failure_threshold (length p.failure_timestamps + 1)
            then open_
            else closed))
  unfolding fail_peer count_failure
  fail_step lo hi t p w small old u h below =
      let kept = window_keeps lo hi t p.failure_timestamps w old u in
      let size = length-append p.failure_timestamps (t ∷ []) in
      (ground (arith, kept), ground (arith, kept, size))

  fail_run_closed :
      (lo hi : ℕ) (ts : List ℕ) (p : PeerCircuitState)
      → hi - lo < config.failure_window
      → config.failure_threshold < 2 ^ 32
      → Between lo hi p.failure_timestamps
      → Between lo hi ts
      → p.state ≡ closed
      → length p.failure_timestamps < config.failure_threshold
      → (fail_run ts p).state ≡ (
          if ltb (length p.failure_timestamps + length ts) config.failure_threshold
          then closed
          else open_)
  unfolding fail_run
  fail_run_closed lo hi [] p w small old new h below = ground arith
  fail_run_closed lo hi (t ∷ ts) p w small old new h below =
      let (times, state) = fail_step lo hi t p w small old new.1 h below in
      let size : length (fail_peer config t p).failure_timestamps
          ≡ length p.failure_timestamps + 1 =
        rw times (length-append p.failure_timestamps (t ∷ [])) in
      elim (Bool-cases (leb config.failure_threshold (length p.failure_timestamps + 1))) [
        | inl reached ↦ ground (arith, fail_run_open ts (fail_peer config t p) (ground arith))
        | inr under ↦
            let later =
              fail_run_closed lo hi ts (fail_peer config t p) w small
                (rw times (Between-snoc lo hi t p.failure_timestamps old new.0 new.1)) new.2
                (ground arith) (ground arith) in
            ground (arith, later)
      ]

  -- Failures that all fall into one window open a fresh circuit exactly when they are as many as the
  -- threshold, or more, where the threshold is positive and a u32.
  pub failures_open :
      (lo hi : ℕ) (ts : List ℕ)
      → hi - lo < config.failure_window
      → 0 < config.failure_threshold
      → config.failure_threshold < 2 ^ 32
      → Between lo hi ts
      → (fail_run ts default_state).state
        ≡ (if ltb (length ts) config.failure_threshold then closed else open_)
  failures_open lo hi ts w pos small b =
      fail_run_closed lo hi ts default_state w small tt b refl pos
      ∙ ap (λ (n : ℕ). if ltb n config.failure_threshold then closed else open_) (omega arith)

  succeed_run_closed :
      (n : ℕ) (p : PeerCircuitState) → p.state ≡ closed → (succeed_run n p).state ≡ closed
  unfolding succeed_run
  succeed_run_closed zero p h = h
  succeed_run_closed (suc n) p h =
      succeed_run_closed n (succeed_peer config p) (unfold succeed_peer in ground arith)

  succeed_run_open :
      (n : ℕ) (p : PeerCircuitState) → p.state ≡ open_ → (succeed_run n p).state ≡ open_
  unfolding succeed_run
  succeed_run_open zero p h = h
  succeed_run_open (suc n) p h =
      succeed_run_open n (succeed_peer config p) (unfold succeed_peer in ground arith)

  succeed_run_half_open :
      (n : ℕ) (p : PeerCircuitState)
      → p.state ≡ half_open
      → p.success_count < config.success_threshold
      → (succeed_run n p).state
        ≡ (if ltb (p.success_count + n) config.success_threshold then half_open else closed)
  unfolding succeed_run
  succeed_run_half_open zero p h below = ground arith
  succeed_run_half_open (suc n) p h below =
      elim (Bool-cases (leb config.success_threshold (p.success_count + 1))) [
        | inl enough ↦ ground (
          arith,
          succeed_run_closed n (succeed_peer config p) (unfold succeed_peer in ground arith),
        )
        | inr more ↦
            let one : ((succeed_peer config p).success_count ≡ p.success_count + 1)
                × ((succeed_peer config p).state ≡ half_open) =
              unfold succeed_peer in ground arith in
            ground (
              arith,
              succeed_run_half_open n (succeed_peer config p) one.1 (
                  omega (
                    arith,
                    one.0,
                    ltb→lt (p.success_count + 1) config.success_threshold (ground arith),
                  )),
            )
      ]

  -- An open circuit refuses every request until the recovery timeout has passed. The first request
  -- after that is let through, and from then on as many successes as the success threshold close the
  -- circuit, and fewer leave it half open, where that threshold is positive.
  pub recovery :
      (now opened n : ℕ) (p : PeerCircuitState)
      → p.state ≡ open_
      → p.opened_at ≡ some opened
      → 0 < config.success_threshold
      → ((allow_peer config now p).1 ≡ leb config.recovery_timeout (now - opened))
        × ((succeed_run n (allow_peer config now p).0).state ≡ (
            if leb config.recovery_timeout (now - opened)
            then (if ltb n config.success_threshold then half_open else closed)
            else open_))
  recovery now opened n p h dated pos =
      elim (Bool-cases (leb config.recovery_timeout (now - opened))) [
        | inl due ↦
            let q : PeerCircuitState = record p { state = half_open; success_count = 0 } in
            let step : allow_peer config now p ≡ (q, true) =
              unfold allow_peer allow_open in ground arith in
            let run = succeed_run_half_open n q refl pos in
            (ground (arith, step), rw (step, due) (run ∙ ground arith))
        | inr early ↦
            let step : allow_peer config now p ≡ (p, false) =
              unfold allow_peer allow_open in ground arith in
            (ground (arith, step), rw (step, early) (succeed_run_open n p h))
      ]
