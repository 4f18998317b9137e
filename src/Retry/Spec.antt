-- ===== src/Retry/Spec.antt =====
-- src/retry.rs: what every strategy does, given the delays that it is to wait.
use cyberfly_rust_node.Common.{
  ℕ, zero, suc, ◌+◌, ◌≤◌, ◌<◌, ◌≡◌, refl, ap, sym, subst, ◌∙◌, true, Option, none, some, List, [],
  ◌∷◌, arith, ltb, if◌then◌else◌, length, take, replicate, Bool-cases, inl, inr,
}
use native.Mathlib.Nat.{add-zero}
use cyberfly_rust_node.Common.Result.{Result, ok, err, Result-cases}
use cyberfly_rust_node.Retry.Executor.{
  DbError, is_recoverable, once, linear, exponential, custom, Run, finish, slept, linear_loop,
  execute_linear, next_delay, exponential_loop, execute_exponential, custom_loop, execute_custom,
  execute,
}

module _ {A : Type 0} (operation : ℕ → Result DbError A) where
  -- Call; stop at a result, at an error that is not recoverable, or with no delay left; else wait and
  -- go on.
  pub retrying : ℕ → List ℕ → Run A
  retrying attempt [] = finish (operation attempt)
  retrying attempt (delay ∷ delays) = elim (operation attempt) [
    | ok a ↦ finish (ok a)
    | err e ↦
        let rest = retrying (suc attempt) delays in
        if is_recoverable e then slept delay rest else finish (err e)
  ]

  -- The first delays of an exponential strategy.
  pub backoff : ℕ → ℕ → ℕ → List ℕ
  backoff zero delay max_delay = []
  backoff (suc n) delay max_delay = delay ∷ backoff n (next_delay delay max_delay) max_delay

  linear_loop-retrying :
      (max_attempts delay left attempt : ℕ) (last : Option DbError)
      → attempt + left ≡ max_attempts
      → linear_loop operation max_attempts delay (suc left) attempt last
        ≡ retrying attempt (replicate left delay)
  unfolding linear_loop retrying
  linear_loop-retrying max delay zero attempt last h = ground arith
  linear_loop-retrying max delay (suc left) attempt last h =
      elim (Result-cases (operation attempt)) [
        | inl (a, e) ↦ ground arith
        | inr (er, e) ↦
            ground
              (arith, linear_loop-retrying max delay left (suc attempt) (some er) (omega arith))
      ]

  exponential_loop-retrying :
      (max_attempts max_delay delay left attempt : ℕ) (last : Option DbError)
      → attempt + left ≡ max_attempts
      → exponential_loop operation max_attempts max_delay delay (suc left) attempt last
        ≡ retrying attempt (backoff left delay max_delay)
  unfolding exponential_loop retrying backoff
  exponential_loop-retrying max max_delay delay zero attempt last h = ground arith
  exponential_loop-retrying max max_delay delay (suc left) attempt last h =
      elim (Result-cases (operation attempt)) [
        | inl (a, e) ↦ ground arith
        | inr (er, e) ↦ ground (
          arith,
          exponential_loop-retrying max max_delay (next_delay delay max_delay) left (suc attempt)
              (some er) (omega arith),
        )
      ]

  abbrev before : ℕ → ℕ → Run A → Run A
  before attempt delay r = if ltb 1 attempt then record r { sleeps = delay ∷ r.sleeps } else r

  custom_loop-retrying :
      (max_attempts delay attempt : ℕ) (delays : List ℕ) (last : Option DbError)
      → 0 < attempt
      → attempt + length delays ≡ max_attempts
      → custom_loop operation max_attempts (delay ∷ delays) attempt last
        ≡ before attempt delay (retrying attempt delays)
  unfolding custom_loop retrying
  custom_loop-retrying max delay attempt [] last pos h = ground arith
  custom_loop-retrying max delay attempt (d ∷ delays) last pos h =
      elim (Result-cases (operation attempt)) [
        | inl (a, e) ↦ ground arith
        | inr (er, e) ↦ ground (
          arith,
          custom_loop-retrying max d (suc attempt) delays (some er) (omega arith) (omega arith),
        )
      ]

  -- Every strategy that allows a call at all waits by its list of delays: the same delay each time, the
  -- doubled and capped delays, or the given ones.
  pub execute-retrying :
      (n delay max_delay : ℕ) (intervals : List ℕ)
      → (execute operation once ≡ retrying 1 [])
        × (execute operation (linear (suc n) delay) ≡ retrying 1 (replicate n delay))
        × (execute operation (exponential (suc n) delay max_delay)
            ≡ retrying 1 (backoff n delay max_delay))
        × (execute operation (custom intervals) ≡ retrying 1 intervals)
  unfolding execute execute_linear execute_exponential execute_custom
  execute-retrying n delay max_delay intervals = (
    unfold retrying in refl,
    linear_loop-retrying (suc n) delay n 1 none (omega arith),
    exponential_loop-retrying (suc n) max_delay delay n 1 none (omega arith),
    custom_loop-retrying (length intervals + 1) 0 1 intervals none (omega arith) (omega arith),
  )

  -- A linear or exponential strategy that allows no attempt makes no call, and panics for lack of an
  -- error to return.
  pub execute_no_attempts :
      (delay max_delay : ℕ)
      → (execute operation (linear 0 delay) ≡ record { outcome = none; calls = 0; sleeps = [] })
        × (execute operation (exponential 0 delay max_delay)
            ≡ record { outcome = none; calls = 0; sleeps = [] })
  unfolding execute execute_linear execute_exponential linear_loop exponential_loop
  execute_no_attempts delay max_delay = (refl, refl)

  -- What the calls of a run tell: the outcome is the last call's, the calls are one more than the
  -- delays at most, every call before the last failed with a recoverable error, a last call that
  -- failed so was the last allowed, and the sleeps are the first of the delays.
  pub record Describes (attempt : ℕ) (delays : List ℕ) (r : Run A) : Type 0 where
    pub last : ℕ
    pub counted : r.calls ≡ suc last
    pub bounded : last ≤ length delays
    pub result : r.outcome ≡ some (operation (attempt + last))
    pub failed :
        (i : ℕ)
        → i < last
        → (e : DbError) × (operation (attempt + i) ≡ err e) × (is_recoverable e ≡ true)
    pub ended :
        (e : DbError)
        → operation (attempt + last) ≡ err e
        → is_recoverable e ≡ true
        → last ≡ length delays
    pub waited : r.sleeps ≡ take last delays

  -- The call at hand ends the run.
  Describes-finish :
      (attempt : ℕ) (delays : List ℕ)
      → ((e : DbError) → operation attempt ≡ err e → is_recoverable e ≡ true → 0 ≡ length delays)
      → Describes attempt delays (finish (operation attempt))
  Describes-finish attempt delays h = record {
    last = 0;
    counted = refl;
    bounded = omega arith;
    result = rw add-zero;
    failed = λ i lt. absurd (omega arith);
    ended = λ e. rw add-zero (h e);
    waited = refl;
  }

  -- The call at hand failed, and the run goes on.
  Describes-slept :
      (attempt delay : ℕ) (delays : List ℕ) (r : Run A) (e : DbError)
      → operation attempt ≡ err e
      → is_recoverable e ≡ true
      → Describes (suc attempt) delays r
      → Describes attempt (delay ∷ delays) (slept delay r)
  Describes-slept attempt delay delays r e failed again d = record {
    last = suc d.last;
    counted = ap suc d.counted;
    bounded = omega (arith, d.bounded);
    result = d.result ∙ ap (λ (k : ℕ). some (operation k)) (shift attempt d.last);
    failed = λ i. fails i;
    ended = λ e' h k. ap suc (d.ended e' (ap operation (shift attempt d.last) ∙ h) k);
    waited = ap (λ (u : List ℕ). delay ∷ u) d.waited;
  }
    where
      shift : (n k : ℕ) → suc n + k ≡ n + suc k
      shift n k = omega arith

      fails :
          (i : ℕ)
          → i < suc d.last
          → (e' : DbError) × (operation (attempt + i) ≡ err e') × (is_recoverable e' ≡ true)
      fails zero lt = (e, rw add-zero failed, again)
      fails (suc i) lt =
          let (e', h, k) = d.failed i (omega arith) in
          (e', ap operation (sym (shift attempt i)) ∙ h, k)

  -- A run with given delays is so described, whatever the operation does.
  pub retrying-Describes :
      (attempt : ℕ) (delays : List ℕ) → Describes attempt delays (retrying attempt delays)
  unfolding retrying
  retrying-Describes attempt [] = Describes-finish attempt [] (λ e h k. refl)
  retrying-Describes attempt (delay ∷ delays) = elim (Result-cases (operation attempt)) [
    | inl (a, ok_a) ↦
        let stop : retrying attempt (delay ∷ delays) ≡ finish (operation attempt) = ground arith in
        subst (Describes attempt (delay ∷ delays)) (sym stop)
          (Describes-finish attempt (delay ∷ delays) (λ e h k. absurd (cc)))
    | inr (e, bad) ↦ elim (Bool-cases (is_recoverable e)) [
      | inl again ↦
          let go_on : retrying attempt (delay ∷ delays)
              ≡ slept delay (retrying (suc attempt) delays) =
            ground arith in
          subst (Describes attempt (delay ∷ delays)) (sym go_on) (
            Describes-slept attempt delay delays (retrying (suc attempt) delays) e bad again
              (retrying-Describes (suc attempt) delays))
      | inr fatal ↦
          let stop : retrying attempt (delay ∷ delays) ≡ finish (operation attempt) =
            ground arith in
          subst (Describes attempt (delay ∷ delays)) (sym stop)
            (Describes-finish attempt (delay ∷ delays) (λ e' h k. absurd (ground arith)))
    ]
  ]

  -- A strategy that allows a call at all makes one call more than it has delays at most; it returns
  -- what its last call returned; each call before failed with a recoverable error, and it gives up on
  -- such an error only when its delays are used up; and it sleeps by its delays, from the first on.
  pub execute-Describes :
      (n delay max_delay : ℕ) (intervals : List ℕ)
      → Describes 1 (replicate n delay) (execute operation (linear (suc n) delay))
        × Describes 1
            (backoff n delay max_delay)
            (execute operation (exponential (suc n) delay max_delay))
        × Describes 1 intervals (execute operation (custom intervals))
  execute-Describes n delay max_delay intervals =
      let (_, by_linear, by_exponential, by_custom) =
        execute-retrying n delay max_delay intervals in
      (
        rw by_linear (retrying-Describes 1 (replicate n delay)),
        rw by_exponential (retrying-Describes 1 (backoff n delay max_delay)),
        rw by_custom (retrying-Describes 1 intervals),
      )
