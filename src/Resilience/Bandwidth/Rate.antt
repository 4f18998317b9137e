-- ===== src/Resilience/Bandwidth/Rate.antt =====
-- src/network_resilience.rs, `TokenBucket`: what a bucket lets through over a run of requests.
use cyberfly_rust_node.Common.{
  ℕ, ◌+◌, ◌-◌, ◌*◌, ◌/◌, ◌^◌, ◌≤◌, ◌≡◌, ◌≢◌, refl, subst, ◌∙◌, Option, none, some, List, [], ◌∷◌,
  arith, ltb, leb, if◌then◌else◌, Bool-cases, inl, inr, Option-cases,
}
use Prim.Native.Nat.{min}
use native.Mathlib.Nat.{zero-add, mul-le-mul_right, mod-le, div-mul-le_self}
use cyberfly_rust_node.Resilience.Bandwidth.{
  u64, as_millis, TokenBucket, new_bucket, refill, try_consume,
}

-- Attempts to take bytes, each with its time; the bucket is refilled before each. The number is of
-- the bytes that were let through.
abbrev add_taken : ℕ → Option (TokenBucket × ℕ) → Option (TokenBucket × ℕ)
add_taken n none = none
add_taken n (some (b, taken)) = some (b, n + taken)

unfoldable pub run_bucket : List (ℕ × ℕ) → TokenBucket → Option (TokenBucket × ℕ)
run_bucket [] b = some (b, 0)
run_bucket ((now, bytes) ∷ rest) b = elim (refill now b) [
  | none ↦ none
  | some b' ↦
      let (b'', passed) = try_consume bytes b' in
      add_taken (if passed then bytes else 0) (run_bucket rest b'')
]

-- From `b` to `c`, with so many bytes let through in between: at most what `b` held and the refill
-- amount once for each whole interval that has passed.
pub record Spent (b c : TokenBucket) (taken : ℕ) : Type 0 where
  pub times : ℕ
  pub passed : times * as_millis b.refill_interval ≤ as_millis (c.last_refill - b.last_refill)
  pub later : b.last_refill ≤ c.last_refill
  pub bounded : taken + c.tokens ≤ b.tokens + times * b.refill_amount
  pub same_interval : c.refill_interval ≡ b.refill_interval
  pub same_amount : c.refill_amount ≡ b.refill_amount

Spent-refl : (b : TokenBucket) → Spent b b 0
Spent-refl b = record {
  times = 0;
  passed = omega arith;
  later = omega arith;
  bounded = omega arith;
  same_interval = refl;
  same_amount = refl;
}

Spent-trans : (b c d : TokenBucket) (m n : ℕ) → Spent b c m → Spent c d n → Spent b d (m + n)
Spent-trans b c d m n p q = record {
  times = p.times + q.times;
  passed =
      let k : q.times * as_millis b.refill_interval ≤ as_millis (d.last_refill - c.last_refill) =
        rw p.same_interval at q.passed in
      omega (arith, p.passed, k, p.later, q.later);
  later = omega (arith, p.later, q.later);
  bounded =
      let k : n + d.tokens ≤ c.tokens + q.times * b.refill_amount = rw p.same_amount at q.bounded in
      omega (arith, p.bounded, k);
  same_interval = q.same_interval ∙ p.same_interval;
  same_amount = q.same_amount ∙ p.same_amount;
}

Spent-eq : (b c c' : TokenBucket) (m n : ℕ) → c ≡ c' → m ≡ n → Spent b c m → Spent b c' n
Spent-eq b c c' m n e f s = subst (λ d. Spent b d n) e (subst (λ (k : ℕ). Spent b c k) f s)

refill_added :
    (tokens max elapsed interval amount : ℕ)
    → min (u64 (tokens + u64 (u64 (elapsed / interval) * amount))) max
      ≤ tokens + elapsed / interval * amount
refill_added tokens max elapsed interval amount = omega (
  arith,
  mod-le (tokens + u64 (u64 (elapsed / interval) * amount)) (2 ^ 64),
  mod-le (u64 (elapsed / interval) * amount) (2 ^ 64),
  mul-le-mul_right amount (mod-le (elapsed / interval) (2 ^ 64)),
)

refill-Spent : (now : ℕ) (b c : TokenBucket) → refill now b ≡ some c → Spent b c 0
unfolding refill
refill-Spent now b c h = elim (Bool-cases (leb b.refill_interval (now - b.last_refill))) [
  | inr early ↦ subst (λ d. Spent b d 0) (ground arith) (Spent-refl b)
  | inl due ↦
      let facts : (c.last_refill ≡ now)
          × (c.refill_interval ≡ b.refill_interval)
          × (c.refill_amount ≡ b.refill_amount)
          × (as_millis b.refill_interval ≢ 0)
          × (c.tokens
              ≡ min
                  (u64 (
                    b.tokens
                    + u64 (
                        u64 (as_millis (now - b.last_refill) / as_millis b.refill_interval)
                        * b.refill_amount)))
                  b.max_tokens) =
        (ground arith, ground arith, ground arith, ground arith, ground arith) in
      let (at_now, interval, amount, ne, tokens) = facts in
      record {
        times = as_millis (now - b.last_refill) / as_millis b.refill_interval;
        passed =
            rw at_now
              (div-mul-le_self (as_millis (now - b.last_refill)) (as_millis b.refill_interval));
        later = ground (arith, at_now);
        bounded =
            rw (tokens, zero-add)
              (refill_added b.tokens b.max_tokens (as_millis (now - b.last_refill))
                (as_millis b.refill_interval) b.refill_amount);
        same_interval = interval;
        same_amount = amount;
      }
]

consume-Spent :
    (bytes : ℕ) (b : TokenBucket)
    → Spent b (try_consume bytes b).0 (if (try_consume bytes b).1 then bytes else 0)
unfolding try_consume
consume-Spent bytes b = elim (Bool-cases (ltb b.tokens bytes)) [
  | inl short ↦ rw short (Spent-refl b)
  | inr enough ↦ rw enough (record {
    times = 0;
    passed = omega arith;
    later = omega arith;
    bounded = ground arith;
    same_interval = refl;
    same_amount = refl;
  })
]

-- In a run of calls of a bucket that do not overlap, each a refill and an attempt to consume, whatever
-- they ask for and at whatever times, the bytes that it lets through are at most the tokens that it
-- held, and the refill amount once for each whole refill interval from its last refill on.
pub bucket_rate :
    (asked : List (ℕ × ℕ)) (b c : TokenBucket) (taken : ℕ)
    → run_bucket asked b ≡ some (c, taken)
    → Spent b c taken
unfolding run_bucket
bucket_rate [] b c taken h = Spent-eq b b c 0 taken (ground arith) (ground arith) (Spent-refl b)
bucket_rate ((now, bytes) ∷ rest) b c taken h = elim (Option-cases (refill now b)) [
  | inl broken ↦ absurd (ground arith)
  | inr (b', e) ↦
      let b'' = (try_consume bytes b').0 in
      elim (Option-cases (run_bucket rest b'')) [
        | inl broken ↦ absurd (ground arith)
        | inr ((d, n), r) ↦
            Spent-eq b d c (0 + ((if (try_consume bytes b').1 then bytes else 0) + n)) taken
              (ground arith) (ground arith)
              (Spent-trans b b' d 0 ((if (try_consume bytes b').1 then bytes else 0) + n)
                (refill-Spent now b b' e)
                (Spent-trans b' b'' d (if (try_consume bytes b').1 then bytes else 0) n
                  (consume-Spent bytes b') (bucket_rate rest b'' d n r)))
      ]
]

-- A new bucket is full, and no refill fills a bucket beyond its capacity.
pub bucket_capacity :
    (per_refill : ℕ → ℕ → ℕ) (rate interval now later bytes : ℕ) (b c : TokenBucket)
    → b.tokens ≤ b.max_tokens
    → refill later b ≡ some c
    → ((new_bucket per_refill rate interval now).tokens
        ≡ (new_bucket per_refill rate interval now).max_tokens)
      × ((try_consume bytes c).0.tokens ≤ b.max_tokens)
unfolding new_bucket refill try_consume
bucket_capacity per_refill rate interval now later bytes b c fits h = (refl, ground arith)
