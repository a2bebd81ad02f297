-- ===== src/RateLimit/Bound.antt =====
-- How many messages the bucket lets through.
use mathlib.Core.Path.{subst, ap₂}
use native.Mathlib.Nat.{div-add-mod, mod-lt}
use distributed_im.Common.{
  ℕ, zero, suc, ◌+◌, ◌-◌, ◌*◌, ◌/◌, ◌≤◌, ◌<◌, ◌≡◌, sym, ap, ◌∙◌, true, false, List, [], ◌∷◌,
  if◌then◌else◌, arith,
}
use distributed_im.RateLimit.{
  RateLimiter, unit_token, refill, take_token, try_consume, retry_after_seconds,
}

abbrev pub IsFilled : RateLimiter → Type 0
IsFilled r = r.tokens ≤ r.capacity * unit_token

-- A run of calls at the given times: how many were let through, and the bucket at the end.
unfoldable pub consume_all : List ℕ → RateLimiter → ℕ × RateLimiter
consume_all [] r = (0, r)
consume_all (now ∷ times) r =
    let (granted, r1) = try_consume now r in
    let (count, r2) = consume_all times r1 in ((if granted then suc count else count), r2)

-- The times do not fall, from `t` on up to `last`.
abbrev pub IsOrdered : ℕ → List ℕ → ℕ → Type 0
IsOrdered t [] last = t ≤ last
IsOrdered t (now ∷ times) last = (t ≤ now) × IsOrdered now times last

refill_lem :
    (now : ℕ) (r : RateLimiter)
    → IsFilled r
    → r.last_refill ≤ now
    → let r1 = refill now r in
      IsFilled r1
      × (r1.last_refill ≡ now)
      × (r1.rate ≡ r.rate)
      × (r1.capacity ≡ r.capacity)
      × (r1.tokens ≤ r.tokens + (now - r.last_refill) * r.rate)
unfolding refill
refill_lem now r v h = ground arith

take_token_lem :
    (r : RateLimiter)
    → IsFilled r
    → let (granted, r1) = take_token r in
      IsFilled r1
      × (r1.last_refill ≡ r.last_refill)
      × (r1.rate ≡ r.rate)
      × (r1.capacity ≡ r.capacity)
      × (r1.tokens + (if granted then unit_token else 0) ≡ r.tokens)
unfolding take_token
take_token_lem r v = ground arith

split_time : (a b c rate : ℕ) → a ≤ b → b ≤ c → (b - a) * rate + (c - b) * rate ≡ (c - a) * rate
split_time a b c rate h k =
    let whole : (b - a) + (c - b) ≡ c - a = omega arith in
    omega (arith, ap (λ (t : ℕ). t * rate) whole)

IsOrdered-le : (t : ℕ) (times : List ℕ) (last : ℕ) → IsOrdered t times last → t ≤ last
IsOrdered-le t [] last o = o
IsOrdered-le t (now ∷ times) last o = omega (arith, o.0, IsOrdered-le now times last o.1)

-- Over any run of calls whose times do not fall and end by `last`, the calls that are let through
-- number at most the tokens that the bucket holds at the start and those that `rate` yields until `last`.
pub consume_all_bound :
    (times : List ℕ) (last : ℕ) (r : RateLimiter)
    → IsFilled r
    → IsOrdered r.last_refill times last
    → (consume_all times r).0 * unit_token ≤ r.tokens + (last - r.last_refill) * r.rate
unfolding consume_all try_consume
consume_all_bound [] last r v o = omega arith
consume_all_bound (now ∷ times) last r v o =
    let r1 = refill now r in
    let (v1, at_now, rate1, cap1, gain) = refill_lem now r v o.0 in
    let (v2, at2, rate2, cap2, paid) = take_token_lem r1 v1 in
    let r2 = (take_token r1).1 in
    let same_time : r2.last_refill ≡ now = at2 ∙ at_now in
    let same_rate : r2.rate ≡ r.rate = rate2 ∙ rate1 in
    let later = subst (λ t. IsOrdered t times last) (sym same_time) o.1 in
    let rest = consume_all_bound times last r2 v2 later in
    let span : (last - r2.last_refill) * r2.rate ≡ (last - now) * r.rate =
      ap₂ (λ t s. (last - t) * s) same_time same_rate in
    ground (
      arith,
      rest,
      span,
      paid,
      gain,
      split_time r.last_refill now last r.rate o.0 (IsOrdered-le now times last o.1),
    )

abbrev pub seconds : ℕ → ℕ
seconds n = n * 1_000_000

ceiling : (d q : ℕ) → 0 < q → d ≤ (d + (q - 1)) / q * q
ceiling d q h = grind (arith, div-add-mod (d + (q - 1)) q, mod-lt (d + (q - 1)) h)

positive_factor : (w q d : ℕ) → 0 < d → d ≤ w * q → 0 < w
positive_factor zero q d h k = absurd (omega arith)
positive_factor (suc w) q d h k = omega arith

refill_after :
    (w : ℕ) (b : RateLimiter)
    → 0 < w
    → 0 < b.capacity
    → unit_token ≤ b.tokens + w * (b.rate * unit_token)
    → (take_token (refill (b.last_refill + seconds w) b)).0 ≡ true
unfolding take_token refill
refill_after w b hw hc enough =
    let elapsed : b.last_refill + seconds w - b.last_refill ≡ seconds w = omega arith in
    ground (arith, ap (λ (t : ℕ). t * b.rate) elapsed)

retry_after_seconds_lem :
    (b : RateLimiter)
    → b.tokens < unit_token
    → retry_after_seconds b
      ≡ (unit_token - b.tokens + (b.rate * unit_token - 1)) / (b.rate * unit_token)
unfolding retry_after_seconds
retry_after_seconds_lem b short = ground arith

-- A bucket short of a token that is refilled after its own `retry_after_seconds`.
wait_suffices :
    (b : RateLimiter)
    → 0 < b.rate
    → 0 < b.capacity
    → b.tokens < unit_token
    → (take_token (refill (b.last_refill + seconds (retry_after_seconds b)) b)).0 ≡ true
wait_suffices b hr hc short =
    let d = unit_token - b.tokens in
    let q = b.rate * unit_token in
    let w = (d + (q - 1)) / q in
    let enough : d ≤ w * q = ceiling d q (omega arith) in
    rw (retry_after_seconds_lem b short)
      (refill_after w b (positive_factor w q d (omega arith) enough) hc (omega (arith, enough)))

take_token_refused :
    (r : RateLimiter) → (take_token r).0 ≡ false → ((take_token r).1 ≡ r) × (r.tokens < unit_token)
unfolding take_token
take_token_refused r e = ground arith

-- A refused caller that waits the number of seconds it is told, while nobody else takes a token, is let
-- through then, if the rate and the capacity are at least 1.
pub retry_after_suffices :
    (now : ℕ) (r : RateLimiter)
    → 0 < r.rate
    → 0 < r.capacity
    → r.last_refill ≤ now
    → IsFilled r
    → (try_consume now r).0 ≡ false
    → let refused = (try_consume now r).1 in
      (try_consume (now + seconds (retry_after_seconds refused)) refused).0 ≡ true
unfolding try_consume
retry_after_suffices now r hr hc ht v e =
    let r1 = refill now r in
    let (v1, at_now, same_rate, same_capacity, gain) = refill_lem now r v ht in
    let (kept, short) = take_token_refused r1 e in
    rw kept (
      subst (λ t. (take_token (refill (t + seconds (retry_after_seconds r1)) r1)).0 ≡ true) at_now
        (wait_suffices r1 (rw same_rate hr) (rw same_capacity hc) short))
