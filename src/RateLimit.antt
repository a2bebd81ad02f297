-- ===== src/RateLimit.antt =====
-- gateway/include/RateLimiter.h and gateway/src/RateLimiter.cpp: the token bucket of a connection.
-- Tokens are counted in millionths and the rate is a whole number of tokens a second, so that
-- `elapsed * rate` with the elapsed time in microseconds is exact; the rounding of `double` is left
-- out. The steady clock, in microseconds, is an argument and does not run backwards.
pub mod Bound
use distributed_im.Common.{
  ℕ, ◌+◌, ◌-◌, ◌*◌, ◌/◌, ◌≤◌, min, Bool, true, false, leb, ltb, if◌then◌else◌,
}

pub record RateLimiter : Type 0 where
  pub rate : ℕ
  pub capacity : ℕ
  pub tokens : ℕ
  pub last_refill : ℕ

-- One token.
abbrev pub unit_token : ℕ
unit_token = 1_000_000

unfoldable pub new_limiter : ℕ → ℕ → ℕ → RateLimiter
new_limiter rate capacity now = record {
  rate = rate;
  capacity = capacity;
  tokens = capacity * unit_token;
  last_refill = now;
}

unfoldable pub refill : ℕ → RateLimiter → RateLimiter
refill now r =
    let elapsed = now - r.last_refill in
    if leb now r.last_refill then r else record r {
      tokens = min (r.capacity * unit_token) (r.tokens + elapsed * r.rate);
      last_refill = now;
    }

-- The second half of `tryConsume`, behind the refill.
unfoldable pub take_token : RateLimiter → Bool × RateLimiter
take_token r =
    if leb unit_token r.tokens
    then (true, record r { tokens = r.tokens - unit_token })
    else (false, r)

unfoldable pub try_consume : ℕ → RateLimiter → Bool × RateLimiter
try_consume now r = take_token (refill now r)

-- Whole seconds, rounded up; the code divides by the rate, which must not be 0.
unfoldable pub retry_after_seconds : RateLimiter → ℕ
retry_after_seconds r =
    if leb unit_token r.tokens
    then 0
    else (unit_token - r.tokens + (r.rate * unit_token - 1)) / (r.rate * unit_token)

unfoldable pub set_rate : ℕ → RateLimiter → RateLimiter
set_rate rate r = record r { rate = rate }

unfoldable pub reset : ℕ → RateLimiter → RateLimiter
reset now r = record r { tokens = r.capacity * unit_token; last_refill = now }
