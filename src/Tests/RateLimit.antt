-- ===== src/Tests/RateLimit.antt =====
-- The token bucket of a connection: 10 tokens a second, 20 at most.
use distributed_im.Common.{◌+◌, ◌-◌, ◌*◌, ◌≤◌, ◌≡◌, refl, [], ◌∷◌, true, false, arith}
use distributed_im.RateLimit.{
  RateLimiter, unit_token, refill, take_token, try_consume, retry_after_seconds,
}
use distributed_im.RateLimit.Bound.{consume_all, seconds, consume_all_bound, retry_after_suffices}

abbrev default_limiter : RateLimiter
default_limiter = record { rate = 10; capacity = 20; tokens = 20 * unit_token; last_refill = 0 }

abbrev empty_limiter : RateLimiter
empty_limiter = record { rate = 10; capacity = 20; tokens = 0; last_refill = 0 }

consume_all_bound_example :
    (consume_all (5 ∷ 5 ∷ 200000 ∷ []) default_limiter).0 * unit_token
    ≤ default_limiter.tokens + (1000000 - 0) * 10
consume_all_bound_example =
    consume_all_bound (5 ∷ 5 ∷ 200000 ∷ []) 1000000 default_limiter (omega arith) (omega arith)

empty_refused : (try_consume 50000 empty_limiter).0 ≡ false
unfolding try_consume refill take_token
empty_refused = refl

retry_after_suffices_example :
    (try_consume
      (50000 + seconds (retry_after_seconds (try_consume 50000 empty_limiter).1))
      (try_consume 50000 empty_limiter).1).0
    ≡ true
retry_after_suffices_example =
    retry_after_suffices 50000 empty_limiter (omega arith) (omega arith) (omega arith) (omega arith)
      empty_refused
