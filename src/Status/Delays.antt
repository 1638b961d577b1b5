-- ===== src/Status/Delays.antt =====
-- How long a request waits before it is tried again.
use netspy.Base.{ℕ, ◌*◌, ◌^◌, ◌-◌, ◌≤◌, ◌<◌, ◌≡◌, Option, none, arith, min}
use netspy.Exceptions.{Response}
use netspy.Request.{Request}
use netspy.Status.{Policy, Parsers, backoff_delay, retry_delay, retry_after_too_long}

module _ (parse : Parsers) (p : Policy) (uniform : ℕ → ℕ) where
  backoff-bounded :
      (n : ℕ)
      → ((x : ℕ) → uniform x ≤ x)
      → 0 < p.retry_after_max
      → 0 < p.retry_backoff
      → backoff_delay parse p uniform n ≤ p.retry_after_max
  unfolding backoff_delay
  backoff-bounded n u h k =
      ground (arith, u (min (p.retry_backoff * 2 ^ (n - 1)) p.retry_after_max))

  -- With a cap on the wait and exponential backoff on, and a random factor of at most 1: a request that
  -- the caller does not give up because its Retry-After is too long waits at most the cap, whatever
  -- the response says, whatever its retry count.
  pub retry_delay-bounded :
      (request : Request) (response : Option Response) (now : ℕ)
      → ((x : ℕ) → uniform x ≤ x)
      → 0 < p.retry_after_max
      → 0 < p.retry_backoff
      → retry_after_too_long parse p response now ≡ none
      → retry_delay parse p uniform request response now ≤ p.retry_after_max
  unfolding retry_after_too_long retry_delay
  retry_delay-bounded request response now u h k e =
      ground (arith, backoff-bounded request.retry_times u h k, e)
