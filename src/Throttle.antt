-- ===== src/Throttle.antt =====
-- network/throttle.py: one clock per domain hands out start times. Times are milliseconds on the
-- node's monotonic clock, `now` at each locked section; sleeping and the semaphores are left out.
pub mod Spacing
pub mod Global
use netspy.Base.{
  ◌&&◌, ℕ, ◌+◌, ◌-◌, String, Bool, true, false, ◌||◌, Option, none, some, List, [], if◌then◌else◌,
  ltb, max, String_eq, nat_eq,
}
use netspy.Base.Dict.{Dict, lookup_or, insert}

pub record DomainThrottle : Type 0 where
  pub next_at : Dict String ℕ
  -- the floor that robots.txt sets
  pub domain_delay : Dict String ℕ

abbrev pub empty_throttle : DomainThrottle
empty_throttle = record { next_at = []; domain_delay = [] }

pub record Settings : Type 0 where
  pub download_delay : ℕ
  pub randomize : Bool

-- The interval before the next start: the larger of the global and the domain's own, and `uniform`
-- (a factor between 0.5 and 1.5) applied to it if that is asked for.
unfoldable pub interval : Settings → (ℕ → ℕ) → String → DomainThrottle → ℕ
interval s uniform domain t =
    let delay = max s.download_delay (lookup_or 0 domain t.domain_delay) in
    if ltb 0 delay && s.randomize then uniform delay else delay

-- the second locked section of `_take_ticket`: the wait, and the clock pushed on
unfoldable pub local_ticket : String → ℕ → ℕ → DomainThrottle → ℕ × DomainThrottle
local_ticket domain delay now t =
    let ready = max now (lookup_or 0 domain t.next_at) in
    (
      ready - now,
      (if ltb 0 delay || ltb now ready
          then record t { next_at = insert domain (ready + delay) t.next_at }
          else t),
    )

-- `_take_ticket`. `shared` is the answer of the global throttle, absent where GLOBAL_THROTTLE is off
-- and `some none` where Redis does not answer.
unfoldable pub take_ticket :
    Settings → (ℕ → ℕ) → Option (Option ℕ) → String → ℕ → DomainThrottle → ℕ × DomainThrottle
take_ticket s uniform (some (some wait)) domain now t = (wait, t)
take_ticket s uniform (some none) domain now t =
    local_ticket domain (interval s uniform domain t) now t
take_ticket s uniform none domain now t = local_ticket domain (interval s uniform domain t) now t

-- the local part of `penalize`, which runs with or without the global one
unfoldable pub penalize : String → ℕ → ℕ → DomainThrottle → DomainThrottle
penalize domain seconds now t = if nat_eq seconds 0 then t else record t {
  next_at = insert domain (max now (lookup_or 0 domain t.next_at) + seconds) t.next_at;
}

unfoldable pub set_domain_delay : String → ℕ → DomainThrottle → DomainThrottle
set_domain_delay domain seconds t = record t { domain_delay = insert domain seconds t.domain_delay }
