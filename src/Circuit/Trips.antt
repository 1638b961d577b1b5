-- ===== src/Circuit/Trips.antt =====
-- When the breaker trips, and what a trip does to the domain.
use netspy.Base.{
  ℕ, ◌+◌, ◌%◌, ◌≤◌, ◌<◌, String, ◌≡◌, true, List, [], ◌∷◌, arith, if◌then◌else◌, leb, nat_eq, ◌==◌,
  ==_refl, ==_iff, String_eq, All, sym, subst,
}
use native.Mathlib.Nat.{suc-mod, mod-lt, mod_self, mod-eq_of_lt}
use netspy.Base.Dict.{lookup_or, lookup_or-insert, lookup_or-remove}
use netspy.Throttle.{DomainThrottle, Settings, penalize}
use netspy.Throttle.Spacing.{Call, starts, after, starts-penalty}
use netspy.Circuit.{CircuitBreaker, record_success, record_failure, failure_count}

-- failures and successes of any domains, each failure at its clock reading
pub data Event : Type 0 where
  fails : String → ℕ → Event
  succeeds : String → Event

-- The specification: the length of the current run of failures, from a start of `n`.
unfoldable pub streak : String → ℕ → List Event → ℕ
streak domain n [] = n
streak domain n (fails d now ∷ es) = streak domain (if d == domain then n + 1 else n) es
streak domain n (succeeds d ∷ es) = streak domain (if d == domain then 0 else n) es

module _ (threshold cooldown : ℕ) where
  -- One failure: the count of its domain goes up by one and wraps to 0 at the threshold, exactly when
  -- the breaker trips; a failure of a domain changes no other domain's count.
  pub record_failure-count :
      (now : ℕ) (domain other : String) (b : CircuitBreaker) (t : DomainThrottle)
      → 0 < threshold
      → let after = record_failure threshold cooldown now domain b t in
        let next = failure_count domain b + 1 in
        (after.0 ≡ leb threshold next)
        × (failure_count other after.1 ≡ (
            if domain == other
            then (if leb threshold next then 0 else next)
            else failure_count other b))
  unfolding record_failure failure_count
  record_failure-count now domain other b t h = ground (
    arith,
    lookup_or-insert 0 domain other (lookup_or 0 domain b.failures + 1) b.failures,
    lookup_or-remove 0 domain other b.failures,
  )

  pub record_success-count :
      (domain other : String) (b : CircuitBreaker)
      → failure_count other (record_success domain b)
        ≡ (if domain == other then 0 else failure_count other b)
  unfolding record_success failure_count
  record_success-count domain other b = lookup_or-remove 0 domain other b.failures

  unfoldable pub step : Event → CircuitBreaker × DomainThrottle → CircuitBreaker × DomainThrottle
  step (fails d now) (b, t) = (
    (record_failure threshold cooldown now d b t).1,
    (record_failure threshold cooldown now d b t).2,
  )
  step (succeeds d) (b, t) = (record_success d b, t)

  unfoldable pub run :
      List Event → CircuitBreaker × DomainThrottle → CircuitBreaker × DomainThrottle
  run [] s = s
  run (e ∷ es) s = run es (step e s)

  small-mod : (k : ℕ) → k < threshold → k % threshold ≡ k
  small-mod k h = mod-eq_of_lt h

  mod_suc :
      (n : ℕ)
      → 0 < threshold
      → (n + 1) % threshold ≡ (if leb threshold (n % threshold + 1) then 0 else n % threshold + 1)
  mod_suc n h =
      ground
        (arith, suc-mod n threshold, mod-lt n h, mod_self threshold, small-mod (n % threshold + 1))

  step-count :
      (now n : ℕ) (d domain : String) (b : CircuitBreaker) (t : DomainThrottle)
      → 0 < threshold
      → failure_count domain b ≡ n % threshold
      → failure_count domain (step (fails d now) (b, t)).0
        ≡ (if d == domain then n + 1 else n) % threshold
  unfolding step failure_count
  step-count now n d domain b t h e =
      ground (
        arith,
        record_failure-count now d domain b t h,
        mod_suc n h,
        ==_iff d domain,
        ==_refl domain,
      )

  count-run :
      (domain : String) (n : ℕ) (es : List Event) (b : CircuitBreaker) (t : DomainThrottle)
      → 0 < threshold
      → failure_count domain b ≡ n % threshold
      → failure_count domain (run es (b, t)).0 ≡ streak domain n es % threshold
  unfolding run streak step
  count-run domain n [] b t h e = e
  count-run domain n (fails d now ∷ es) b t h e =
      let s = step (fails d now) (b, t) in
      count-run domain (if d == domain then n + 1 else n) es s.0 s.1 h
        (step-count now n d domain b t h e)
  count-run domain n (succeeds d ∷ es) b t h e =
      count-run domain (if d == domain then 0 else n) es (record_success d b) t h
        (ground (arith, record_success-count d domain b))

  empty-count :
      (domain : String)
      → 0 < threshold
      → failure_count domain (record { failures = [] }) ≡ 0 % threshold
  unfolding failure_count lookup_or
  empty-count domain h = sym (small-mod 0 h)

  -- With a positive threshold, from the empty breaker, after any sequence of failures and successes of any domains: the next failure
  -- of a domain trips the breaker exactly when the failures of that domain since its last success, this
  -- one included, number a multiple of the threshold.
  pub run-trips :
      (domain : String) (now : ℕ) (es : List Event) (t : DomainThrottle)
      → 0 < threshold
      → let s = run es (record { failures = [] }, t) in
        (record_failure threshold cooldown now domain s.0 s.1).0
        ≡ nat_eq ((streak domain 0 es + 1) % threshold) 0
  run-trips domain now es t h =
      let s = run es (record { failures = [] }, t) in
      ground (
        arith,
        record_failure-count now domain domain s.0 s.1 h,
        count-run domain 0 es (record { failures = [] }) t h (empty-count domain h),
        mod_suc (streak domain 0 es) h,
        mod-lt (streak domain 0 es) h,
      )

  trip-throttle :
      (now : ℕ) (domain : String) (b : CircuitBreaker) (t : DomainThrottle)
      → (record_failure threshold cooldown now domain b t).0 ≡ true
      → (record_failure threshold cooldown now domain b t).2 ≡ penalize domain cooldown now t
  unfolding record_failure
  trip-throttle now domain b t e = ground (arith, e)

  -- After a failure that trips the breaker, with a positive cooldown, every start on the domain lies at
  -- least the cooldown after the failure, whatever tickets, penalties and crawl delays follow.
  pub trip-starts :
      (s : Settings) (now : ℕ) (domain : String) (b : CircuitBreaker) (t : DomainThrottle)
      (cs : List Call)
      → 0 < cooldown
      → (record_failure threshold cooldown now domain b t).0 ≡ true
      → All
          (λ x. now + cooldown ≤ x)
          (starts s domain cs (record_failure threshold cooldown now domain b t).2)
  unfolding after
  trip-starts s now domain b t cs h e =
      subst (λ u. All (λ x. now + cooldown ≤ x) (starts s domain cs u))
        (sym (trip-throttle now domain b t e)) (starts-penalty s domain cooldown now cs t h)
