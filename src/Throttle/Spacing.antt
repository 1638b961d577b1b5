-- ===== src/Throttle/Spacing.antt =====
-- How far apart the start times of one domain are with GLOBAL_THROTTLE off. A ticket of the global throttle
-- leaves the local clock alone, so that none of this holds of a domain that has tickets of both kinds.
use netspy.Base.{
  ℕ, ◌+◌, ◌≤◌, ◌<◌, String, ◌≡◌, false, none, List, [], ◌∷◌, arith, if◌then◌else◌, ltb, max, ◌==◌,
  ==_iff, ==_refl, String_eq, All,
}
use netspy.Base.Dict.{lookup_or, lookup_or-insert}
use netspy.Throttle.{
  DomainThrottle, Settings, interval, local_ticket, take_ticket, penalize, set_domain_delay,
}

-- A worker asks for a ticket, or a site is penalised, or a robots.txt is read; each at its own clock
-- reading. Tickets are local: GLOBAL_THROTTLE is off.
pub data Call : Type 0 where
  -- with the random factor that this call draws
  ticket : String → ℕ → (ℕ → ℕ) → Call
  penalty : String → ℕ → ℕ → Call
  crawl_delay : String → ℕ → Call

module _ (s : Settings) where
  unfoldable pub after : Call → DomainThrottle → DomainThrottle
  after (ticket d now uniform) t = (take_ticket s uniform none d now t).1
  after (penalty d seconds now) t = penalize d seconds now t
  after (crawl_delay d seconds) t = set_domain_delay d seconds t

  -- when the worker may go ahead
  unfoldable pub start : String → ℕ → (ℕ → ℕ) → DomainThrottle → ℕ
  start d now uniform t = now + (take_ticket s uniform none d now t).0

  -- the start times that the calls hand out for one domain
  unfoldable pub starts : String → List Call → DomainThrottle → List ℕ
  starts d [] t = []
  starts d (ticket e now uniform ∷ cs) t =
      let rest = starts d cs (after (ticket e now uniform) t) in
      if e == d then start e now uniform t ∷ rest else rest
  starts d (penalty e seconds now ∷ cs) t = starts d cs (after (penalty e seconds now) t)
  starts d (crawl_delay e seconds ∷ cs) t = starts d cs (after (crawl_delay e seconds) t)

  unfoldable pub ready_at : String → DomainThrottle → ℕ
  ready_at d t = lookup_or 0 d t.next_at

  ready_at-local :
      (d e : String) (delay now : ℕ) (t : DomainThrottle)
      → ready_at d t ≤ ready_at d (local_ticket e delay now t).1
  unfolding local_ticket ready_at
  ready_at-local d e delay now t = ground (
    arith,
    lookup_or-insert 0 e d (max now (lookup_or 0 e t.next_at) + delay) t.next_at,
    ==_iff e d,
  )

  ready_at-penalize :
      (d e : String) (seconds now : ℕ) (t : DomainThrottle)
      → ready_at d t ≤ ready_at d (penalize e seconds now t)
  unfolding penalize ready_at
  ready_at-penalize d e seconds now t = ground (
    arith,
    lookup_or-insert 0 e d (max now (lookup_or 0 e t.next_at) + seconds) t.next_at,
    ==_iff e d,
  )

  -- No call brings a domain's clock back.
  ready_at-after :
      (d : String) (c : Call) (t : DomainThrottle) → ready_at d t ≤ ready_at d (after c t)
  unfolding after take_ticket
  ready_at-after d (ticket e now uniform) t = ready_at-local d e (interval s uniform e t) now t
  ready_at-after d (penalty e seconds now) t = ready_at-penalize d e seconds now t
  ready_at-after d (crawl_delay e seconds) t = unfold ready_at set_domain_delay in omega arith

  start-ge :
      (d : String) (now : ℕ) (uniform : ℕ → ℕ) (t : DomainThrottle)
      → ready_at d t ≤ start d now uniform t
  unfolding start take_ticket local_ticket ready_at
  start-ge d now uniform t = omega arith

  starts-ge :
      (d : String) (bound : ℕ) (cs : List Call) (t : DomainThrottle)
      → bound ≤ ready_at d t
      → All (λ x. bound ≤ x) (starts d cs t)
  unfolding starts
  starts-ge d bound [] t h = tt
  starts-ge d bound (ticket e now uniform ∷ cs) t h = ground (
    arith,
    ==_iff e d,
    start-ge e now uniform t,
    starts-ge d bound cs (after (ticket e now uniform) t)
        (omega (arith, ready_at-after d (ticket e now uniform) t)),
  )
  starts-ge d bound (penalty e seconds now ∷ cs) t h =
      starts-ge d bound cs _ (omega (arith, ready_at-after d (penalty e seconds now) t))
  starts-ge d bound (crawl_delay e seconds ∷ cs) t h =
      starts-ge d bound cs _ (omega (arith, ready_at-after d (crawl_delay e seconds) t))

  ready_at-ticket :
      (d : String) (now : ℕ) (uniform : ℕ → ℕ) (t : DomainThrottle)
      → start d now uniform t + interval s uniform d t
        ≤ ready_at d (after (ticket d now uniform) t)
          + (if ltb 0 (interval s uniform d t) then 0 else start d now uniform t)
  unfolding start after take_ticket local_ticket ready_at
  ready_at-ticket d now uniform t = ground (
    arith,
    lookup_or-insert 0 d d (max now (lookup_or 0 d t.next_at) + interval s uniform d t) t.next_at,
    ==_refl d,
  )

  -- Where GLOBAL_THROTTLE is off: if a worker gets a ticket under a positive interval, every later start of the
  -- domain lies at least that interval after its own, whatever local tickets, penalties and crawl delays come in between, at
  -- whatever clock readings.
  pub starts-ticket :
      (d : String) (now : ℕ) (uniform : ℕ → ℕ) (cs : List Call) (t : DomainThrottle)
      → 0 < interval s uniform d t
      → All
          (λ x. start d now uniform t + interval s uniform d t ≤ x)
          (starts d cs (after (ticket d now uniform) t))
  starts-ticket d now uniform cs t h =
      starts-ge d _ cs _ (ground (arith, ready_at-ticket d now uniform t))

  -- Where GLOBAL_THROTTLE is off: after a penalty of positive length no worker starts on the domain before its end, also where no delay
  -- is configured.
  pub starts-penalty :
      (d : String) (seconds now : ℕ) (cs : List Call) (t : DomainThrottle)
      → 0 < seconds
      → All (λ x. now + seconds ≤ x) (starts d cs (after (penalty d seconds now) t))
  unfolding after
  starts-penalty d seconds now cs t h = starts-ge d (now + seconds) cs _ (
      unfold penalize ready_at in
      ground (
        arith,
        lookup_or-insert 0 d d (max now (lookup_or 0 d t.next_at) + seconds) t.next_at,
        ==_refl d,
      ))

  -- Where GLOBAL_THROTTLE is off: a worker whose domain is free starts at once, and other domains' clocks stay as they are.
  pub ticket-free :
      (d e : String) (now : ℕ) (uniform : ℕ → ℕ) (t : DomainThrottle)
      → ready_at d t ≤ now
      → (start d now uniform t ≡ now)
        × ((d == e) ≡ false → ready_at e (after (ticket d now uniform) t) ≡ ready_at e t)
  unfolding start after take_ticket local_ticket ready_at
  ticket-free d e now uniform t h = (
    omega arith,
    λ n. ground (
      arith,
      lookup_or-insert 0 d e (max now (lookup_or 0 d t.next_at) + interval s uniform d t) t.next_at,
    ),
  )
