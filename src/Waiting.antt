-- ===== src/Waiting.antt =====
-- The bounded wait that network/user_pool/middleware.py (`_wait_for_user`) and
-- network/downloader/_common.py (`pick_proxy`) are written as: try, and try again until a deadline that
-- starts with the first failure. Times are milliseconds; the rounds are on fuel.
use netspy.Base.{
  ℕ, zero, suc, ◌+◌, ◌<◌, ◌≡◌, refl, true, false, Option, none, some, arith, if◌then◌else◌, leb,
  is_some, Bool-cases, inl, inr,
}

-- What a wait asks and does; `P` is the state of the pool and of everything around it.
pub record Trial (P A : Type 0) : Type 0 where
  -- an answer that ends the wait, if there is one
  pub try : P → Option A × P
  pub clock : P → ℕ
  -- the sleep, in which the others run
  pub sleep : P → P
  pub timeout : ℕ

-- `if deadline is None: deadline = time.monotonic() + timeout`
abbrev pub deadline_from : ℕ → Option ℕ → ℕ
deadline_from fresh none = fresh
deadline_from fresh (some d) = d

module _ {P A : Type 0} (t : Trial P A) where
  -- the end of a round: the answer, the timeout (`some none`), or the `later` rounds
  abbrev pub ended : Option A × P → ℕ → Option (Option A × P) → Option (Option A × P)
  ended (some a, p) limit later = some (some a, p)
  ended (none, p) limit later = if leb limit (t.clock p) then some (none, p) else later

  -- The rounds; none where the fuel does not suffice.
  unfoldable pub rounds : ℕ → Option ℕ → P → Option (Option A × P)
  rounds zero deadline p = none
  rounds (suc n) deadline p =
      let limit = deadline_from (t.clock (t.try p).1 + t.timeout) deadline in
      ended (t.try p) limit (rounds n (some limit) (t.sleep (t.try p).1))

  -- Time goes on in each round.
  abbrev pub Advances : Type 0
  Advances = (p : P) → t.clock (t.try p).1 < t.clock (t.try (t.sleep (t.try p).1)).1

  ended_some :
      (r : Option A × P) (limit : ℕ) (later : Option (Option A × P))
      → (leb limit (t.clock r.1) ≡ false → is_some later ≡ true)
      → is_some (ended r limit later) ≡ true
  ended_some (some a, p) limit later h = refl
  ended_some (none, p) limit later h = elim (Bool-cases (leb limit (t.clock p))) [
    | inl e ↦ rw e refl
    | inr e ↦ rw e (h e)
  ]

  rounds_end :
      (d n : ℕ) (p : P)
      → Advances
      → d < n + t.clock (t.try p).1
      → is_some (rounds (suc n) (some d) p) ≡ true
  unfolding rounds
  rounds_end d zero p a h = ended_some (t.try p) d none (ground (arith, h))
  rounds_end d (suc n) p a h =
      ended_some (t.try p) d (rounds (suc n) (some d) (t.sleep (t.try p).1))
        (λ e. rounds_end d n (t.sleep (t.try p).1) a (omega (arith, a p)))

  -- With a clock that goes on from round to round, as many rounds as the timeout has milliseconds, and
  -- two more, are enough.
  pub rounds_enough : (p : P) → Advances → is_some (rounds (suc (suc t.timeout)) none p) ≡ true
  unfolding rounds
  rounds_enough p a =
      let limit = t.clock (t.try p).1 + t.timeout in
      ended_some (t.try p) limit (rounds (suc t.timeout) (some limit) (t.sleep (t.try p).1))
        (λ e. rounds_end limit t.timeout (t.sleep (t.try p).1) a (omega (arith, a p)))
