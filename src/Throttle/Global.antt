-- ===== src/Throttle/Global.antt =====
-- network/global_throttle.py: the same clock in Redis, shared by all nodes. `now` is the server's clock
-- in whole milliseconds, and so is the delay, so that the script's `math.floor` changes nothing.
use netspy.Base.{
  ◌⊎◌, inl, inr, Bool-cases, leb→le, ℕ, ◌+◌, ◌-◌, ◌≤◌, ◌<◌, ◌≡◌, Bool, Option, none, some, List, [],
  ◌∷◌, arith, if◌then◌else◌, ltb, leb, All,
}

-- One key of Redis with a time to live: SET key value PX ttl, and GET at a later time.
pub record Cells : Type 1 where
  pub Cell : Type 0
  pub unset : Cell
  pub set_px : ℕ → ℕ → ℕ → Cell
  pub get : ℕ → Cell → Option ℕ
  pub get-unset : (now : ℕ) → get now unset ≡ none
  pub get-set_px :
      (at ttl value now : ℕ) → now < at + ttl → get now (set_px at ttl value) ≡ some value

module _ (C : Cells) where
  open C use {Cell, set_px, get, get-set_px}

  -- tonumber(redis.call('GET', key) or '0')
  abbrev pub or_zero : Option ℕ → ℕ
  or_zero none = 0
  or_zero (some n) = n

  -- _TICKET_LUA
  unfoldable pub ticket_script : ℕ → ℕ → Cell → ℕ × Cell
  ticket_script delay now cell =
      let next_at = or_zero (get now cell) in
      let ready = if ltb now next_at then next_at else now in
      let target = ready + delay in (ready - now, set_px now (target - now + 60000) target)

  -- `GlobalThrottle.take_ticket`: `none` if Redis does not answer, and the caller falls back
  unfoldable pub take_ticket : Bool → ℕ → ℕ → Cell → Option ℕ × Cell
  take_ticket up delay now cell =
      if up
      then (some (ticket_script delay now cell).0, (ticket_script delay now cell).1)
      else (none, cell)

  -- when the caller may go ahead
  unfoldable pub start : ℕ → ℕ → Cell → ℕ
  start delay now cell = now + (ticket_script delay now cell).0

  -- The key still holds off every start until `bound`, for as long as that lies ahead.
  pub HoldsOff : ℕ → Cell → Type 0
  HoldsOff bound cell = (now : ℕ) → (bound ≤ now) ⊎ (bound ≤ or_zero (get now cell))

  -- the start time that the script reserves, and the end of the interval after it
  unfoldable pub ready : ℕ → Cell → ℕ
  ready now cell = let next_at = or_zero (get now cell) in if ltb now next_at then next_at else now

  -- What the script leaves is read as the end of the interval for as long as that lies ahead.
  reserved :
      (delay now later : ℕ) (cell : Cell)
      → (ready now cell + delay ≤ later)
        ⊎ (get later (ticket_script delay now cell).1 ≡ some (ready now cell + delay))
  unfolding ticket_script ready
  reserved delay now later cell =
      let target : ℕ = ready now cell + delay in
      elim (Bool-cases (leb target later)) [
        | inl past ↦ inl (leb→le target later past)
        | inr ahead ↦ inr (get-set_px now (target - now + 60000) target later (ground arith))
      ]

  start-ready : (delay now : ℕ) (cell : Cell) → start delay now cell ≡ ready now cell
  unfolding start ticket_script ready
  start-ready delay now cell = ground arith

  ready-ge : (bound now : ℕ) (cell : Cell) → HoldsOff bound cell → bound ≤ ready now cell
  unfolding HoldsOff ready
  ready-ge bound now cell h = ground (arith, h now)

  -- the calls of all nodes, in the order in which the server runs them: delay and server clock
  pub starts : List (ℕ × ℕ) → Cell → List ℕ
  starts [] cell = []
  starts ((delay, now) ∷ cs) cell =
      start delay now cell ∷ starts cs (ticket_script delay now cell).1

  HoldsOff-ticket :
      (bound delay now : ℕ) (cell : Cell)
      → bound ≤ ready now cell + delay
      → HoldsOff bound (ticket_script delay now cell).1
  unfolding HoldsOff
  HoldsOff-ticket bound delay now cell h later = ground (arith, reserved delay now later cell)

  starts-ge :
      (bound : ℕ) (cs : List (ℕ × ℕ)) (cell : Cell)
      → HoldsOff bound cell
      → All (λ x. bound ≤ x) (starts cs cell)
  unfolding starts
  starts-ge bound [] cell h = tt
  starts-ge bound ((delay, now) ∷ cs) cell h = (
    omega (arith, start-ready delay now cell, ready-ge bound now cell h),
    starts-ge bound cs _
        (HoldsOff-ticket bound delay now cell (omega (arith, ready-ge bound now cell h))),
  )

  -- Across all nodes, every start that the server hands out later lies at least the delay after this
  -- one: the key never expires before the start that it reserves.
  pub starts-shared_ticket :
      (delay now : ℕ) (cell : Cell) (cs : List (ℕ × ℕ))
      → All (λ x. start delay now cell + delay ≤ x) (starts cs (ticket_script delay now cell).1)
  starts-shared_ticket delay now cell cs =
      starts-ge _ cs _
        (HoldsOff-ticket _ delay now cell (omega (arith, start-ready delay now cell)))
