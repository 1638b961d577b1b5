-- ===== src/Scheduler/Wait/Ends.antt =====
-- How the loop that ends a run ends.
use netspy.Base.{
  ℕ, zero, suc, ◌+◌, ◌≤◌, ◌<◌, ◌≡◌, Bool, true, false, Option, none, some, arith, ◌⊎◌,
  if◌then◌else◌, leb, is_some,
}
use netspy.Scheduler.Wait.{
  World, Ending, stopped, timed_out, finished, has_passed, deadline_of, rounds, Held,
  wait_until_done,
}

module _ {S : Type 0} (W : World S) (times : ℕ) (deadline : Option ℕ) where
  -- The streak at the start of a round is earned.
  abbrev Earned : ℕ → S → Type 0
  Earned k s = (k ≡ 0) ⊎ ((c : S) × (s ≡ W.pause c) × Held W times deadline k c)

  abbrev pub Good : Option (Ending × S) → Type 0
  Good none = Unit {0}
  Good (some (stopped, b)) = W.is_stopped b ≡ true
  Good (some (timed_out, b)) = has_passed deadline (W.clock b) ≡ true
  Good (some (finished, b)) = (m : ℕ) × (times ≤ m) × Held W times deadline m b

deadline_positive : (limit now : ℕ) → 0 < limit → deadline_of limit now ≡ some (now + limit)
deadline_positive limit now h = ground (arith, h)

module _ {S : Type 0} (W : World S) (times : ℕ) where
  abbrev pub Advances : Type 0
  Advances = (s : S) → W.clock s < W.clock (W.pause (W.check s).1)

  ended_if :
      (stop pass done enough : Bool) (s b : S) (later : Option (Ending × S))
      → (pass ≡ false → is_some later ≡ true)
      → is_some (
          if stop
          then some (stopped, s)
          else if pass
          then some (timed_out, s)
          else if done
          then (if enough then some (finished, b) else later)
          else later)
        ≡ true
  ended_if stop pass done enough s b later h = ground (arith, h)

  rounds_end :
      (d n k : ℕ) (s : S)
      → Advances
      → d < n + W.clock s
      → is_some (rounds W times (some d) (suc n) k s) ≡ true
  unfolding rounds
  rounds_end d zero k s a h =
      let next = if (W.check s).0 then suc k else 0 in
      ended_if (W.is_stopped s) (leb d (W.clock s)) (W.check s).0 (leb times next) s (W.check s).1
        none (ground (arith, h))
  rounds_end d (suc n) k s a h =
      let next = if (W.check s).0 then suc k else 0 in
      let later = W.pause (W.check s).1 in
      ended_if (W.is_stopped s) (leb d (W.clock s)) (W.check s).0 (leb times next) s (W.check s).1
        (rounds W times (some d) (suc n) next later)
        (λ p. rounds_end d n next later a (omega (arith, a s)))

  -- With a positive SPIDER_MAX_RUNTIME and a clock that goes on from round to round, the loop ends: that
  -- many rounds and one more are enough, whatever `_is_done` answers.
  pub wait_until_done_ends :
      (limit : ℕ) (s : S)
      → 0 < limit
      → Advances
      → is_some (wait_until_done W limit times (suc (suc limit)) s) ≡ true
  unfolding wait_until_done
  wait_until_done_ends limit s h a =
      rw (deadline_positive limit (W.clock s) h)
        (rounds_end (W.clock s + limit) (suc limit) 0 s a (omega arith))
