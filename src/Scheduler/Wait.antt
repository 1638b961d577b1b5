-- ===== src/Scheduler/Wait.antt =====
-- `_wait_until_done` of core/base_scheduler.py: the loop that ends a run. Its rounds are on fuel; the
-- clock is in milliseconds.
pub mod Ends
use netspy.Base.{
  ℕ, zero, suc, ◌+◌, ◌-◌, ◌≤◌, ◌<◌, ◌≡◌, refl, max, Bool, true, false, Option, none, some, arith,
  if◌then◌else◌, ltb, leb, is_some, Bool-cases, inl, inr, ◌∙◌, ap, sym,
}

-- What the loop asks and does; `S` is the state of the node and of everything around it.
pub record World (S : Type 0) : Type 0 where
  -- the stop event, set by a signal or by `stop`
  pub is_stopped : S → Bool
  pub clock : S → ℕ
  -- `_is_done`, which may change the state
  pub check : S → Bool × S
  -- the alerts, and the wait of DONE_CHECK_INTERVAL in which the others run
  pub pause : S → S

pub data Ending : Type 0 where
  stopped : Ending
  timed_out : Ending
  finished : Ending

abbrev pub has_passed : Option ℕ → ℕ → Bool
has_passed none now = false
has_passed (some deadline) now = leb deadline now

-- `time.monotonic() + limit if limit > 0 else None`
abbrev pub deadline_of : ℕ → ℕ → Option ℕ
deadline_of limit now = if ltb 0 limit then some (now + limit) else none

module _ {S : Type 0} (W : World S) (times : ℕ) (deadline : Option ℕ) where
  -- the rounds, `n` of them at most; none where they do not suffice. `times` is DONE_CHECK_TIMES
  unfoldable pub rounds : ℕ → ℕ → S → Option (Ending × S)
  rounds zero streak s = none
  rounds (suc n) streak s =
      let (done, s') = W.check s in
      let next = if done then suc streak else 0 in
      let later = rounds n next (W.pause s') in
      if W.is_stopped s
      then some (stopped, s)
      else if has_passed deadline (W.clock s)
      then some (timed_out, s)
      else if done
      then (if leb times next then some (finished, s') else later)
      else later

  -- The specification: `_is_done` has held in each of the last `n` rounds, up to `b`.
  pub data Held : ℕ → S → Type 0 where
    once : (s : S) → (W.check s).0 ≡ true → Held 1 (W.check s).1
    again :
        (n : ℕ) (b : S)
        → Held n b
        → (W.check (W.pause b)).0 ≡ true
        → Held (suc n) (W.check (W.pause b)).1

-- `_wait_until_done` with SPIDER_MAX_RUNTIME and DONE_CHECK_TIMES
unfoldable pub wait_until_done : {S : Type 0} → World S → ℕ → ℕ → ℕ → S → Option (Ending × S)
wait_until_done W limit times fuel s = rounds W times (deadline_of limit (W.clock s)) fuel 0 s
