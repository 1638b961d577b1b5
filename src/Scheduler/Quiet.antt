-- ===== src/Scheduler/Quiet.antt =====
-- The end check of a node of several while the other nodes go on working.
use netspy.Base.{
  ℕ, ◌<◌, String, ◌≡◌, Bool, true, false, none, List, [], ◌∷◌, All, arith, ◌∙◌, ap, Bool-cases, inl,
  inr,
}
use netspy.Redis.Rows.{contains}
use netspy.Redis.SortedSet.{SortedSets}
use netspy.TaskQueue.Scripts.{Tables}
use netspy.TaskQueue.Keys.{score}
use netspy.TaskQueue.Leases.{score-zpopmin, take-score, renew-score, done-score}
use netspy.TaskQueue.Leased.{Json}
use netspy.TaskQueue.Operations.{
  Operation, puts, takes, pops, leases, loses, finishes, reclaims, renews, Fleet, step, run,
  queue-get_blocking,
}
use netspy.Scheduler.Redis.{Settings, Numbers}

-- an operation that puts nothing into the queue
abbrev pub adds_nothing : Operation → Bool
adds_nothing (puts r) = false
adds_nothing (reclaims now up limit) = false
adds_nothing _ = true

module _ (S : SortedSets) (j : Json) (lease : ℕ) (on : 0 < lease) where
  open S use {Z}

  abbrev Unqueued : Fleet Z → Type 0
  Unqueued f = (m : String) → score S m f.tables.queue ≡ none

  Unqueued-leases :
      (now : ℕ) (x : String) (f : Fleet Z) → Unqueued f → Unqueued (step S j lease (leases now x) f)
  unfolding step
  Unqueued-leases now x f h m = elim (Bool-cases (contains x f.in_hand)) [
    | inr e ↦ rw e (h m)
    | inl e ↦ rw e (ap (score S m) (queue-get_blocking S j lease now x f.tables) ∙ h m)
  ]

  Unqueued-step :
      (o : Operation) (f : Fleet Z)
      → adds_nothing o ≡ true
      → Unqueued f
      → Unqueued (step S j lease o f)
  unfolding step
  Unqueued-step (puts r) f a h m = cc
  Unqueued-step (takes now up count) f a h m =
      ground (arith, take-score S j lease now count f.tables on up m, h m)
  Unqueued-step pops f a h m = ground (arith, score-zpopmin S 1 f.tables.queue m, h m)
  Unqueued-step (leases now x) f a h m = Unqueued-leases now x f h m
  Unqueued-step (loses x) f a h m = h m
  Unqueued-step (finishes up r) f a h m = ground (arith, done-score S j up r f.tables m, h m)
  Unqueued-step (reclaims now up limit) f a h m = cc
  Unqueued-step (renews now up rs) f a h m =
      ground (arith, renew-score S j lease now up rs f.tables m, h m)

  pub Unqueued-run :
      (os : List Operation) (f : Fleet Z)
      → All (λ o. adds_nothing o ≡ true) os
      → ((m : String) → score S m f.tables.queue ≡ none)
      → (m : String) → score S m (run S j lease os f).tables.queue ≡ none
  unfolding run
  Unqueued-run [] f a h = h
  Unqueued-run (o ∷ os) f a h = Unqueued-run os (step S j lease o f) a.1 (Unqueued-step o f a.0 h)

module _ (S : SortedSets) (j : Json) (s : Settings) (p : Numbers) where
  open S use {Z}

  -- what the other nodes make of the tables by their operations
  abbrev pub by_others : List Operation → Tables Z → Tables Z
  by_others os t = (run S j s.lease os (record { tables = t; in_hand = [] })).tables
