-- ===== src/TaskQueue/History.antt =====
-- Any history of the shared Redis queue, by any number of nodes, any of which may die at any time: a
-- node that dies issues no more operations. Leases are on. Between two operations of one node others may come.
use netspy.Base.{
  max, ==_iff, Bool-cases, inl, inr, ℕ, ◌+◌, ◌≤◌, ◌<◌, String, ◌≡◌, refl, Bool, true, false, ◌∙◌,
  ap, ◌||◌, Option, none, some, List, [], ◌∷◌, arith, ◌==◌, String_eq, returned, is_some, All,
}
use netspy.Redis.Rows.{members, contains, contains-append}
use netspy.Redis.SortedSet.{SortedSets}
use netspy.Request.{Request}
use netspy.TaskQueue.Scripts.{Tables, take_script}
use netspy.TaskQueue.Keys.{score}
use netspy.TaskQueue.Leases.{
  is_expired, score-zpopmin, contains-zpopmin, take-score, reclaim_expired-live,
  reclaim_expired-known, renew-score, done-score, put-score, settles,
}
use netspy.TaskQueue.Leased.{Json, decode, pop, payload}
use netspy.TaskQueue.Operations.{
  Operation, puts, takes, pops, leases, loses, finishes, reclaims, renews, Fleet, step, run, leased,
  other_leased, queue-get_blocking, contains-remove_one, contains-removed,
}

module _ (S : SortedSets) (j : Json) (lease : ℕ) where
  open S use {Z, zpopmin}

  -- The task is queued, in flight, or in the hand of a node that is about to lease it.
  unfoldable pub is_known : String → Fleet Z → Bool
  is_known m f =
      is_some (score S m f.tables.queue)
      || is_some (score S m f.tables.inflight)
      || contains m f.in_hand

  -- the operations after which Redis may forget the task
  abbrev pub gives_up : String → Operation → Bool
  gives_up m (finishes up r) = settles S j up r.lease_token m
  gives_up m (loses x) = x == m
  gives_up m _ = false

  module _ (m : String) (r : Request) (decodes : decode S j (some m) ≡ returned (some r))
      (on : 0 < lease) where
    is_known-leases :
        (now : ℕ) (x : String) (f : Fleet Z)
        → is_known m f ≡ true
        → is_known m (step S j lease (leases now x) f) ≡ true
    unfolding is_known step
    is_known-leases now x f k = elim (Bool-cases (contains x f.in_hand)) [
      | inr e ↦ rw e k
      | inl e ↦ elim (Bool-cases (x == m)) [
        | inl same ↦ rw e (ground (arith, ==_iff x m, leased S j lease m r decodes on now f.tables))
        | inr n ↦ rw e (
            ground (
              arith,
              k,
              queue-get_blocking S j lease now x f.tables,
              other_leased S j lease now x m f.tables n,
              contains-remove_one x m f.in_hand n,
            ))
      ]
    ]

    is_known-step :
        (o : Operation) (f : Fleet Z)
        → gives_up m o ≡ false
        → is_known m f ≡ true
        → is_known m (step S j lease o f) ≡ true
    unfolding is_known step
    is_known-step (puts q) f h k = ground (arith, put-score S j q f.tables m)
    is_known-step (takes now up count) f h k =
        ground (arith, take-score S j lease now count f.tables on up m)
    is_known-step pops f h k = ground (
      arith,
      score-zpopmin S 1 f.tables.queue m,
      contains-append m f.in_hand (members (zpopmin 1 f.tables.queue).0),
    )
    is_known-step (leases now x) f h k = is_known-leases now x f k
    is_known-step (loses x) f h k = ground (arith, h, contains-remove_one x m f.in_hand)
    is_known-step (finishes up q) f h k = ground (arith, done-score S j up q f.tables m)
    is_known-step (reclaims now up limit) f h k =
        ground (arith, reclaim_expired-known S j lease now limit up f.tables m)
    is_known-step (renews now up rs) f h k =
        ground (arith, renew-score S j lease now up rs f.tables m)

    -- With leases on, let a task that decodes be queued, in flight, or just popped by the blocking pop of a
    -- node. Under any history of the nodes, any of which may die, it stays so, if no node calls `done` on it with
    -- Redis answering and no node dies, or is left without an answer by Redis, between its blocking pop of
    -- the task and the lease.
    pub is_known-run :
        (os : List Operation) (f : Fleet Z)
        → All (λ o. gives_up m o ≡ false) os
        → is_known m f ≡ true
        → is_known m (run S j lease os f) ≡ true
    unfolding run
    is_known-run [] f h k = k
    is_known-run (o ∷ os) f h k = is_known-run os (step S j lease o f) h.1 (is_known-step o f h.0 k)

  -- An operation within the time of a lease until `d`: the clock is before `d`, a renewal reaches at
  -- least to `d`, and nobody puts the same payload again.
  abbrev pub Within : String → ℕ → Operation → Type 0
  Within m d (puts r) = (payload S j r == m) ≡ false
  Within m d (takes now up count) = now < d
  Within m d pops = Unit {0}
  Within m d (leases now x) = Unit {0}
  Within m d (loses x) = Unit {0}
  Within m d (finishes up r) = Unit {0}
  Within m d (reclaims now up limit) = now < d
  Within m d (renews now up rs) = d ≤ now + lease

  -- The task is not queued and in no node's hand, and if it is leased then at least until `d`.
  pub record IsAway (m : String) (d : ℕ) (f : Fleet Z) : Type 0 where
    pub unqueued : score S m f.tables.queue ≡ none
    pub not_popped : contains m f.in_hand ≡ false
    pub until : (deadline : ℕ) → score S m f.tables.inflight ≡ some deadline → d ≤ deadline

  contains-pop :
      (now count : ℕ) (t : Tables Z) (m : String)
      → score S m t.queue ≡ none
      → contains m (pop S j lease now count t).0 ≡ false
  unfolding pop take_script
  contains-pop now count t m h = ground (arith, contains-zpopmin S (max 1 count) t.queue m)

  live :
      {d : ℕ} (now : ℕ) (o : Option ℕ)
      → now < d
      → ((deadline : ℕ) → o ≡ some deadline → d ≤ deadline)
      → is_expired now o ≡ false
  live now none h u = refl
  live now (some deadline) h u = ground (arith, u deadline refl)

  module _ (m : String) (d : ℕ) (on : 0 < lease) where
    IsAway-leases :
        (now : ℕ) (x : String) (f : Fleet Z)
        → IsAway m d f
        → IsAway m d (step S j lease (leases now x) f)
    unfolding step
    IsAway-leases now x f h = elim (Bool-cases (contains x f.in_hand)) [
      | inr e ↦ rw e h
      | inl e ↦
          let n : (x == m) ≡ false = ground (arith, e, h.not_popped, ==_iff x m) in
          rw e (record {
            unqueued = ap (score S m) (queue-get_blocking S j lease now x f.tables) ∙ h.unqueued;
            not_popped = contains-removed x m f.in_hand h.not_popped;
            until =
                λ dl g. ground (arith, other_leased S j lease now x m f.tables n, g, h.until dl);
          })
    ]

    IsAway-step :
        (o : Operation) (f : Fleet Z)
        → Within m d o
        → IsAway m d f
        → IsAway m d (step S j lease o f)
    unfolding step
    IsAway-step (puts q) f w h = record {
      unqueued = ground (arith, put-score S j q f.tables m, h.unqueued);
      not_popped = h.not_popped;
      until = λ dl e. ground (arith, put-score S j q f.tables m, h.until dl);
    }
    IsAway-step (takes now up count) f w h =
        let moved = take-score S j lease now count f.tables on up m in
        let out = contains-pop now count f.tables m h.unqueued in
        record {
          unqueued = ground (arith, moved, out, h.unqueued);
          not_popped = h.not_popped;
          until = λ dl e. ground (arith, moved, out, h.until dl);
        }
    IsAway-step pops f w h =
        let kept = score-zpopmin S 1 f.tables.queue m in
        let out = contains-zpopmin S 1 f.tables.queue m in
        record {
          unqueued = ground (arith, kept, h.unqueued);
          not_popped = ground (
            arith,
            contains-append m f.in_hand (members (zpopmin 1 f.tables.queue).0),
            h.not_popped,
            h.unqueued,
            out,
          );
          until = h.until;
        }
    IsAway-step (leases now x) f w h = IsAway-leases now x f h
    IsAway-step (loses x) f w h = record {
      unqueued = h.unqueued;
      not_popped = contains-removed x m f.in_hand h.not_popped;
      until = h.until;
    }
    IsAway-step (finishes up q) f w h = record {
      unqueued = ground (arith, done-score S j up q f.tables m, h.unqueued);
      not_popped = h.not_popped;
      until = λ dl e. ground (arith, done-score S j up q f.tables m, h.until dl);
    }
    IsAway-step (reclaims now up limit) f w h =
        let same =
          reclaim_expired-live S j lease now limit up f.tables m
            (live now (score S m f.tables.inflight) w h.until) in
        record {
          unqueued = ground (arith, same, h.unqueued);
          not_popped = h.not_popped;
          until = λ dl e. ground (arith, same, h.until dl);
        }
    IsAway-step (renews now up rs) f w h = record {
      unqueued = ground (arith, renew-score S j lease now up rs f.tables m, h.unqueued);
      not_popped = h.not_popped;
      until = λ dl e. ground (arith, renew-score S j lease now up rs f.tables m, h.until dl);
    }

    -- With leases on, a task that is not queued, that no node has just popped, and that is leased until `d`
    -- or later stays so under any history of the nodes before `d` in which nobody puts the same text again
    -- and no renewal ends before `d`: nobody else can take it, and its deadline, if it still has one, is no
    -- earlier than `d`.
    pub IsAway-run :
        (os : List Operation) (f : Fleet Z)
        → All (Within m d) os
        → IsAway m d f
        → IsAway m d (run S j lease os f)
    unfolding run
    IsAway-run [] f w h = h
    IsAway-run (o ∷ os) f w h = IsAway-run os (step S j lease o f) w.1 (IsAway-step o f w.0 h)
