-- ===== src/TaskQueue/Leases.antt =====
-- What each operation of the Redis queue does to the lease of any task.
use netspy.Base.{
  Option-cases, ◌&&◌, ℕ, ◌+◌, ◌≤◌, ◌<◌, String, ◌≡◌, refl, Bool, true, false, ◌||◌, Option, none,
  some, List, [], ◌∷◌, arith, if◌then◌else◌, leb, ltb, ◌==◌, String_eq, drop, max, inl, inr,
  is_some,
}
use netspy.Base.Dict.{has-lookup}
use netspy.Redis.Rows.{
  members, contains, up_to, has_split, taken_not_left, lookup-drop, contains-up_to, contains-take,
  take_all, length-up_to-le,
}
use netspy.Redis.SortedSet.{SortedSets}
use netspy.Request.{Request}
use netspy.TaskQueue.Scripts.{Tables, take_script, reclaim_script}
use netspy.TaskQueue.Keys.{
  score, score-zadd, score-zrem, score-lease_all, inflight-put_back, queue-put_back,
  score-renew_script,
}
use netspy.TaskQueue.Leased.{
  Json, put, decode, done, done_token, done_member, decode_all, pop, take as take_tasks,
  reclaim_expired, renew, tokens, payload,
}

abbrev pub is_expired : ℕ → Option ℕ → Bool
is_expired now none = false
is_expired now (some deadline) = leb deadline now

module _ (S : SortedSets) where
  open S use {
    Z, rows, zpopmin, zpopmin_popped, zpopmin_left, Distinct-rows, zrange_lem, zcard, zcard_lem,
  }

  -- A popped member has left the queue, and every other keeps its score.
  pub score-zpopmin :
      (n : ℕ) (z : Z) (m : String)
      → score S m (zpopmin n z).1
        ≡ (if contains m (members (zpopmin n z).0) then none else score S m z)
  unfolding score
  score-zpopmin n z m =
      rw (zpopmin_popped n z, zpopmin_left n z)
        (ground (
          arith,
          lookup-drop m n (rows z),
          taken_not_left m n (rows z) (Distinct-rows z),
          has-lookup m (drop n (rows z)),
        ))

  pub contains-zpopmin :
      (n : ℕ) (z : Z) (m : String)
      → contains m (members (zpopmin n z).0) ≡ true
      → is_some (score S m z) ≡ true
  unfolding score
  contains-zpopmin n z m h =
      ground (arith, (rw zpopmin_popped at h), has_split m n (rows z), has-lookup m (rows z))

  -- A script that reclaims up to `limit` members takes expired ones only.
  pub contains-expired :
      (now limit : ℕ) (z : Z) (m : String)
      → contains m (S.zrange_by_score now limit z) ≡ true
      → (d : ℕ) × (score S m z ≡ some d) × (d ≤ now)
  unfolding score
  contains-expired now limit z m h = ground (
    arith,
    contains-take m limit (up_to now (rows z)) (rw zrange_lem at h),
    contains-up_to m now (rows z) (Distinct-rows z),
  )

  -- With room for the whole set it takes all of them.
  pub contains-all_expired :
      (now limit : ℕ) (z : Z) (m : String)
      → zcard z ≤ limit
      → contains m (S.zrange_by_score now limit z) ≡ is_expired now (score S m z)
  unfolding score
  contains-all_expired now limit z m h =
      rw
        (
          zrange_lem now limit z,
          take_all limit (up_to now (rows z))
              (omega (arith, length-up_to-le now (rows z), zcard_lem z)),
        )
        (contains-up_to m now (rows z) (Distinct-rows z))

  module _ (j : Json) where
    -- Decoding changes neither table, whatever the members are.
    pub tables-decode_all :
        (up : Bool) (ms : List String) (t : Tables Z) → (decode_all S j up ms t).1 ≡ t
    unfolding decode_all decode
    tables-decode_all up [] t = refl
    tables-decode_all up (m ∷ ms) t = ground (arith, tables-decode_all up ms t)

    module _ (lease now count : ℕ) (t : Tables Z) (on : 0 < lease) where
      pub score-pop :
          (m : String)
          → (score S m (pop S j lease now count t).1.queue
              ≡ (if contains m (pop S j lease now count t).0 then none else score S m t.queue))
            × (score S m (pop S j lease now count t).1.inflight ≡ (
                if contains m (pop S j lease now count t).0
                then some (now + lease)
                else score S m t.inflight))
      unfolding pop take_script
      score-pop m = ground (
        arith,
        score-zpopmin (max 1 count) t.queue m,
        score-lease_all S (now + lease) (members (zpopmin (max 1 count) t.queue).0) t.inflight m,
      )

      -- With leases on, taking tasks moves each popped member out of the queue and into the in-flight
      -- set with the deadline now + lease, and touches no other member, whether decoding raises or not.
      pub take-score :
          (up : Bool) (m : String)
          → let ms = (pop S j lease now count t).0 in
            let after = (take_tasks S j lease now up count t).1 in
            (score S m after.queue ≡ (if contains m ms then none else score S m t.queue))
            × (score S m after.inflight
                ≡ (if contains m ms then some (now + lease) else score S m t.inflight))
      unfolding take_tasks
      take-score up m =
          rw (tables-decode_all up (pop S j lease now count t).0 (pop S j lease now count t).1)
            (score-pop m)

    -- With leases on and Redis answering, a reclaim whose limit covers the in-flight set puts exactly
    -- the tasks whose deadline has passed back at the head of the queue, and ends their lease.
    pub reclaim_expired-score :
        (lease now limit : ℕ) (t : Tables Z) (m : String)
        → 0 < lease
        → zcard t.inflight ≤ limit
        → let after = (reclaim_expired S j lease now true limit t).1 in
          let expired = is_expired now (score S m t.inflight) in
          (score S m after.queue ≡ (if expired then some 0 else score S m t.queue))
          × (score S m after.inflight ≡ (if expired then none else score S m t.inflight))
    unfolding reclaim_expired reclaim_script
    reclaim_expired-score lease now limit t m on room =
        let expired : List String = S.zrange_by_score now (max 1 limit) t.inflight in
        ground (
          arith,
          contains-all_expired now (max 1 limit) t.inflight m (omega arith),
          queue-put_back S expired t m,
          inflight-put_back S expired t m,
        )

    -- Whatever the limit and the state of Redis, a reclaim changes nothing for a task that has no lease
    -- or whose lease still runs.
    pub reclaim_expired-live :
        (lease now limit : ℕ) (up : Bool) (t : Tables Z) (m : String)
        → is_expired now (score S m t.inflight) ≡ false
        → let after = (reclaim_expired S j lease now up limit t).1 in
          (score S m after.queue ≡ score S m t.queue)
          × (score S m after.inflight ≡ score S m t.inflight)
    unfolding reclaim_expired reclaim_script
    reclaim_expired-live lease now limit up t m live =
        let expired : List String = S.zrange_by_score now (max 1 limit) t.inflight in
        ground (
          arith,
          contains-expired now (max 1 limit) t.inflight m,
          queue-put_back S expired t m,
          inflight-put_back S expired t m,
        )

    -- A renewal moves the deadlines of the given tasks that are still leased to now + lease. It leases
    -- nothing anew, and changes nothing if leases are off or Redis does not answer.
    pub renew-score :
        (lease now : ℕ) (up : Bool) (rs : List Request) (t : Tables Z) (m : String)
        → let after = (renew S j lease now up rs t).1 in
          (score S m after.queue ≡ score S m t.queue)
          × (score S m after.inflight ≡ (elim (score S m t.inflight) [
            | none ↦ none
            | some d ↦
                if up && ltb 0 lease && contains m (tokens S j rs)
                then some (now + lease)
                else some d
          ]))
    unfolding renew
    renew-score lease now up rs t m =
        ground (arith, score-renew_script S (now + lease) (tokens S j rs) t.inflight m)

    -- The task whose account a call of `done` settles: the payload that the request was leased under,
    -- if Redis answers.
    abbrev pub settles : Bool → Option String → String → Bool
    settles up none m = false
    settles up (some token) m = up && token == m

    -- A call of `done` ends the lease of the task that the request was leased under, if there is one and
    -- Redis answers, and touches nothing else.
    pub done-score :
        (up : Bool) (r : Request) (t : Tables Z) (m : String)
        → (score S m (done S j up r t).queue ≡ score S m t.queue)
          × (score S m (done S j up r t).inflight
              ≡ (if settles up r.lease_token m then none else score S m t.inflight))
    unfolding done done_token done_member
    done-score up r t m = elim (Option-cases r.lease_token) [
      | inl e ↦ rw (e, done_token) (ground arith)
      | inr (token, e) ↦ rw (e, done_token) (ground (arith, score-zrem S token m t.inflight))
    ]

    pub put-score :
        (r : Request) (t : Tables Z) (m : String)
        → (score S m (put S j r t).queue
            ≡ (if payload S j r == m then some r.priority else score S m t.queue))
          × (score S m (put S j r t).inflight ≡ score S m t.inflight)
    unfolding put
    put-score r t m = ground (arith, score-zadd S r.priority (payload S j r) m t.queue)

    -- A reclaim forgets no task.
    pub reclaim_expired-known :
        (lease now limit : ℕ) (up : Bool) (t : Tables Z) (m : String)
        → let after = (reclaim_expired S j lease now up limit t).1 in
          is_some (score S m t.queue) || is_some (score S m t.inflight) ≡ true
          → (is_some (score S m after.queue) || is_some (score S m after.inflight)) ≡ true
    unfolding reclaim_expired reclaim_script
    reclaim_expired-known lease now limit up t m h =
        let expired : List String = S.zrange_by_score now (max 1 limit) t.inflight in
        ground (arith, queue-put_back S expired t m, inflight-put_back S expired t m)
