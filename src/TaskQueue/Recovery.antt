-- ===== src/TaskQueue/Recovery.antt =====
-- The life of one task in the Redis queue: what is put is what is taken, the order of taking, the
-- return of a task whose node died, and what a text that does not decode does to its batch.
use netspy.Base.{
  ℕ, ◌+◌, ◌≤◌, ◌<◌, String, ◌≡◌, Bool, true, none, some, List, [], ◌∷◌, arith, ==_iff, String_eq,
  returned, raised, max,
}
use netspy.Base.Dict.{lookup}
use netspy.Redis.Rows.{contains, take-le-drop, rows_of_one, take_single}
use netspy.Redis.SortedSet.{SortedSets}
use netspy.Request.{Request}
use netspy.Request.Codec.{to_dict}
use netspy.Request.RoundTrip.{IsWellFormed, stored_view, from_dict-to_dict}
use netspy.TaskQueue.Scripts.{Tables, take_script}
use netspy.TaskQueue.Keys.{score}
use netspy.TaskQueue.Leases.{tables-decode_all, take-score, reclaim_expired-score}
use netspy.TaskQueue.Leased.{
  Json, put, decode, decode_all, done_member, pop, take as take_tasks, reclaim_expired, payload,
}

module _ (S : SortedSets) (j : Json) where
  open S use {Z, rows, zadd, zcard, zpopmin_popped, zpopmin_left, Distinct-rows, Ascending-rows}

  pub decode-payload :
      (r : Request)
      → j.loads (j.dumps (to_dict r)) ≡ some (to_dict r)
      → IsWellFormed j.upper r
      → decode S j (some (payload S j r)) ≡ returned (some (stored_view r))
  unfolding decode payload
  decode-payload r law w = ground (arith, law, from_dict-to_dict j.upper r w)

  rows-zadd : (s : ℕ) (m : String) (z : Z) → rows z ≡ [] → rows (zadd s m z) ≡ (m, s) ∷ []
  unfolding lookup
  rows-zadd s m z h =
      rows_of_one (rows (zadd s m z)) m s (Distinct-rows (zadd s m z))
        λ k. rw (S.lookup-zadd s m k z, h)

  -- With leases on, a well-formed request whose JSON text is read back as written, put into an empty
  -- queue, is what the next take returns: the stored request, leased under its payload.
  pub take-put :
      (lease now count : ℕ) (up : Bool) (r : Request) (t : Tables Z)
      → 0 < lease
      → j.loads (j.dumps (to_dict r)) ≡ some (to_dict r)
      → IsWellFormed j.upper r
      → rows t.queue ≡ []
      → (take_tasks S j lease now up count (put S j r t)).0
        ≡ returned (record (stored_view r) { lease_token = some (payload S j r) } ∷ [])
  unfolding take_tasks pop take_script put decode_all
  take-put lease now count up r t on law w h = ground (
    arith,
    zpopmin_popped (max 1 count) (zadd r.priority (payload S j r) t.queue),
    rows-zadd r.priority (payload S j r) t.queue h,
    take_single (max 1 count) (payload S j r, r.priority) (omega arith),
    decode-payload r law w,
  )

  -- With leases on, a taken task scores no more than any task that the take left in the queue.
  pub take_order :
      (lease now count : ℕ) (up : Bool) (t : Tables Z) (m k : String) (a b : ℕ)
      → 0 < lease
      → contains m (pop S j lease now count t).0 ≡ true
      → score S m t.queue ≡ some a
      → score S k (take_tasks S j lease now up count t).1.queue ≡ some b
      → a ≤ b
  unfolding pop take_script score take_tasks
  take_order lease now count up t m k a b on c e f =
      take-le-drop (max 1 count) (rows t.queue) m k a b (Ascending-rows t.queue)
        (ground (arith, zpopmin_popped (max 1 count) t.queue)) e
        (ground (
          arith,
          tables-decode_all S j up (pop S j lease now count t).0 (pop S j lease now count t).1,
          zpopmin_left (max 1 count) t.queue,
        ))

  -- With leases on, a task that a node took, and then died with, is back at the head of the queue and no
  -- longer leased after any reclaim that Redis answers at or after the end of its lease, if the limit
  -- covers the in-flight set.
  pub reclaim-take :
      (lease now later count limit : ℕ) (up : Bool) (t : Tables Z) (m : String)
      → 0 < lease
      → now + lease ≤ later
      → contains m (pop S j lease now count t).0 ≡ true
      → let taken = (take_tasks S j lease now up count t).1 in
        zcard taken.inflight ≤ limit
        → let after = (reclaim_expired S j lease later true limit taken).1 in
          (score S m after.queue ≡ some 0) × (score S m after.inflight ≡ none)
  reclaim-take lease now later count limit up t m on ends c room = ground (
    arith,
    take-score S j lease now count t on up m,
    reclaim_expired-score S j lease later limit (take_tasks S j lease now up count t).1 m on room,
  )

  raised-decode_all :
      (up : Bool) (ms : List String) (t : Tables Z) (m : String)
      → decode S j (some m) ≡ raised
      → contains m ms ≡ true
      → (decode_all S j up ms t).0 ≡ raised
  unfolding decode_all contains
  raised-decode_all up [] t m bad c = cc
  raised-decode_all up (x ∷ ms) t m bad c = ground (
    arith,
    ==_iff x m,
    bad,
    raised-decode_all up ms (done_member S j up x t) m,
    raised-decode_all up ms t m,
  )

  -- With leases on, one text that does not decode makes the whole take raise, and every member of its
  -- batch, decodable or not, is left in flight until the lease ends.
  pub take_malformed :
      (lease now count : ℕ) (up : Bool) (t : Tables Z) (bad m : String)
      → 0 < lease
      → decode S j (some bad) ≡ raised
      → contains bad (pop S j lease now count t).0 ≡ true
      → contains m (pop S j lease now count t).0 ≡ true
      → ((take_tasks S j lease now up count t).0 ≡ raised)
        × (score S m (take_tasks S j lease now up count t).1.inflight ≡ some (now + lease))
  unfolding take_tasks
  take_malformed lease now count up t bad m on e c d = (
    raised-decode_all up (pop S j lease now count t).0 (pop S j lease now count t).1 bad e c,
    ground (arith, take-score S j lease now count t on up m),
  )
