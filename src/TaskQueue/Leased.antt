-- ===== src/TaskQueue/Leased.antt =====
-- `RedisTaskQueue` of core/task_queue.py. `lease` is SPIDER_TASK_LEASE in milliseconds, 0 where it is
-- off; `now` is the clock at the call. `up` says whether the Redis call inside a `try` answers: one
-- that raises has changed nothing, and the code goes on.
use netspy.Base.{
  ℕ, ◌+◌, max, String, Bool, Option, none, some, List, [], ◌∷◌, nat_eq, if◌then◌else◌, Outcome,
  returned, raised,
}
use netspy.Redis.Rows.{members}
use netspy.Redis.SortedSet.{SortedSets}
use netspy.Request.{Request}
use netspy.Request.Codec.{Stored, to_dict, from_dict}
use netspy.TaskQueue.Scripts.{Tables, take_script, reclaim_script, renew_script}

-- `str.upper` and the JSON library behind `tools.dumps_json` and `tools.loads_json`; `none` is the
-- exception on a text that is no such object.
pub record Json : Type 0 where
  pub upper : String → String
  pub dumps : Stored → String
  pub loads : String → Option Stored

abbrev or_raised : Option Request → Outcome (Option Request)
or_raised none = raised
or_raised (some r) = returned (some r)

module _ (S : SortedSets) (j : Json) where
  open S use {Z, zadd, zrem, zpopmin, zcard}

  -- tools.dumps_json(request.to_dict())
  unfoldable pub payload : Request → String
  payload r = j.dumps (to_dict r)

  unfoldable pub put : Request → Tables Z → Tables Z
  put r t = record t { queue = zadd r.priority (payload r) t.queue }

  -- _decode
  unfoldable pub decode : Option String → Outcome (Option Request)
  decode none = returned none
  decode (some member) = elim (j.loads member) [
    | none ↦ raised
    | some d ↦ or_raised (from_dict j.upper d)
  ]

  unfoldable pub done_member : Bool → String → Tables Z → Tables Z
  done_member up member t = if up then record t { inflight = zrem member t.inflight } else t

  unfoldable pub done_token : Bool → Option String → Tables Z → Tables Z
  done_token up none t = t
  done_token up (some member) t = done_member up member t

  -- RedisTaskQueue.done
  unfoldable pub done : Bool → Request → Tables Z → Tables Z
  done up r t = done_token up r.lease_token t

  abbrev prepend : Request → Outcome (List Request) → Outcome (List Request)
  prepend r (returned rs) = returned (r ∷ rs)
  prepend r raised = raised

  -- The loop of `_take` over the members that were popped. An exception of `_decode` leaves it.
  unfoldable pub decode_all : Bool → List String → Tables Z → Outcome (List Request) × Tables Z
  decode_all up [] t = (returned [], t)
  decode_all up (member ∷ ms) t = elim (decode (some member)) [
    | raised ↦ (raised, t)
    | returned none ↦ decode_all up ms (done_member up member t)
    | returned (some r) ↦
        let (out, t') = decode_all up ms t in
        (prepend (record r { lease_token = some member }) out, t')
  ]

  -- what `_take` asks Redis for: a plain ZPOPMIN if leases are off, else the script
  unfoldable pub pop : ℕ → ℕ → ℕ → Tables Z → List String × Tables Z
  pop lease now count t =
      if nat_eq lease 0
      then (
        members (zpopmin (max 1 count) t.queue).0,
        record t { queue = (zpopmin (max 1 count) t.queue).1 },
      )
      else take_script S (max 1 count) (now + lease) t

  -- `_take`, which is also `get_batch`
  unfoldable pub take : ℕ → ℕ → Bool → ℕ → Tables Z → Outcome (List Request) × Tables Z
  take lease now up count t = let (ms, t') = pop lease now count t in decode_all up ms t'

  -- `get` once BZPOPMIN has answered with `member`: the lease is written by a second command, before which
  -- others may come; Operations has the two apart
  unfoldable pub get_blocking : ℕ → ℕ → List String → Tables Z → Outcome (Option Request) × Tables Z
  get_blocking lease now [] t = (returned none, t)
  get_blocking lease now (member ∷ _) t = elim (decode (some member)) [
    | raised ↦ (raised, t)
    | returned none ↦ (returned none, t)
    | returned (some r) ↦ (
      returned (some (record r { lease_token = some member })),
      (if nat_eq lease 0 then t else record t { inflight = zadd (now + lease) member t.inflight }),
    )
  ]

  -- After the first try: at once with a task, or nothing if there is no timeout, else after a wait
  -- in which others turned the tables into `waited t`. The blocking pop is ZPOPMIN of one member.
  unfoldable pub get_after :
      ℕ
      → ℕ
      → Bool
      → (Tables Z → Tables Z)
      → Outcome (List Request)
      → Tables Z
      → Outcome (Option Request) × Tables Z
  get_after lease later timeout waited raised t = (raised, t)
  get_after lease later timeout waited (returned (r ∷ rs)) t = (returned (some r), t)
  get_after lease later timeout waited (returned []) t =
      let t' = waited t in
      let popped = zpopmin 1 t'.queue in
      if timeout
      then get_blocking lease later (members popped.0) (record t' { queue = popped.1 })
      else (returned none, t)

  -- RedisTaskQueue.get
  unfoldable pub get :
      ℕ
      → ℕ
      → ℕ
      → Bool
      → Bool
      → (Tables Z → Tables Z)
      → Tables Z
      → Outcome (Option Request) × Tables Z
  get lease now later up timeout waited t =
      let (taken, t') = take lease now up 1 t in get_after lease later timeout waited taken t'

  unfoldable pub reclaim_expired : ℕ → ℕ → Bool → ℕ → Tables Z → ℕ × Tables Z
  reclaim_expired lease now up limit t =
      if nat_eq lease 0 then (0, t) else if up then reclaim_script S now (max 1 limit) t else (0, t)

  unfoldable pub tokens : List Request → List String
  tokens [] = []
  tokens (r ∷ rs) = elim r.lease_token [ none ↦ tokens rs | some token ↦ token ∷ tokens rs ]

  -- an empty list of tokens goes to the script too, which then renews nothing
  unfoldable pub renew : ℕ → ℕ → Bool → List Request → Tables Z → ℕ × Tables Z
  renew lease now up rs t =
      if nat_eq lease 0
      then (0, t)
      else if up
      then (let (n, z) = renew_script S (now + lease) (tokens rs) t.inflight in
          (n, record t { inflight = z }))
      else (0, t)

  unfoldable pub inflight_count : Tables Z → ℕ
  inflight_count t = zcard t.inflight

  unfoldable pub qsize : Tables Z → ℕ
  qsize t = zcard t.queue

  unfoldable pub is_empty : Tables Z → Bool
  is_empty t = nat_eq (qsize t) 0
