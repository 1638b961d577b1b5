-- ===== src/Scheduler/Shutdown.antt =====
-- How a node leaves: `_teardown` of core/base_scheduler.py and `_on_shutdown` of core/redis_scheduler.py,
-- with the failed requests of both. `up` and `ups` say which Redis calls answer; one that raises has
-- changed nothing.
use netspy.Base.{
  ℕ, suc, String, Bool, true, false, List, [], ◌∷◌, ◌++◌, map, if◌then◌else◌, String_eq,
}
use netspy.Base.Dict.{Dict, insert, remove}
use netspy.Redis.SortedSet.{SortedSets}
use netspy.Request.{Request}
use netspy.Request.Codec.{to_dict}
use netspy.TaskQueue.Scripts.{Tables}
use netspy.TaskQueue.Leased.{Json, put, done}
use netspy.Scheduler.{Node, Disk, dump_requests}
use netspy.Scheduler.Redis.{RedisNode}

-- The loop of `_teardown`: each step runs from what the last one left, whether that raised or not.
unfoldable pub teardown : {S : Type 0} → List (S → Bool × S) → S → S
teardown [] s = s
teardown (step ∷ steps) s = teardown steps (step s).1

module _ (S : SortedSets) (j : Json) where
  open S use {Z}

  abbrev pub unfiltered : Request → Request
  unfiltered r = record r { filter_repeat = false }

  -- The loop over the leftovers: how many were pushed, those to be dumped, and the tables. Each
  -- request comes with whether its put and its acknowledgement reach Redis.
  unfoldable pub push_back : List (Request × Bool × Bool) → Tables Z → ℕ × List Request × Tables Z
  push_back [] t = (0, [], t)
  push_back ((r, put_up, done_up) ∷ rest) t =
      let pushed = done S j done_up (unfiltered r) (put S j (unfiltered r) t) in
      let (n, dumped, t') = push_back rest pushed in
      if put_up then (suc n, dumped, t') else (0, unfiltered r ∷ map (λ e. e.0) rest, t)

  -- requests with the answers of Redis, in order; beyond the list it answers
  unfoldable pub with_answers : List Request → List (Bool × Bool) → List (Request × Bool × Bool)
  with_answers [] ups = []
  with_answers (r ∷ rs) [] = (r, true, true) ∷ with_answers rs []
  with_answers (r ∷ rs) ((p, d) ∷ ups) = (r, p, d) ∷ with_answers rs ups

  unfoldable pub leftovers : Node (Tables Z) → List Request
  leftovers n = n.pending ++ map (λ o. o.request) n.buffered

  -- RedisScheduler._on_shutdown, the heartbeat's key aside
  unfoldable pub on_shutdown :
      Bool → List (Bool × Bool) → RedisNode Z → Disk → ℕ × RedisNode Z × Disk
  on_shutdown dumps ups n d =
      let (pushed, dumped, t) = push_back (with_answers (leftovers n.node) ups) n.node.queue in
      (
        pushed,
        record n { node = record n.node { queue = t; pending = []; buffered = [] } },
        dump_requests j dumps dumped d,
      )

  -- RedisScheduler._on_failed_request, onto the list `<ns>:failed_requests`
  unfoldable pub push_failed : Bool → Request → List String → List String
  push_failed up r failed = if up then failed ++ j.dumps (to_dict r) ∷ [] else failed

-- The heartbeats of the namespace: `_beat` writes the node's entry, `_on_shutdown` removes it. The text
-- is `f"{time.time():.3f}:{pending}"`.
unfoldable pub beat :
    (ℕ → ℕ → String) → Bool → String → ℕ → ℕ → Dict String String → Dict String String
beat stamp up node now pending es = if up then insert node (stamp now pending) es else es

unfoldable pub leave : Bool → String → Dict String String → Dict String String
leave up node es = if up then remove node es else es
