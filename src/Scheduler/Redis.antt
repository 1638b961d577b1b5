-- ===== src/Scheduler/Redis.antt =====
-- `RedisScheduler` of core/redis_scheduler.py and `RedisTaskScheduler` of core/redis_task_scheduler.py:
-- when a node of several may end. Times are milliseconds; a Redis call that raises inside a `try` is the
-- answer `none`, or `up` false.
use netspy.Base.{
  ℕ, ◌+◌, ◌-◌, String, Bool, true, false, not, ◌&&◌, ◌||◌, Option, none, some, [], ◌∷◌, Outcome,
  returned, raised, if◌then◌else◌, ltb, leb, ◌==◌, String_eq,
}
use netspy.Base.Dict.{Dict}
use netspy.Base.Text.{before, after}
use netspy.Redis.SortedSet.{SortedSets}
use netspy.TaskQueue.Scripts.{Tables}
use netspy.TaskQueue.Interface.{TaskQueue}
use netspy.TaskQueue.Leased.{
  Json, put, get, take, done, is_empty, inflight_count, reclaim_expired, renew,
}
use netspy.Collector.{held_requests}
use netspy.Scheduler.{Node, collector, local_idle}

-- the settings SPIDER_TASK_LEASE, HEARTBEAT_STALE, SPIDER_STARTUP_GRACE, the node's `keep_alive`, and the
-- reclaim's limit
pub record Settings : Type 0 where
  pub lease : ℕ
  pub heartbeat_stale : ℕ
  pub startup_grace : ℕ
  pub keep_alive : Bool
  pub reclaim_limit : ℕ

-- `float` (in milliseconds) and `int`, none where they raise ValueError
pub record Numbers : Type 0 where
  pub float : String → Option ℕ
  pub int : String → Option ℕ

-- `_resolve_dedup_scope` on the setting's text, stripped and in lower case; ConfigError is raised
unfoldable pub resolve_dedup_scope : String → String → Outcome String
resolve_dedup_scope run_id scope =
    let has_run = not (run_id == "") in
    if scope == "auto"
    then returned (if has_run then "run" else "spider")
    else if not (scope == "run" || scope == "spider")
    then raised
    else returned (if scope == "run" && not has_run then "spider" else scope)

-- One entry of the heartbeats: whether it keeps the others from ending, by its time and its count.
abbrev pub counts_pending : Settings → ℕ → Option ℕ → Option ℕ → Bool
counts_pending s now none pending = false
counts_pending s now (some at) none = false
counts_pending s now (some at) (some pending) =
    not (ltb s.heartbeat_stale (now - at)) && ltb 0 pending

unfoldable pub is_working : Settings → Numbers → ℕ → String → Bool
is_working s p now raw = counts_pending s now (p.float (before ":" raw)) (p.int (after ":" raw))

-- `for raw in entries.values()`
unfoldable pub none_working : Settings → Numbers → ℕ → Dict String String → Bool
none_working s p now [] = true
none_working s p now ((node, raw) ∷ entries) =
    if is_working s p now raw then false else none_working s p now entries

-- `_all_nodes_idle`; the entries are those of HGETALL
unfoldable pub all_nodes_idle : Settings → Numbers → ℕ → Option (Dict String String) → Bool
all_nodes_idle s p now none = false
all_nodes_idle s p now (some entries) = none_working s p now entries

abbrev pub is_alive : Settings → ℕ → Option ℕ → Bool
is_alive s now none = false
is_alive s now (some at) = leb (now - at) s.heartbeat_stale

-- `_live_node_count`
unfoldable pub live_node_count : Settings → Numbers → ℕ → Dict String String → ℕ
live_node_count s p now [] = 0
live_node_count s p now ((node, raw) ∷ entries) =
    (if is_alive s now (p.float (before ":" raw)) then 1 else 0) + live_node_count s p now entries

-- what a round of the end check reads: the wall clock, the monotonic clock, whether Redis answers the
-- reclaim, and the heartbeats
pub record Reading : Type 0 where
  pub now : ℕ
  pub monotonic : ℕ
  pub up : Bool
  pub heartbeats : Option (Dict String String)

-- The node, with what `RedisScheduler.__init__` adds to it.
pub record RedisNode (Z : Type 0) : Type 0 where
  pub node : Node (Tables Z)
  pub seen_work : Bool
  pub started_at : ℕ

module _ (S : SortedSets) (j : Json) (s : Settings) where
  open S use {Z}

  -- The Redis queue as the collector and the request buffer use it, at one time: `up` says whether
  -- Redis answers.
  abbrev pub redis_queue : ℕ → Bool → TaskQueue (Tables Z)
  redis_queue now up = record {
    put = λ r t. if up then (true, put S j r t) else (false, t);
    get = λ t. if up then get S j s.lease now now up false (λ u. u) t else (raised, t);
    get_batch = λ n t. if up then take S j s.lease now up n t else (raised, t);
    done = λ r t. done S j up r t;
    is_empty = is_empty S j;
  }

  -- `_in_startup_grace`
  unfoldable pub in_startup_grace : ℕ → RedisNode Z → Bool × RedisNode Z
  in_startup_grace monotonic n =
      if n.seen_work
      then (false, n)
      else if ltb 0 n.node.request_ok || ltb 0 n.node.request_failed
      then (false, record n { seen_work = true })
      else (ltb 0 s.startup_grace && ltb (monotonic - n.started_at) s.startup_grace, n)

  -- the node with the tables as it sees them at a time
  abbrev pub with_tables : Tables Z → RedisNode Z → RedisNode Z
  with_tables t n = record n { node = record n.node { queue = t } }

  -- `_is_done` after the startup grace. The commands are apart: `first` is what others do to the tables between
  -- the reclaim and the read of the queue, `second` what they do between that and the read of the tasks in
  -- flight; the heartbeats come with `r` as they are read last.
  unfoldable pub check_idle :
      Numbers
      → Reading
      → (Tables Z → Tables Z)
      → (Tables Z → Tables Z)
      → RedisNode Z
      → Bool × RedisNode Z
  check_idle p r first second n =
      let (reclaimed, tables) =
        reclaim_expired S j s.lease r.now r.up s.reclaim_limit n.node.queue in
      let seen = first tables in
      let later = second seen in
      if ltb 0 reclaimed
      then (false, with_tables tables n)
      else if not (local_idle (redis_queue r.now r.up) (with_tables tables n).node)
      then (false, with_tables tables n)
      else if not (is_empty S j seen)
      then (false, with_tables seen n)
      else if ltb 0 (inflight_count S j later)
      then (false, with_tables later n)
      else (all_nodes_idle s p r.now r.heartbeats, with_tables later n)

  -- RedisScheduler._is_done
  unfoldable pub is_done :
      Numbers
      → Reading
      → (Tables Z → Tables Z)
      → (Tables Z → Tables Z)
      → RedisNode Z
      → Bool × RedisNode Z
  is_done p r first second n =
      let (waits, n') = in_startup_grace r.monotonic n in
      if s.keep_alive
      then (false, n)
      else if waits
      then (false, n')
      else check_idle p r first second n'

  -- RedisTaskScheduler._is_done, by whether its poller has found the source exhausted
  unfoldable pub is_task_done : Numbers → Bool → Reading → RedisNode Z → Bool
  is_task_done p exhausted r n =
      if s.keep_alive
      then false
      else if not exhausted
      then false
      else local_idle (redis_queue r.now r.up) n.node
        && is_empty S j n.node.queue
        && all_nodes_idle s p r.now r.heartbeats

  -- `_renew_leases`, on the heartbeat
  unfoldable pub renew_leases : ℕ → Bool → RedisNode Z → ℕ × RedisNode Z
  renew_leases now up n =
      let T = redis_queue now up in
      let held = held_requests T (collector T n.node) in
      let (renewed, tables) = renew S j s.lease now up held n.node.queue in
      (renewed, record n { node = record n.node { queue = tables } })
