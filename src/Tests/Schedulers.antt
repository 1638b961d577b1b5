-- ===== src/Tests/Schedulers.antt =====
-- Runs of core/base_scheduler.py, core/scheduler.py and core/redis_scheduler.py.
use netspy.Base.{
  List, ℕ, suc, ◌+◌, ◌≡◌, refl, true, false, none, some, [], ◌∷◌, ◌++◌, map, take, drop, arith,
  if◌then◌else◌, All, ◌==◌, String_eq, ltb, is_some,
}
use netspy.Base.Text.{before}
use netspy.Redis.Reference.{sorted_rows}
use netspy.Request.{init}
use netspy.Request.Codec.{to_dict}
use netspy.Request.Examples.{get_request}
use netspy.TaskQueue.Leased.{Json, payload, is_empty as no_tasks}
use netspy.TaskQueue.Memory.{MemoryTaskQueue, empty_queue}
use netspy.TaskQueue.Memory
use netspy.TaskQueue.Interface.{memory_queue}
use netspy.Collector.{is_empty as nothing_held}
use netspy.RequestBuffer.{clear_first}
use netspy.Scheduler.{Node, Disk, lines, on_shutdown as leave}
use netspy.Scheduler.Wait.{World, wait_until_done}
use netspy.Scheduler.Wait.Ends.{wait_until_done_ends}
use netspy.RequestBuffer.{RequestBuffer}
use netspy.Dedup.Lite.{LiteFilter}
use netspy.TaskQueue.Scripts.{Tables}
use netspy.Request.{Request}
use netspy.TaskQueue.Keys.{score}
use netspy.Scheduler.Redis.{Settings, Numbers, Reading, RedisNode}
use netspy.TaskQueue.Operations.{Operation, takes, renews}
use netspy.TaskQueue.Leased.{take as take_tasks}
use netspy.Scheduler.Shutdown.{unfiltered, leftovers, on_shutdown}
use netspy.Scheduler.Returned.{is_queued, on_shutdown-kept}
use netspy.Scheduler.Drained.{queued as queued_requests, on_shutdown-lines}
use netspy.Tests.Buffers.{request_a, request_b}

-- a world that is its clock, and has nothing left to do from 300 on
abbrev world : World ℕ
world = record {
  is_stopped = λ now. false;
  clock = λ now. now;
  check = λ now. (ltb 300 now, now);
  pause = λ now. now + 100;
}

wait_until_done_ends_example : is_some (wait_until_done world 2 1000 (suc (suc 2)) 0) ≡ true
wait_until_done_ends_example =
    wait_until_done_ends world 1000 2 0 (omega arith) (λ now. omega arith)

abbrev json : Json
json = record {
  upper = λ s. s;
  dumps = λ d. elim d.url [ none ↦ "" | some url ↦ url ];
  loads = λ s. if s == "" then none else some (to_dict (get_request s));
}

abbrev settings : Settings
settings = record {
  lease = 600000;
  heartbeat_stale = 10000;
  startup_grace = 5000;
  keep_alive = false;
  reclaim_limit = 500;
}

-- texts of one digit
abbrev numbers : Numbers
numbers = record {
  float = λ s. if s == "" then none else some 4000;
  int = λ s. if s == "0" then some 0 else some 1;
}

abbrev reading : Reading
reading = record {
  now = 4100;
  monotonic = 9000;
  up = true;
  heartbeats = some (("node-1", "4.0:0") ∷ []);
}

-- a node that has done its work
abbrev idle_node : RedisNode sorted_rows.Z
idle_node = record {
  node = record {
    queue = record { queue = sorted_rows.nil; inflight = sorted_rows.nil };
    pending = [];
    buffered = [];
    in_progress = [];
    next_id = 7;
    items = [];
    busy = false ∷ false ∷ [];
    request_ok = 6;
    request_failed = 1;
  };
  seen_work = false;
  started_at = 0;
}

-- another node asks for a task and renews its own while this one looks
abbrev elsewhere : List Operation
elsewhere = takes 4100 true 5 ∷ renews 4100 true (request_a ∷ []) ∷ []

-- it works on a request that it has leased as "b"
abbrev loaded_node : RedisNode sorted_rows.Z
loaded_node = record idle_node {
  node = record idle_node.node {
    queue = record { queue = sorted_rows.nil; inflight = sorted_rows.zadd 900 "b" sorted_rows.nil };
    in_progress =
        (4, record { id = 4; request = record request_b { lease_token = some "b" } }) ∷ [];
    pending = request_a ∷ [];
    buffered =
        record { id = 5; request = request_b } ∷ record { id = 6; request = get_request "c" } ∷ [];
  };
}

abbrev disk : Disk
disk = record { failed_requests = none; writable = true }

-- Redis stops answering at the second request
on_shutdown-kept_example :
    let (count, n', d') =
      on_shutdown sorted_rows json true ((true, true) ∷ (false, false) ∷ []) loaded_node disk in
    let held = leftovers sorted_rows json loaded_node.node in
    All
      (λ r.
        is_queued sorted_rows json
          (payload sorted_rows json (unfiltered sorted_rows json r))
          n'.node.queue
        ≡ true)
      (take count held)
    × (lines d'.failed_requests
        ≡ lines disk.failed_requests
          ++ map (λ r. json.dumps (to_dict r)) (clear_first true (drop count held)))
    × ((if is_queued sorted_rows json "z" loaded_node.node.queue
          then is_queued sorted_rows json "z" n'.node.queue
          else true)
        ≡ true)
    × (score sorted_rows "b" n'.node.queue.inflight
        ≡ score sorted_rows "b" loaded_node.node.queue.inflight)
unfolding init leftovers
on_shutdown-kept_example =
    on_shutdown-kept sorted_rows json ((true, true) ∷ (false, false) ∷ []) loaded_node disk "z" "b"
      refl refl

abbrev two_queued : MemoryTaskQueue
two_queued = Memory.put request_a (Memory.put request_b empty_queue)

abbrev loaded_alone : Node MemoryTaskQueue
loaded_alone = record {
  queue = two_queued;
  pending = get_request "c" ∷ [];
  buffered = [];
  in_progress = [];
  next_id = 3;
  items = [];
  busy = [];
  request_ok = 0;
  request_failed = 0;
}

on_shutdown-lines_example :
    lines (leave memory_queue json true 5 loaded_alone disk).failed_requests
    ≡ lines disk.failed_requests
      ++ map
          (λ r. json.dumps (to_dict r))
          (loaded_alone.pending
            ++ (map (λ o. o.request) loaded_alone.buffered ++ queued_requests loaded_alone.queue))
unfolding Memory.put Memory.push Memory.before init
on_shutdown-lines_example = on_shutdown-lines json loaded_alone disk 5 refl (omega arith)

-- the Redis queue, which makes one member of equal texts
abbrev waiting_redis : RequestBuffer (Tables sorted_rows.Z × List Request) LiteFilter
waiting_redis = record {
  queue = (record { queue = sorted_rows.nil; inflight = sorted_rows.nil }, []);
  dedup = record { seen = [] };
  pending = get_request "x" ∷ [];
  dedup_dropped = 0;
}
