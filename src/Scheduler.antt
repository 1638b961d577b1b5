-- ===== src/Scheduler.antt =====
-- core/base_scheduler.py and core/scheduler.py: the node that a scheduler keeps (its queue, buffers and
-- workers), and the scheduler of one process. The queue is one object that the collector and the
-- request buffer share; here it stands in the node once. Threads, signals and the log are left out.
pub mod Wait
pub mod Redis
pub mod Finished
pub mod Quiet
pub mod Shutdown
pub mod Returned
pub mod Replay
pub mod Replayed
pub mod Drained
use netspy.Base.{
  ℕ, zero, suc, ◌+◌, String, Bool, true, false, not, ◌&&◌, Option, none, some, List, [], ◌∷◌, ◌++◌,
  map, length, all, Outcome, returned, raised, if◌then◌else◌, tally,
}
use netspy.Base.Dict.{Dict}
use netspy.Request.{Request}
use netspy.Request.Codec.{to_dict}
use netspy.TaskQueue.Leased.{Json}
use netspy.TaskQueue.Interface.{TaskQueue}
use netspy.Collector.{Object, Collector, is_nil}
use netspy.Collector

pub record Node (Q : Type 0) : Type 0 where
  pub queue : Q
  -- the request buffer
  pub pending : List Request
  -- the collector
  pub buffered : List Object
  pub in_progress : Dict ℕ Object
  pub next_id : ℕ
  -- the item buffer: each item with its owner
  pub items : List (String × Option ℕ)
  -- the workers' `busy` flags
  pub busy : List Bool
  -- the counters REQUEST_OK and REQUEST_FAILED
  pub request_ok : ℕ
  pub request_failed : ℕ

-- the file FAILED_REQUEST_PATH, if there is one, and whether it can be written
pub record Disk : Type 0 where
  pub failed_requests : Option (List String)
  pub writable : Bool

abbrev pub lines : Option (List String) → List String
lines none = []
lines (some ls) = ls

module _ {Q : Type 0} (T : TaskQueue Q) where
  abbrev pub collector : Node Q → Collector Q
  collector n = record {
    queue = n.queue;
    buffer = n.buffered;
    in_progress = n.in_progress;
    next_id = n.next_id;
  }

  unfoldable pub local_idle : Node Q → Bool
  local_idle n =
      is_nil n.pending
      && Collector.is_empty T (collector n)
      && is_nil n.items
      && all (λ b. not b) n.busy

  -- what the heartbeat tells the other nodes
  unfoldable pub local_pending : Node Q → ℕ
  local_pending n =
      length n.pending
      + Collector.buffered_count T (collector n)
      + length n.items
      + tally (λ b. b) n.busy

  -- AirScheduler._is_done
  unfoldable pub is_done : Node Q → Bool
  unfolding local_idle
  is_done n = local_idle n && T.is_empty n.queue

  -- The loop of `_drain_leftovers` over the queue, on fuel; an exception of the queue leaves it.
  unfoldable pub drain_queue : ℕ → Q → Outcome (List Request) × Q
  drain_queue zero q = (raised, q)
  drain_queue (suc n) q =
      let (answer, q') = T.get q in
      let (rest, q'') = drain_queue n q' in
      elim answer [
        | raised ↦ (raised, q')
        | returned none ↦ (returned [], q')
        | returned (some r) ↦
            ((elim rest [ raised ↦ raised | returned rs ↦ returned (r ∷ rs) ]), q'')
      ]

module _ (j : Json) where
  -- `_append_requests`: a failed write loses the requests, which the log says
  unfoldable pub append_requests : List Request → Disk → Disk
  append_requests [] d = d
  append_requests (r ∷ rs) d =
      if d.writable
      then record d {
        failed_requests = some (lines d.failed_requests ++ map (λ r. j.dumps (to_dict r)) (r ∷ rs));
      }
      else d

  -- `_dump_requests`; the test is DUMP_UNFINISHED_ON_EXIT
  unfoldable pub dump_requests : Bool → List Request → Disk → Disk
  dump_requests dumps rs d = if dumps then append_requests rs d else d

  -- BaseScheduler._on_failed_request
  unfoldable pub on_failed_request : Request → Disk → Disk
  on_failed_request r d = append_requests (r ∷ []) d

module _ {Q : Type 0} (T : TaskQueue Q) (j : Json) where
  abbrev pub with_queued : List Request → Outcome (List Request) → Outcome (List Request)
  with_queued rs raised = raised
  with_queued rs (returned queued) = returned (rs ++ queued)

  -- AirScheduler._drain_leftovers
  unfoldable pub drain_leftovers : ℕ → Node Q → Outcome (List Request)
  drain_leftovers fuel n =
      with_queued (n.pending ++ (Collector.drain T (collector T n)).0)
        (drain_queue T fuel n.queue).0

  abbrev pub dump_leftovers : Bool → Outcome (List Request) → Disk → Disk
  dump_leftovers dumps raised d = d
  dump_leftovers dumps (returned rs) d = dump_requests j dumps rs d

  -- AirScheduler._on_shutdown
  unfoldable pub on_shutdown : Bool → ℕ → Node Q → Disk → Disk
  unfolding drain_leftovers
  on_shutdown dumps fuel n d = dump_leftovers dumps (drain_leftovers fuel n) d
