-- ===== src/Tests/Buffers.antt =====
-- Runs of core/collector.py, buffer/request_buffer.py and network/request.py on small inputs.
use netspy.Base.{◌≤◌, ◌+◌, ◌≡◌, refl, Bool, false, String, some, List, [], ◌∷◌, ltb, tally}
use netspy.Request.{Request, callable, defaults, init}
use netspy.Request.Codec.{from_dict, to_dict, is_reserved}
use netspy.Request.RoundTrip.{IsWellFormed, stored_view, from_dict-to_dict, init-IsWellFormed}
use netspy.Request.Examples.{get_request}
use netspy.TaskQueue.Interface.{TaskQueue, memory_queue}
use netspy.TaskQueue.Memory.{MemoryTaskQueue, empty_queue, put}
use netspy.Collector.{Collector, get_request as next_request, held_requests}
use netspy.Collector.Held.{IsCollector, fetched, held-get_request}
use netspy.Dedup.Lite.{LiteFilter, lite_filter}
use netspy.RequestBuffer.{RequestBuffer, flush}
use netspy.RequestBuffer.Logged.{everything, logged}
use netspy.RequestBuffer.Conserved.{flush-kept}

abbrev pub request_a : Request
request_a = get_request "a"

abbrev pub request_b : Request
request_b = get_request "b"

-- a request with a bound method for its callback
abbrev with_callback : Request
with_callback =
    init (λ m. m) "c" "GET" (record defaults { callback = some (callable 7 (some "parse")) })
      (("timeout", "5") ∷ ("page", "2") ∷ [])

with_callback-IsWellFormed : IsWellFormed (λ m. m) with_callback
unfolding is_reserved
with_callback-IsWellFormed =
    init-IsWellFormed (λ m. m) "c" "GET"
      (record defaults { callback = some (callable 7 (some "parse")) })
      (("timeout", "5") ∷ ("page", "2") ∷ []) refl refl

from_dict-to_dict_example :
    from_dict (λ m. m) (to_dict with_callback) ≡ some (stored_view with_callback)
from_dict-to_dict_example = from_dict-to_dict (λ m. m) with_callback with_callback-IsWellFormed

-- a collector that holds nothing, over a queue of two
abbrev two_queued : Collector MemoryTaskQueue
two_queued = record {
  queue = put request_a (put request_b empty_queue);
  buffer = [];
  in_progress = [];
  next_id = 0;
}

two_queued-IsCollector : IsCollector two_queued
two_queued-IsCollector = record { made = tt; keyed = tt; apart = tt; unlike = tt }

held-get_request_example :
    tally everything (held_requests memory_queue (next_request memory_queue 5 two_queued).1)
    ≡ tally everything (held_requests memory_queue two_queued)
      + tally everything (fetched memory_queue 5 everything two_queued.buffer two_queued.queue)
held-get_request_example =
    held-get_request memory_queue 5 everything two_queued two_queued-IsCollector

-- a queue whose first put raises
abbrev refusing : TaskQueue MemoryTaskQueue
refusing = record memory_queue { put = λ r q. (false, q) }

abbrev pub by_url : Request → String
by_url r = r.url

-- what a retry looks like
abbrev is_retry : Request → Bool
is_retry r = ltb 0 r.retry_times

-- the same buffer, over the queue that refuses
abbrev waiting_logged : RequestBuffer (MemoryTaskQueue × List Request) LiteFilter
waiting_logged = record {
  queue = (empty_queue, []);
  dedup = record { seen = "b" ∷ [] };
  pending = request_a ∷ request_b ∷ [];
  dedup_dropped = 0;
}

flush-kept_example :
    let after = (flush (logged refusing) lite_filter by_url waiting_logged).1 in
    (tally is_retry after.queue.1 + tally is_retry after.pending
      ≤ tally is_retry [] + tally is_retry waiting_logged.pending)
    × (tally is_retry [] + tally is_retry waiting_logged.pending + 0
        ≤ tally is_retry after.queue.1 + tally is_retry after.pending + after.dedup_dropped)
    × (tally everything after.queue.1 + tally everything after.pending + after.dedup_dropped
        ≡ tally everything [] + tally everything waiting_logged.pending + 0)
flush-kept_example = flush-kept refusing lite_filter by_url is_retry waiting_logged (λ r f. refl)
