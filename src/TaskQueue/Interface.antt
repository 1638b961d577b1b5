-- ===== src/TaskQueue/Interface.antt =====
-- What core/collector.py and buffer/request_buffer.py use of a task queue, and the in-process queue as
-- one. Either queue may raise; the new state is then whatever the queue made of the call.
use netspy.Base.{ℕ, Bool, true, Option, List, Outcome, returned}
use netspy.Request.{Request}
use netspy.TaskQueue.Memory.{MemoryTaskQueue}
use netspy.TaskQueue.Memory

pub record TaskQueue (Q : Type 0) : Type 0 where
  -- whether the put returned, and the queue
  pub put : Request → Q → Bool × Q
  pub get : Q → Outcome (Option Request) × Q
  pub get_batch : ℕ → Q → Outcome (List Request) × Q
  pub done : Request → Q → Q
  pub is_empty : Q → Bool

-- The memory queue has no `done`, which the collector then skips.
abbrev pub memory_queue : TaskQueue MemoryTaskQueue
memory_queue = record {
  put = λ r q. (true, Memory.put r q);
  get = λ q. (returned (Memory.get q).0, (Memory.get q).1);
  get_batch = λ n q. (returned (Memory.get_batch n q).0, (Memory.get_batch n q).1);
  done = λ r q. q;
  is_empty = Memory.is_empty;
}
