-- ===== src/TaskQueue/Memory.antt =====
-- `MemoryTaskQueue` of core/task_queue.py. `queue.PriorityQueue` hands out the least tuple
-- (priority, sequence number, request); the numbers differ, so requests are never compared. It is kept
-- here as a list in the order of those pairs.
pub mod Order
use netspy.Base.{
  ℕ, zero, suc, ◌+◌, Bool, true, false, ◌||◌, ◌&&◌, Option, none, some, List, [], ◌∷◌,
  if◌then◌else◌, ltb, nat_eq, max, length,
}
use netspy.Request.{Request}

pub record Entry : Type 0 where
  pub priority : ℕ
  pub seq : ℕ
  pub request : Request

pub record MemoryTaskQueue : Type 0 where
  pub entries : List Entry
  pub next_seq : ℕ

abbrev pub empty_queue : MemoryTaskQueue
empty_queue = record { entries = []; next_seq = 0 }

-- the order of the tuples
unfoldable pub before : Entry → Entry → Bool
before a b = ltb a.priority b.priority || (nat_eq a.priority b.priority && ltb a.seq b.seq)

unfoldable pub push : Entry → List Entry → List Entry
push e [] = e ∷ []
push e (x ∷ xs) = if before e x then e ∷ x ∷ xs else x ∷ push e xs

unfoldable pub put : Request → MemoryTaskQueue → MemoryTaskQueue
put r q = record {
  entries = push (record { priority = r.priority; seq = q.next_seq; request = r }) q.entries;
  next_seq = suc q.next_seq;
}

abbrev pub pop : List Entry → ℕ → Option Request × MemoryTaskQueue
pop [] n = (none, record { entries = []; next_seq = n })
pop (e ∷ es) n = (some e.request, record { entries = es; next_seq = n })

-- `queue.Empty`, at once or after the timeout, is `none`
unfoldable pub get : MemoryTaskQueue → Option Request × MemoryTaskQueue
get q = pop q.entries q.next_seq

-- at most `n` rounds of `get_nowait`, up to the first that finds the queue empty
unfoldable pub get_up_to : ℕ → MemoryTaskQueue → List Request × MemoryTaskQueue
get_up_to zero q = ([], q)
get_up_to (suc n) q =
    let (found, q') = get q in
    elim found [ none ↦ ([], q') | some r ↦ let (rs, q'') = get_up_to n q' in (r ∷ rs, q'') ]

unfoldable pub get_batch : ℕ → MemoryTaskQueue → List Request × MemoryTaskQueue
get_batch count q = get_up_to (max 1 count) q

unfoldable pub qsize : MemoryTaskQueue → ℕ
qsize q = length q.entries

unfoldable pub is_empty : MemoryTaskQueue → Bool
is_empty q = nat_eq (qsize q) 0
