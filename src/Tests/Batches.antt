-- ===== src/Tests/Batches.antt =====
-- Runs of core/batch_store.py and core/batch_monitor.py on a table of four tasks.
use netspy.Base.{
  ℕ, refl, ◌≡◌, false, List, [], ◌∷◌, map, max, take, drop, some, ◌+◌, ◌<◌, Bool, true, String,
  Option, none, ltb, arith, if◌then◌else◌, String_eq,
}
use netspy.Batch.Store.{
  Task, BatchRecord, MemoryBatchStore, todo, done, doing, with_state, claim_tasks,
}
use netspy.Batch.Claims.{waiting, claim_tasks-waiting}
use netspy.Batch.Lock.{LockKey, Attempt, holds, renews, releases}
use netspy.Batch.Monitor.{Settings, Master}

abbrev table : List Task
table =
    record { id = 1; batch_status = done; columns = [] }
    ∷ record { id = 2; batch_status = todo; columns = [] }
    ∷ record { id = 3; batch_status = doing; columns = [] }
    ∷ record { id = 4; batch_status = todo; columns = [] }
    ∷ []

abbrev store : MemoryBatchStore
store = record { tasks = table; touched = (3, 100) ∷ []; batches = []; created_at = []; seq = 0 }

abbrev settings : Settings
settings = record { batch_interval = 1; interval_unit = "day"; lost_stale = 600; push_limit = 1 }

abbrev master : Master
master = record { store = store; pending = []; done_flag = false }

abbrev batch : BatchRecord
batch = record {
  id = 1;
  batch_date = "2024-01-01";
  total_count = 4;
  done_count = 0;
  fail_count = 0;
  interval = 1;
  interval_unit = "day";
  is_done = false;
}

claim_tasks-waiting_example :
    ((claim_tasks 50 1 store).0 ≡ map (with_state doing) (take (max 1 1) (waiting table)))
    × (waiting (claim_tasks 50 1 store).1.tasks ≡ drop (max 1 1) (waiting table))
claim_tasks-waiting_example = claim_tasks-waiting 50 1 store

abbrev value_at : ℕ → Option (ℕ × String) → Option String
value_at now none = none
value_at now (some p) = if ltb now p.0 then some p.1 else none

abbrev set_if : Option String → ℕ → String → Option (ℕ × String) → Bool × Option (ℕ × String)
set_if none end v c = (true, some (end, v))
set_if (some w) end v c = (false, c)

abbrev prolong : ℕ → Option (ℕ × String) → Option (ℕ × String)
prolong end none = none
prolong end (some p) = some (end, p.1)

taken :
    (now ttl : ℕ) (v w : String) (c : Option (ℕ × String))
    → value_at now c ≡ some w
    → set_if (value_at now c) (now + ttl) v c ≡ (false, c)
taken now ttl v w c e = rw e refl

free :
    (now ttl later : ℕ) (v : String) (c : Option (ℕ × String))
    → value_at now c ≡ none
    → ((set_if (value_at now c) (now + ttl) v c).0 ≡ true)
      × (later < now + ttl → value_at later (set_if (value_at now c) (now + ttl) v c).1 ≡ some v)
free now ttl later v c e = rw e (refl, λ h. ground (arith, h))

prolonged :
    (now ttl later : ℕ) (w : String) (c : Option (ℕ × String))
    → value_at now c ≡ some w
    → later < now + ttl
    → value_at later (prolong (now + ttl) c) ≡ some w
prolonged now ttl later w none e h = ground (arith, e)
prolonged now ttl later w (some p) e h = ground (arith, e, h)

abbrev lock_key : LockKey
lock_key = record {
  Cell = Option (ℕ × String);
  get = value_at;
  set_nx_ex = λ now v ttl c. set_if (value_at now c) (now + ttl) v c;
  expire = λ now ttl c. prolong (now + ttl) c;
  del = λ c. none;
  set_nx_taken = taken;
  set_nx_free = free;
  get-expire = prolonged;
}

abbrev rivals : List Attempt
rivals = holds 101 "b" ∷ renews 110 "b" ∷ releases 120 "b" ∷ []
