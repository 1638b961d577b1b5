-- ===== src/Batch/Store.antt =====
-- core/batch_store.py: the rows, the counts and `MemoryBatchStore`. Every operation runs under the store's
-- lock. Times are whole seconds; a task id is a number.
use netspy.Base.{
  ℕ, zero, suc, ◌+◌, ◌-◌, String, Bool, true, false, ◌&&◌, Option, none, some, List, [], ◌∷◌, ◌++◌,
  map, if◌then◌else◌, leb, ltb, max, length, ◌==◌, ℕ_eq,
}
use netspy.Base.Dict.{Dict, lookup_or, insert}

-- the state column: 0, 1, 2, -1, and any other number that a row may hold
pub data TaskState : Type 0 where
  todo done doing failed : TaskState
  unknown : ℕ → TaskState

pub record Task : Type 0 where
  pub id : ℕ
  pub batch_status : TaskState
  -- the other columns
  pub columns : Dict String String

pub record BatchRecord : Type 0 where
  pub id : ℕ
  pub batch_date : String
  pub total_count : ℕ
  pub done_count : ℕ
  pub fail_count : ℕ
  pub interval : ℕ
  pub interval_unit : String
  pub is_done : Bool

pub record TaskCounts : Type 0 where
  pub total : ℕ
  pub todo_count : ℕ
  pub doing_count : ℕ
  pub done_count : ℕ
  pub failed_count : ℕ

unfoldable pub settled : TaskCounts → ℕ
settled c = c.done_count + c.failed_count

unfoldable pub finished : TaskCounts → Bool
finished c = ltb 0 c.total && leb c.total (settled c)

pub record MemoryBatchStore : Type 0 where
  pub tasks : List Task
  pub touched : Dict ℕ ℕ
  pub batches : List BatchRecord
  pub created_at : Dict ℕ ℕ
  pub seq : ℕ

-- `__init__`, for rows whose state column is set: `setdefault` leaves those as they are
unfoldable pub store_of : List Task → MemoryBatchStore
store_of tasks = record { tasks = tasks; touched = []; batches = []; created_at = []; seq = 0 }

unfoldable pub with_state : TaskState → Task → Task
with_state s t = record { id = t.id; batch_status = s; columns = t.columns }

abbrev pub is_todo : TaskState → Bool
is_todo todo = true
is_todo done = false
is_todo doing = false
is_todo failed = false
is_todo (unknown n) = false

abbrev pub is_doing : TaskState → Bool
is_doing todo = false
is_doing done = false
is_doing doing = true
is_doing failed = false
is_doing (unknown n) = false

abbrev pub last : List BatchRecord → Option BatchRecord
last [] = none
last (b ∷ []) = some b
last (b ∷ c ∷ bs) = last (c ∷ bs)

unfoldable pub latest_batch : MemoryBatchStore → Option BatchRecord
latest_batch s = last s.batches

unfoldable pub batch_age_seconds : ℕ → ℕ → MemoryBatchStore → ℕ
batch_age_seconds now batch_id s = now - lookup_or now batch_id s.created_at

unfoldable pub create_batch :
    ℕ → String → ℕ → ℕ → String → MemoryBatchStore → BatchRecord × MemoryBatchStore
create_batch now batch_date total interval unit s =
    let id = s.seq + 1 in
    let batch : BatchRecord = record {
      id = id;
      batch_date = batch_date;
      total_count = total;
      done_count = 0;
      fail_count = 0;
      interval = interval;
      interval_unit = unit;
      is_done = false;
    } in
    (
      batch,
      record {
        tasks = s.tasks;
        touched = s.touched;
        batches = s.batches ++ (batch ∷ []);
        created_at = insert id now s.created_at;
        seq = id;
      },
    )

-- one record's turn in the loops of `update_batch_counts` and `finish_batch`
unfoldable pub set_counts : ℕ → ℕ → ℕ → ℕ → BatchRecord → BatchRecord
set_counts batch_id n_done n_failed n_total b =
    if b.id == batch_id
    then record {
      id = b.id;
      batch_date = b.batch_date;
      total_count = n_total;
      done_count = n_done;
      fail_count = n_failed;
      interval = b.interval;
      interval_unit = b.interval_unit;
      is_done = b.is_done;
    }
    else b

unfoldable pub set_done : ℕ → BatchRecord → BatchRecord
set_done batch_id b =
    if b.id == batch_id
    then record {
      id = b.id;
      batch_date = b.batch_date;
      total_count = b.total_count;
      done_count = b.done_count;
      fail_count = b.fail_count;
      interval = b.interval;
      interval_unit = b.interval_unit;
      is_done = true;
    }
    else b

unfoldable pub with_batches : List BatchRecord → MemoryBatchStore → MemoryBatchStore
with_batches batches s = record {
  tasks = s.tasks;
  touched = s.touched;
  batches = batches;
  created_at = s.created_at;
  seq = s.seq;
}

unfoldable pub with_tasks : List Task → Dict ℕ ℕ → MemoryBatchStore → MemoryBatchStore
with_tasks tasks touched s = record {
  tasks = tasks;
  touched = touched;
  batches = s.batches;
  created_at = s.created_at;
  seq = s.seq;
}

unfoldable pub update_batch_counts : ℕ → ℕ → ℕ → ℕ → MemoryBatchStore → MemoryBatchStore
update_batch_counts batch_id n_done n_failed n_total s =
    with_batches (map (set_counts batch_id n_done n_failed n_total) s.batches) s

unfoldable pub finish_batch : ℕ → MemoryBatchStore → MemoryBatchStore
finish_batch batch_id s = with_batches (map (set_done batch_id) s.batches) s

-- one row's turn in the loop of `count_tasks`
abbrev pub count_row : TaskState → TaskCounts → TaskCounts
count_row todo c = record {
  total = c.total;
  todo_count = c.todo_count + 1;
  doing_count = c.doing_count;
  done_count = c.done_count;
  failed_count = c.failed_count;
}
count_row doing c = record {
  total = c.total;
  todo_count = c.todo_count;
  doing_count = c.doing_count + 1;
  done_count = c.done_count;
  failed_count = c.failed_count;
}
count_row done c = record {
  total = c.total;
  todo_count = c.todo_count;
  doing_count = c.doing_count;
  done_count = c.done_count + 1;
  failed_count = c.failed_count;
}
count_row failed c = record {
  total = c.total;
  todo_count = c.todo_count;
  doing_count = c.doing_count;
  done_count = c.done_count;
  failed_count = c.failed_count + 1;
}
count_row (unknown n) c = c

abbrev pub count_rows : List Task → TaskCounts → TaskCounts
count_rows [] c = c
count_rows (t ∷ ts) c = count_rows ts (count_row t.batch_status c)

unfoldable pub count_tasks : MemoryBatchStore → TaskCounts
count_tasks s = count_rows s.tasks (record {
  total = length s.tasks;
  todo_count = 0;
  doing_count = 0;
  done_count = 0;
  failed_count = 0;
})

unfoldable pub reset_all_tasks : MemoryBatchStore → MemoryBatchStore
reset_all_tasks s = with_tasks (map (with_state todo) s.tasks) [] s

unfoldable pub is_lost : ℕ → ℕ → Dict ℕ ℕ → Task → Bool
is_lost now stale_seconds touched t =
    is_doing t.batch_status && leb stale_seconds (now - lookup_or now t.id touched)

-- the loop of `reset_lost_tasks`, with the number of rows that it resets
abbrev pub reset_rows : ℕ → ℕ → Dict ℕ ℕ → List Task → ℕ × List Task
reset_rows now stale_seconds touched [] = (0, [])
reset_rows now stale_seconds touched (t ∷ ts) =
    let rest = reset_rows now stale_seconds touched ts in
    if is_lost now stale_seconds touched t
    then (rest.0 + 1, with_state todo t ∷ rest.1)
    else (rest.0, t ∷ rest.1)

unfoldable pub reset_lost_tasks : ℕ → ℕ → MemoryBatchStore → ℕ × MemoryBatchStore
reset_lost_tasks now stale_seconds s =
    let reset = reset_rows now stale_seconds s.touched s.tasks in
    (reset.0, with_tasks reset.1 s.touched s)

-- The loop of `claim_tasks`: what it claims, the rows and the touch times. It stops after `room` more.
abbrev pub claim_rows : ℕ → ℕ → List Task → Dict ℕ ℕ → List Task × List Task × Dict ℕ ℕ
claim_rows now zero ts touched = ([], ts, touched)
claim_rows now (suc room) [] touched = ([], [], touched)
claim_rows now (suc room) (t ∷ ts) touched =
    let taken = claim_rows now room ts (insert t.id now touched) in
    let passed = claim_rows now (suc room) ts touched in
    if is_todo t.batch_status
    then (with_state doing t ∷ taken.0, with_state doing t ∷ taken.1, taken.2)
    else (passed.0, t ∷ passed.1, passed.2)

unfoldable pub claim_tasks : ℕ → ℕ → MemoryBatchStore → List Task × MemoryBatchStore
claim_tasks now limit s =
    let claimed = claim_rows now (max 1 limit) s.tasks s.touched in
    (claimed.0, with_tasks claimed.1 claimed.2 s)

-- the loop of `mark_task`: the first row with the id, and whether there is one
abbrev pub mark_rows : ℕ → TaskState → List Task → Bool × List Task
mark_rows task_id state [] = (false, [])
mark_rows task_id state (t ∷ ts) =
    let rest = mark_rows task_id state ts in
    if t.id == task_id then (true, with_state state t ∷ ts) else (rest.0, t ∷ rest.1)

unfoldable pub mark_task : ℕ → ℕ → TaskState → MemoryBatchStore → MemoryBatchStore
mark_task now task_id state s =
    let marked = mark_rows task_id state s.tasks in
    with_tasks marked.1 (if marked.0 then insert task_id now s.touched else s.touched) s
