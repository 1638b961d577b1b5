-- ===== src/Batch/Counts.antt =====
-- `count_tasks` counts the rows by state, and a batch is finished when every row is settled.
use netspy.Base.{
  ◌+◌, ◌≤◌, ◌≡◌, Bool, true, false, ◌&&◌, List, [], ◌∷◌, if◌then◌else◌, arith, ltb, leb, length,
  tally, all,
}
use netspy.Batch.Store.{
  Task, TaskState, TaskCounts, MemoryBatchStore, todo, done, doing, failed, unknown, is_todo,
  is_doing, count_row, count_rows, count_tasks, settled, finished,
}

abbrev pub is_settled : TaskState → Bool
is_settled todo = false
is_settled doing = false
is_settled done = true
is_settled failed = true
is_settled (unknown n) = false

-- Counting one row adds to the total of settled rows exactly when it is settled.
count_row-settled :
    (state : TaskState) (c : TaskCounts)
    → (settled (count_row state c) ≡ settled c + (if is_settled state then 1 else 0))
      × ((count_row state c).total ≡ c.total)
      × ((count_row state c).todo_count ≡ c.todo_count + (if is_todo state then 1 else 0))
      × ((count_row state c).doing_count ≡ c.doing_count + (if is_doing state then 1 else 0))
unfolding settled
count_row-settled todo c = ground arith
count_row-settled doing c = ground arith
count_row-settled done c = ground arith
count_row-settled failed c = ground arith
count_row-settled (unknown n) c = ground arith

count_rows-settled :
    (ts : List Task) (c : TaskCounts)
    → (settled (count_rows ts c) ≡ settled c + tally (λ t. is_settled t.batch_status) ts)
      × ((count_rows ts c).total ≡ c.total)
      × ((count_rows ts c).todo_count ≡ c.todo_count + tally (λ t. is_todo t.batch_status) ts)
      × ((count_rows ts c).doing_count ≡ c.doing_count + tally (λ t. is_doing t.batch_status) ts)
count_rows-settled [] c = ground arith
count_rows-settled (t ∷ ts) c =
    let h = count_row-settled t.batch_status c in
    let k = count_rows-settled ts (count_row t.batch_status c) in
    (
      omega (arith, h.0, k.0),
      omega (arith, h.1, k.1),
      omega (arith, h.2, k.2),
      omega (arith, h.3, k.3),
    )

-- The counts are the numbers of rows in the states.
pub count_tasks-tally :
    (s : MemoryBatchStore)
    → let c = count_tasks s in
      (c.total ≡ length s.tasks)
      × (settled c ≡ tally (λ t. is_settled t.batch_status) s.tasks)
      × (c.todo_count ≡ tally (λ t. is_todo t.batch_status) s.tasks)
      × (c.doing_count ≡ tally (λ t. is_doing t.batch_status) s.tasks)
unfolding count_tasks settled
count_tasks-tally s =
    let h = count_rows-settled s.tasks (record {
      total = length s.tasks;
      todo_count = 0;
      doing_count = 0;
      done_count = 0;
      failed_count = 0;
    }) in
    (omega (arith, h.1), omega (arith, h.0), omega (arith, h.2), omega (arith, h.3))

tally-all :
    (ts : List Task)
    → (leb (length ts) (tally (λ t. is_settled t.batch_status) ts)
        ≡ all (λ t. is_settled t.batch_status) ts)
      × (tally (λ t. is_settled t.batch_status) ts ≤ length ts)
tally-all [] = ground arith
tally-all (t ∷ ts) = ground (arith, tally-all ts)

-- A batch with tasks is finished exactly when every row of the table is done or failed; one row that
-- waits, is in work or holds a state of its own keeps it open.
pub finished-all :
    (s : MemoryBatchStore)
    → finished (count_tasks s)
      ≡ ltb 0 (length s.tasks) && all (λ t. is_settled t.batch_status) s.tasks
unfolding finished
finished-all s = ground (arith, count_tasks-tally s, tally-all s.tasks)
