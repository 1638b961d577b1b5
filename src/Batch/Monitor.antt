-- ===== src/Batch/Monitor.antt =====
-- core/batch_monitor.py: the master's rounds. `pending` is the Redis list of tasks to fetch, `done_flag`
-- the key `<ns>:batch_done`. Rows are pushed as they are; the JSON text of a row stands for the row.
use netspy.Base.{
  ℕ, ◌*◌, String, Bool, true, false, ◌&&◌, ◌||◌, not, Option, none, some, List, [], ◌++◌,
  if◌then◌else◌, ltb, nat_eq, ◌==◌, String_eq,
}
use netspy.Batch.Store.{
  Task, BatchRecord, MemoryBatchStore, latest_batch, batch_age_seconds, create_batch,
  update_batch_counts, finish_batch, count_tasks, finished, reset_all_tasks, reset_lost_tasks,
  claim_tasks,
}

pub record Settings : Type 0 where
  pub batch_interval : ℕ
  pub interval_unit : String
  pub lost_stale : ℕ
  pub push_limit : ℕ

pub record Master : Type 0 where
  pub store : MemoryBatchStore
  pub pending : List Task
  pub done_flag : Bool

unfoldable pub interval_seconds : Settings → ℕ
interval_seconds m = m.batch_interval * (if m.interval_unit == "day" then 86400 else 3600)

-- `_ensure_batch` after its early returns. `batch_date` is the date of today.
unfoldable pub open_batch : Settings → ℕ → String → Master → BatchRecord × Master
open_batch m now batch_date s =
    let store = reset_all_tasks s.store in
    let created =
      create_batch now batch_date (count_tasks store).total m.batch_interval m.interval_unit
        store in
    (created.0, record { store = created.1; pending = []; done_flag = false })

abbrev pub ensure_after :
    Option BatchRecord → Settings → Bool → ℕ → String → Master → Option BatchRecord × Master
ensure_after none m force now batch_date s =
    (some (open_batch m now batch_date s).0, (open_batch m now batch_date s).1)
ensure_after (some latest) m force now batch_date s =
    let opened = open_batch m now batch_date s in
    if not latest.is_done
    then (some latest, s)
    else if not force && ltb (batch_age_seconds now latest.id s.store) (interval_seconds m)
    then (none, s)
    else (some opened.0, opened.1)

unfoldable pub ensure_batch : Settings → Bool → ℕ → String → Master → Option BatchRecord × Master
ensure_batch m force now batch_date s = ensure_after (latest_batch s.store) m force now batch_date s

-- the store after the round's reset, and what the round then claims
unfoldable pub tick_claim : Settings → ℕ → Master → List Task × MemoryBatchStore
tick_claim m now s = claim_tasks now m.push_limit (reset_lost_tasks now m.lost_stale s.store).1

unfoldable pub tick : Settings → ℕ → BatchRecord → Master → Bool × Master
tick m now batch s =
    let claimed = tick_claim m now s in
    let pending = s.pending ++ claimed.0 in
    let counts = count_tasks claimed.1 in
    let store =
      update_batch_counts batch.id counts.done_count counts.failed_count counts.total claimed.1 in
    if nat_eq counts.total 0 || finished counts
    then (true, record { store = finish_batch batch.id store; pending = pending; done_flag = true })
    else (false, record { store = store; pending = pending; done_flag = s.done_flag })
