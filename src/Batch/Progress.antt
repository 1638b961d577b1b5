-- ===== src/Batch/Progress.antt =====
-- What a round of the master does to the batch: what it pushes, and when it ends the batch.
use netspy.Base.{
  ℕ, suc, ◌≡◌, refl, ap, ◌∙◌, String, false, some, List, [], ◌∷◌, ◌++◌, map, arith, max, take, drop,
  length,
}
use netspy.Batch.Store.{
  Task, BatchRecord, todo, doing, with_state, with_tasks, with_batches, last, latest_batch,
  update_batch_counts, finish_batch, create_batch, reset_lost_tasks, reset_all_tasks,
}
use netspy.Batch.Claims.{waiting, claim_tasks-waiting}
use netspy.Batch.Counts.{count_tasks-tally}
use netspy.Batch.Lost.{recovered, reset_lost_tasks-lost}
use netspy.Batch.Monitor.{Settings, Master, tick_claim, tick, open_batch}

tick-tasks :
    (m : Settings) (now : ℕ) (batch : BatchRecord) (s : Master)
    → let after = tick m now batch s in
      (after.1.store.tasks ≡ (tick_claim m now s).1.tasks)
      × (after.1.pending ≡ s.pending ++ (tick_claim m now s).0)
unfolding tick update_batch_counts finish_batch with_batches
tick-tasks m now batch s = ground arith

-- A round appends to the queue the first rows to do, at most `push_limit` (at least one), where the rows
-- that were lost count as rows to do again; exactly the other rows to do are left for the next round.
pub tick-waiting :
    (m : Settings) (now : ℕ) (batch : BatchRecord) (s : Master)
    → let before = waiting (map (recovered now m.lost_stale s.store.touched) s.store.tasks) in
      let after = (tick m now batch s).1 in
      (after.pending ≡ s.pending ++ map (with_state doing) (take (max 1 m.push_limit) before))
      × (waiting after.store.tasks ≡ drop (max 1 m.push_limit) before)
tick-waiting m now batch s =
    let h = claim_tasks-waiting now m.push_limit (reset_lost_tasks now m.lost_stale s.store).1 in
    let k = reset_lost_tasks-lost now m.lost_stale s.store in
    let t = tick-tasks m now batch s in
    unfold tick_claim in (rw (t.1, h.0, k.0), rw (t.0, h.1, k.0))

last-append : (bs : List BatchRecord) (b : BatchRecord) → last (bs ++ (b ∷ [])) ≡ some b
last-append [] b = refl
last-append (c ∷ []) b = refl
last-append (c ∷ d ∷ bs) b = last-append (d ∷ bs) b

length-map : (f : Task → Task) (ts : List Task) → length (map f ts) ≡ length ts
length-map f [] = refl
length-map f (t ∷ ts) = ap suc (length-map f ts)

waiting-todo : (ts : List Task) → waiting (map (with_state todo) ts) ≡ map (with_state todo) ts
unfolding waiting with_state
waiting-todo [] = refl
waiting-todo (t ∷ ts) = rw (waiting-todo ts)

-- A new batch starts with every row to do, an empty queue and no done flag, whatever the last batch left.
pub open_batch-waiting :
    (m : Settings) (now : ℕ) (batch_date : String) (s : Master)
    → let after = (open_batch m now batch_date s).1 in
      (waiting after.store.tasks ≡ map (with_state todo) s.store.tasks)
      × (after.pending ≡ [])
      × (after.done_flag ≡ false)
      × (latest_batch after.store ≡ some (open_batch m now batch_date s).0)
      × ((open_batch m now batch_date s).0.total_count ≡ length s.store.tasks)
unfolding open_batch create_batch reset_all_tasks with_tasks latest_batch
open_batch-waiting m now batch_date s = (
  waiting-todo s.store.tasks,
  refl,
  refl,
  last-append s.store.batches (open_batch m now batch_date s).0,
  (count_tasks-tally (reset_all_tasks s.store)).0 ∙ length-map (with_state todo) s.store.tasks,
)
