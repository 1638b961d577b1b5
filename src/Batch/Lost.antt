-- ===== src/Batch/Lost.antt =====
-- What `reset_lost_tasks` and `reset_all_tasks` do to the rows.
use netspy.Base.{ℕ, ◌≡◌, refl, List, [], ◌∷◌, map, if◌then◌else◌, arith, tally, ℕ_eq}
use netspy.Base.Dict.{Dict}
use netspy.Batch.Store.{
  Task, MemoryBatchStore, todo, with_state, with_tasks, is_lost, reset_rows, reset_lost_tasks,
}

-- a row after the reset
unfoldable pub recovered : ℕ → ℕ → Dict ℕ ℕ → Task → Task
recovered now stale_seconds touched t =
    if is_lost now stale_seconds touched t then with_state todo t else t

reset_rows-map :
    (now stale_seconds : ℕ) (touched : Dict ℕ ℕ) (ts : List Task)
    → (reset_rows now stale_seconds touched ts).1 ≡ map (recovered now stale_seconds touched) ts
unfolding recovered
reset_rows-map now stale_seconds touched [] = refl
reset_rows-map now stale_seconds touched (t ∷ ts) =
    ground (arith, reset_rows-map now stale_seconds touched ts)

reset_rows-tally :
    (now stale_seconds : ℕ) (touched : Dict ℕ ℕ) (ts : List Task)
    → ((reset_rows now stale_seconds touched ts).0 ≡ tally (is_lost now stale_seconds touched) ts)
      × (tally (is_lost now stale_seconds touched) (reset_rows now stale_seconds touched ts).1 ≡ 0)
unfolding is_lost with_state
reset_rows-tally now stale_seconds touched [] = (refl, refl)
reset_rows-tally now stale_seconds touched (t ∷ ts) =
    ground (arith, reset_rows-tally now stale_seconds touched ts)

-- The reset puts exactly the rows that have been in work for `stale_seconds` or longer back to do, leaves
-- every other row as it is, returns their number, and leaves no lost row behind.
pub reset_lost_tasks-lost :
    (now stale_seconds : ℕ) (s : MemoryBatchStore)
    → let after = reset_lost_tasks now stale_seconds s in
      (after.1.tasks ≡ map (recovered now stale_seconds s.touched) s.tasks)
      × (after.0 ≡ tally (is_lost now stale_seconds s.touched) s.tasks)
      × (tally (is_lost now stale_seconds after.1.touched) after.1.tasks ≡ 0)
unfolding reset_lost_tasks with_tasks
reset_lost_tasks-lost now stale_seconds s = (
  reset_rows-map now stale_seconds s.touched s.tasks,
  (reset_rows-tally now stale_seconds s.touched s.tasks).0,
  (reset_rows-tally now stale_seconds s.touched s.tasks).1,
)
