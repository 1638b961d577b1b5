-- ===== src/Batch/Claims.antt =====
-- What `claim_tasks` hands out: the rows to do, in the table's order, each once.
use netspy.Base.{ℕ, zero, suc, ◌≡◌, refl, List, [], ◌∷◌, map, arith, max, take, drop, select, ℕ_eq}
use netspy.Base.Dict.{Dict, insert}
use netspy.Batch.Store.{
  Task, MemoryBatchStore, doing, is_todo, with_state, with_tasks, claim_rows, claim_tasks,
}

-- the rows that wait to be claimed
unfoldable pub waiting : List Task → List Task
waiting ts = select (λ t. is_todo t.batch_status) ts

-- the claimed rows and the rows that still wait after
claim_rows-waiting :
    (now room : ℕ) (ts : List Task) (touched : Dict ℕ ℕ)
    → (claim_rows now room ts touched).0 ≡ map (with_state doing) (take room (waiting ts))
unfolding waiting
claim_rows-waiting now zero ts touched = refl
claim_rows-waiting now (suc room) [] touched = refl
claim_rows-waiting now (suc room) (t ∷ ts) touched = ground (
  arith,
  claim_rows-waiting now room ts (insert t.id now touched),
  claim_rows-waiting now (suc room) ts touched,
)

claim_rows-rest :
    (now room : ℕ) (ts : List Task) (touched : Dict ℕ ℕ)
    → waiting (claim_rows now room ts touched).1 ≡ drop room (waiting ts)
unfolding waiting with_state
claim_rows-rest now zero ts touched = refl
claim_rows-rest now (suc room) [] touched = refl
claim_rows-rest now (suc room) (t ∷ ts) touched = ground (
  arith,
  claim_rows-rest now room ts (insert t.id now touched),
  claim_rows-rest now (suc room) ts touched,
)

-- A claim of at most `limit` tasks (at least one) returns the first rows to do, as they stand in the table
-- after it, and leaves exactly the other rows to do for later claims: a row is handed out once, and
-- none is passed over.
pub claim_tasks-waiting :
    (now limit : ℕ) (s : MemoryBatchStore)
    → let after = claim_tasks now limit s in
      (after.0 ≡ map (with_state doing) (take (max 1 limit) (waiting s.tasks)))
      × (waiting after.1.tasks ≡ drop (max 1 limit) (waiting s.tasks))
unfolding claim_tasks with_tasks
claim_tasks-waiting now limit s = (
  claim_rows-waiting now (max 1 limit) s.tasks s.touched,
  claim_rows-rest now (max 1 limit) s.tasks s.touched,
)
