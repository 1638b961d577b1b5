-- ===== src/Redis/SortedSet.antt =====
-- Redis sorted sets, with the commands that the queue's scripts issue. Scores are deadlines in
-- milliseconds and priorities, as natural numbers.
use netspy.Base.{
  ℕ, String, ◌≡◌, ◌&&◌, some, none, List, take, drop, length, if◌then◌else◌, ◌==◌, String_eq,
  nat_eq,
}
use netspy.Base.Dict.{lookup, has}
use netspy.Redis.Rows.{Rows, Distinct, Ascending, members, up_to}

pub record SortedSets : Type 1 where
  -- the value of a key
  pub Z : Type 0
  pub rows : Z → Rows
  pub nil : Z
  pub zadd : ℕ → String → Z → Z
  -- ZADD XX CH: the number of changed members, and the set
  pub zadd_xx_ch : ℕ → String → Z → ℕ × Z
  pub zrem : String → Z → Z
  pub zpopmin : ℕ → Z → Rows × Z
  pub zrange_by_score : ℕ → ℕ → Z → List String
  pub zcard : Z → ℕ
  pub rows-nil : rows nil ≡ List.[]
  pub Distinct-rows : (z : Z) → Distinct (members (rows z))
  pub Ascending-rows : (z : Z) → Ascending (rows z)
  pub lookup-zadd :
      (s : ℕ) (m j : String) (z : Z)
      → lookup j (rows (zadd s m z)) ≡ (if m == j then some s else lookup j (rows z))
  pub lookup-zadd_xx :
      (s : ℕ) (m j : String) (z : Z)
      → lookup j (rows (zadd_xx_ch s m z).1)
        ≡ (if m == j && has m (rows z) then some s else lookup j (rows z))
  pub count-zadd_xx :
      (s : ℕ) (m : String) (z : Z)
      → (zadd_xx_ch s m z).0
        ≡ (elim (lookup m (rows z)) [ none ↦ 0 | some t ↦ if nat_eq t s then 0 else 1 ])
  pub lookup-zrem :
      (m j : String) (z : Z)
      → lookup j (rows (zrem m z)) ≡ (if m == j then none else lookup j (rows z))
  pub zpopmin_popped : (n : ℕ) (z : Z) → (zpopmin n z).0 ≡ take n (rows z)
  pub zpopmin_left : (n : ℕ) (z : Z) → rows (zpopmin n z).1 ≡ drop n (rows z)
  pub zrange_lem :
      (hi limit : ℕ) (z : Z) → zrange_by_score hi limit z ≡ take limit (up_to hi (rows z))
  pub zcard_lem : (z : Z) → zcard z ≡ length (rows z)
