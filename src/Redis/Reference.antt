-- ===== src/Redis/Reference.antt =====
-- An implementation of the sorted-set interface by sorted rows, for the examples.
use netspy.Base.{
  ℕ, zero, suc, ◌≤◌, String, ◌≡◌, refl, false, ◌||◌, ◌&&◌, Option, none, some, [], ◌∷◌, arith, ltb,
  if◌then◌else◌, ◌==◌, ==_iff, String_eq, nat_eq, take, drop, length,
}
use netspy.Base.Dict.{lookup, has, remove, lookup-remove}
use netspy.Redis.Rows.{
  Rows, Distinct, Ascending, AtLeast, members, contains, up_to, contains-members,
}
use netspy.Redis.SortedSet.{SortedSets}

unfoldable pub insert_row : ℕ → String → Rows → Rows
insert_row s m [] = (m, s) ∷ []
insert_row s m ((j, t) ∷ rs) = if ltb s t then (m, s) ∷ (j, t) ∷ rs else (j, t) ∷ insert_row s m rs

AtLeast-trans : (s t : ℕ) (rs : Rows) → s ≤ t → AtLeast t rs → AtLeast s rs
AtLeast-trans s t [] h a = tt
AtLeast-trans s t (r ∷ rs) h a = (omega arith, AtLeast-trans s t rs h a.1)

AtLeast-insert :
    (b s : ℕ) (m : String) (rs : Rows) → b ≤ s → AtLeast b rs → AtLeast b (insert_row s m rs)
unfolding insert_row
AtLeast-insert b s m [] h a = (h, tt)
AtLeast-insert b s m ((j, t) ∷ rs) h a = ground (arith, AtLeast-insert b s m rs h a.1)

pub Ascending-insert :
    (s : ℕ) (m : String) (rs : Rows) → Ascending rs → Ascending (insert_row s m rs)
unfolding insert_row
Ascending-insert s m [] a = (tt, tt)
Ascending-insert s m ((j, t) ∷ rs) a =
    ground (arith, AtLeast-trans s t rs, AtLeast-insert t s m rs, Ascending-insert s m rs a.1)

AtLeast-remove : (b : ℕ) (m : String) (rs : Rows) → AtLeast b rs → AtLeast b (remove m rs)
unfolding remove
AtLeast-remove b m [] a = tt
AtLeast-remove b m ((j, t) ∷ rs) a = ground (arith, AtLeast-remove b m rs a.1)

pub Ascending-remove : (m : String) (rs : Rows) → Ascending rs → Ascending (remove m rs)
unfolding remove
Ascending-remove m [] a = tt
Ascending-remove m ((j, t) ∷ rs) a =
    ground (arith, AtLeast-remove t m rs a.0, Ascending-remove m rs a.1)

has-remove : (m j : String) (rs : Rows) → has j rs ≡ false → has j (remove m rs) ≡ false
unfolding has remove
has-remove m j [] h = refl
has-remove m j ((i, t) ∷ rs) h = ground (arith, has-remove m j rs)

pub has-remove_self : (m : String) (rs : Rows) → has m (remove m rs) ≡ false
unfolding has remove
has-remove_self m [] = refl
has-remove_self m ((i, t) ∷ rs) = ground (arith, has-remove_self m rs)

pub Distinct-remove :
    (m : String) (rs : Rows) → Distinct (members rs) → Distinct (members (remove m rs))
unfolding remove
Distinct-remove m [] d = tt
Distinct-remove m ((j, t) ∷ rs) d = ground (
  arith,
  Distinct-remove m rs d.1,
  has-remove m j rs,
  contains-members j rs,
  contains-members j (remove m rs),
)

has-insert : (s : ℕ) (m j : String) (rs : Rows) → has j (insert_row s m rs) ≡ ((m == j) || has j rs)
unfolding has insert_row
has-insert s m j [] = ground arith
has-insert s m j ((i, t) ∷ rs) = ground (arith, has-insert s m j rs)

pub Distinct-insert :
    (s : ℕ) (m : String) (rs : Rows)
    → has m rs ≡ false
    → Distinct (members rs)
    → Distinct (members (insert_row s m rs))
unfolding insert_row has contains
Distinct-insert s m [] h d = (refl, tt)
Distinct-insert s m ((j, t) ∷ rs) h d = ground (
  arith,
  Distinct-insert s m rs,
  contains-members m rs,
  contains-members j rs,
  contains-members j (insert_row s m rs),
  has-insert s m j rs,
  ==_iff j m,
  ==_iff m j,
)

lookup-insert_row :
    (s : ℕ) (m j : String) (rs : Rows)
    → has m rs ≡ false
    → lookup j (insert_row s m rs) ≡ (if m == j then some s else lookup j rs)
unfolding insert_row lookup has
lookup-insert_row s m j [] h = refl
lookup-insert_row s m j ((i, t) ∷ rs) h =
    ground (arith, lookup-insert_row s m j rs, ==_iff i j, ==_iff m j, ==_iff i m)

pub Distinct-drop : (n : ℕ) (rs : Rows) → Distinct (members rs) → Distinct (members (drop n rs))
Distinct-drop zero rs d = d
Distinct-drop (suc n) [] d = tt
Distinct-drop (suc n) (r ∷ rs) d = Distinct-drop n rs d.1

pub Ascending-drop : (n : ℕ) (rs : Rows) → Ascending rs → Ascending (drop n rs)
Ascending-drop zero rs d = d
Ascending-drop (suc n) [] d = tt
Ascending-drop (suc n) (r ∷ rs) d = Ascending-drop n rs d.1

pub record SortedRows : Type 0 where
  pub rows : Rows
  pub distinct : Distinct (members rows)
  pub ascending : Ascending rows

unfoldable pub put : ℕ → String → SortedRows → SortedRows
unfolding insert_row
put s m z = record {
  rows = insert_row s m (remove m z.rows);
  distinct =
      Distinct-insert s m (remove m z.rows) (has-remove_self m z.rows)
        (Distinct-remove m z.rows z.distinct);
  ascending = Ascending-insert s m (remove m z.rows) (Ascending-remove m z.rows z.ascending);
}

unfoldable pub without : String → SortedRows → SortedRows
without m z = record {
  rows = remove m z.rows;
  distinct = Distinct-remove m z.rows z.distinct;
  ascending = Ascending-remove m z.rows z.ascending;
}

unfoldable pub after_pop : ℕ → SortedRows → SortedRows
after_pop n z = record {
  rows = drop n z.rows;
  distinct = Distinct-drop n z.rows z.distinct;
  ascending = Ascending-drop n z.rows z.ascending;
}

changed : ℕ → Option ℕ → ℕ
changed s none = 0
changed s (some t) = if nat_eq t s then 0 else 1

unfoldable pub put_xx : ℕ → String → SortedRows → ℕ × SortedRows
unfolding changed put
put_xx s m z = (changed s (lookup m z.rows), (if has m z.rows then put s m z else z))

abbrev nothing : SortedRows
nothing = record { rows = []; distinct = tt; ascending = tt }

pub lookup-put :
    (s : ℕ) (m j : String) (z : SortedRows)
    → lookup j (put s m z).rows ≡ (if m == j then some s else lookup j z.rows)
unfolding put
lookup-put s m j z = ground (
  arith,
  lookup-insert_row s m j (remove m z.rows) (has-remove_self m z.rows),
  lookup-remove m j z.rows,
)

pub lookup-put_xx :
    (s : ℕ) (m j : String) (z : SortedRows)
    → lookup j (put_xx s m z).1.rows ≡ (if m == j && has m z.rows then some s else lookup j z.rows)
unfolding put_xx
lookup-put_xx s m j z = ground (arith, lookup-put s m j z)

pub count-put_xx :
    (s : ℕ) (m : String) (z : SortedRows)
    → (put_xx s m z).0
      ≡ (elim (lookup m z.rows) [ none ↦ 0 | some t ↦ if nat_eq t s then 0 else 1 ])
unfolding put_xx
count-put_xx s m z = ground arith

pub lookup-without :
    (m j : String) (z : SortedRows)
    → lookup j (without m z).rows ≡ (if m == j then none else lookup j z.rows)
unfolding without
lookup-without m j z = lookup-remove m j z.rows

pub left-pop : (n : ℕ) (z : SortedRows) → (after_pop n z).rows ≡ drop n z.rows
unfolding after_pop
left-pop n z = refl

abbrev pub sorted_rows : SortedSets
sorted_rows = record {
  Z = SortedRows;
  rows = λ z. z.rows;
  nil = nothing;
  zadd = put;
  zadd_xx_ch = put_xx;
  zrem = without;
  zpopmin = λ n z. (take n z.rows, after_pop n z);
  zrange_by_score = λ hi limit z. take limit (up_to hi z.rows);
  zcard = λ z. length z.rows;
  rows-nil = refl;
  Distinct-rows = λ z. z.distinct;
  Ascending-rows = λ z. z.ascending;
  lookup-zadd = lookup-put;
  lookup-zadd_xx = lookup-put_xx;
  count-zadd_xx = count-put_xx;
  lookup-zrem = lookup-without;
  zpopmin_popped = λ n z. refl;
  zpopmin_left = left-pop;
  zrange_lem = λ hi limit z. refl;
  zcard_lem = λ z. refl;
}
