-- ===== src/Redis/Rows.antt =====
-- The view of a sorted set: members with their scores, lowest score first, each member once.
use netspy.Base.{
  ◌<◌, if◌then◌else◌, length, ap, ℕ, zero, suc, ◌≤◌, String, ◌≡◌, refl, Bool, true, false, ◌||◌,
  none, some, List, [], ◌∷◌, ◌++◌, map, arith, leb, if◌then◌else◌, ◌==◌, ==_iff, String_eq, take,
  drop, select,
}
use netspy.Base.Dict.{lookup, has, has-lookup}

abbrev pub Rows : Type 0
Rows = List (String × ℕ)

abbrev pub members : Rows → List String
members = map (λ r. r.0)

unfoldable pub contains : String → List String → Bool
contains m [] = false
contains m (x ∷ xs) = x == m || contains m xs

abbrev pub Distinct : List String → Type 0
Distinct [] = Unit {0}
Distinct (x ∷ xs) = (contains x xs ≡ false) × Distinct xs

-- Every score of the rows is at least `s`.
abbrev pub AtLeast : ℕ → Rows → Type 0
AtLeast s [] = Unit {0}
AtLeast s (r ∷ rs) = (s ≤ r.1) × AtLeast s rs

abbrev pub Ascending : Rows → Type 0
Ascending [] = Unit {0}
Ascending (r ∷ rs) = AtLeast r.1 rs × Ascending rs

-- ZRANGEBYSCORE key -inf `hi`, before its LIMIT.
abbrev pub up_to : ℕ → Rows → List String
up_to hi rs = members (select (λ r. leb r.1 hi) rs)

pub contains-append :
    (m : String) (xs ys : List String) → contains m (xs ++ ys) ≡ (contains m xs || contains m ys)
unfolding contains
contains-append m [] ys = refl
contains-append m (x ∷ xs) ys = ground (arith, contains-append m xs ys)

pub contains-members : (m : String) (rs : Rows) → contains m (members rs) ≡ has m rs
unfolding contains has
contains-members m [] = refl
contains-members m ((j, s) ∷ rs) = ground (arith, contains-members m rs)

-- Splitting the rows after `n` loses no member.
pub has_split :
    (m : String) (n : ℕ) (rs : Rows)
    → has m rs ≡ (contains m (members (take n rs)) || has m (drop n rs))
unfolding contains has
has_split m zero rs = refl
has_split m (suc n) [] = refl
has_split m (suc n) ((j, s) ∷ rs) = ground (arith, has_split m n rs)

-- A taken member is not among the rest.
pub taken_not_left :
    (m : String) (n : ℕ) (rs : Rows)
    → Distinct (members rs)
    → contains m (members (take n rs)) ≡ true
    → has m (drop n rs) ≡ false
unfolding contains has
taken_not_left m zero rs d h = cc
taken_not_left m (suc n) [] d h = refl
taken_not_left m (suc n) ((j, s) ∷ rs) d h =
    ground (arith, taken_not_left m n rs d.1, ==_iff j m, has_split m n rs, contains-members m rs)

-- A member that is left keeps its score.
pub lookup-drop :
    (m : String) (n : ℕ) (rs : Rows)
    → contains m (members (take n rs)) ≡ false
    → lookup m (drop n rs) ≡ lookup m rs
unfolding contains lookup
lookup-drop m zero rs h = refl
lookup-drop m (suc n) [] h = refl
lookup-drop m (suc n) ((j, s) ∷ rs) h = ground (arith, lookup-drop m n rs)

-- The members up to `hi` are those whose score is at most `hi`.
pub contains-up_to :
    (m : String) (hi : ℕ) (rs : Rows)
    → Distinct (members rs)
    → contains m (up_to hi rs) ≡ (elim (lookup m rs) [ none ↦ false | some s ↦ leb s hi ])
unfolding contains lookup has
contains-up_to m hi [] d = refl
contains-up_to m hi ((j, s) ∷ rs) d =
    ground (arith, contains-up_to m hi rs d.1, ==_iff j m, contains-members m rs, has-lookup m rs)

pub contains-take :
    (m : String) (n : ℕ) (xs : List String) → contains m (take n xs) ≡ true → contains m xs ≡ true
unfolding contains
contains-take m zero xs h = cc
contains-take m (suc n) [] h = cc
contains-take m (suc n) (x ∷ xs) h = ground (arith, contains-take m n xs)

pub take_all : (n : ℕ) (xs : List String) → length xs ≤ n → take n xs ≡ xs
take_all zero [] h = refl
take_all zero (x ∷ xs) h = absurd (omega arith)
take_all (suc n) [] h = refl
take_all (suc n) (x ∷ xs) h = ap (◌∷◌ x) (take_all n xs (omega arith))

pub length-up_to-le : (hi : ℕ) (rs : Rows) → length (up_to hi rs) ≤ length rs
length-up_to-le hi [] = omega arith
length-up_to-le hi (r ∷ rs) = ground (arith, length-up_to-le hi rs)

pub length-members-take : (n : ℕ) (rs : Rows) → length (members (take n rs)) ≤ n
length-members-take zero rs = omega arith
length-members-take (suc n) [] = omega arith
length-members-take (suc n) (r ∷ rs) = omega (arith, length-members-take n rs)

AtLeast-drop-lookup :
    (s n : ℕ) (rs : Rows) (k : String) (b : ℕ)
    → AtLeast s rs
    → lookup k (drop n rs) ≡ some b
    → s ≤ b
unfolding lookup
AtLeast-drop-lookup s zero [] k b a h = cc
AtLeast-drop-lookup s zero ((j, t) ∷ rs) k b a h =
    ground (arith, AtLeast-drop-lookup s zero rs k b a.1)
AtLeast-drop-lookup s (suc n) [] k b a h = cc
AtLeast-drop-lookup s (suc n) (r ∷ rs) k b a h = AtLeast-drop-lookup s n rs k b a.1 h

-- What is taken from the front scores no more than what is left.
pub take-le-drop :
    (n : ℕ) (rs : Rows) (m k : String) (a b : ℕ)
    → Ascending rs
    → contains m (members (take n rs)) ≡ true
    → lookup m rs ≡ some a
    → lookup k (drop n rs) ≡ some b
    → a ≤ b
unfolding contains lookup
take-le-drop zero rs m k a b h c e f = cc
take-le-drop (suc n) [] m k a b h c e f = cc
take-le-drop (suc n) ((j, t) ∷ rs) m k a b h c e f =
    ground (arith, AtLeast-drop-lookup t n rs k b h.0, take-le-drop n rs m k a b h.1)

-- Rows that hold one member are that row.
pub rows_of_one :
    (rs : Rows) (m : String) (s : ℕ)
    → Distinct (members rs)
    → ((j : String) → lookup j rs ≡ (if m == j then some s else none))
    → rs ≡ (m, s) ∷ []
unfolding lookup contains
rows_of_one [] m s d h = ground (arith, h m, ==_iff m m)
rows_of_one ((j, t) ∷ []) m s d h = ground (arith, h j, h m, ==_iff m j, ==_iff j j)
rows_of_one ((j, t) ∷ (k, u) ∷ rs) m s d h =
    ground (arith, h j, h k, ==_iff m j, ==_iff m k, ==_iff j j, ==_iff k k, ==_iff k j, ==_iff j k)

pub take_single : (n : ℕ) (r : String × ℕ) → 0 < n → take n (r ∷ []) ≡ r ∷ []
take_single zero r h = elim h [ ]
take_single (suc zero) r h = refl
take_single (suc (suc n)) r h = refl
