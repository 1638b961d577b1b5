-- ===== src/Dedup/Lite.antt =====
-- `LiteFilter` of dedup/lite_filter.py: an exact set, here as a list without repetition.
use netspy.Base.{
  eq_iff, ℕ, String, ◌≡◌, Bool, true, false, not, ◌||◌, List, [], ◌∷◌, arith, if◌then◌else◌, ◌==◌,
  String_eq, length, returned,
}
use netspy.RequestBuffer.{Filter}

pub record LiteFilter : Type 0 where
  pub seen : List String

unfoldable pub seen_in : String → List String → Bool
seen_in key [] = false
seen_in key (x ∷ xs) = x == key || seen_in key xs

unfoldable pub contains : String → LiteFilter → Bool
unfolding seen_in
contains key f = seen_in key f.seen

unfoldable pub add : String → LiteFilter → Bool × LiteFilter
unfolding seen_in
add key f = if seen_in key f.seen then (false, f) else (true, record { seen = key ∷ f.seen })

unfoldable pub size : LiteFilter → ℕ
size f = length f.seen

abbrev pub lite_filter : Filter LiteFilter
lite_filter = record { add = λ key f. (returned (add key f).0, (add key f).1) }

-- A key is new exactly if it was not there, and adding it makes it and nothing else present.
pub add_lem :
    (key other : String) (f : LiteFilter)
    → ((add key f).0 ≡ not (contains key f))
      × (contains other (add key f).1 ≡ (key == other || contains other f))
unfolding add contains
add_lem key other f = ground (arith, eq_iff key other)
