-- ===== src/RetryCommand/Kept.antt =====
-- Which records the retry command leaves in the file.
use netspy.Base.{ℕ, ◌+◌, String, Bool, Option, List, [], ◌∷◌, tally}
use netspy.RetryCommand.{Fields, LineJson, read_lines, group_all, write_groups}

module _ {A : Type 0} (f : Fields A) (p : A → Bool) where
  -- how many rows of the groups pass
  in_groups : List (A × List A) → ℕ
  in_groups [] = 0
  in_groups ((first, rows) ∷ groups) = tally p rows + in_groups groups

-- The rows of the groups that every pipeline took, in the command's run on the file.
unfoldable pub written_rows :
    {A : Type 0}
    → Fields A
    → LineJson A
    → (A → List A → Option Bool)
    → Option (List String)
    → List A
written_rows f c writes file = (write_groups f writes (group_all f (read_lines c file) [])).0
