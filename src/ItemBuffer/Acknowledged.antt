-- ===== src/ItemBuffer/Acknowledged.antt =====
-- When a flush of the item buffer acknowledges tasks, and where the data of the batch is then.
use netspy.Base.{ℕ, suc, ◌+◌, List, [], ◌∷◌, length}
use netspy.ItemBuffer.{Sink, ItemBuffer}
use netspy.ItemBuffer.Persist.{Group, Sorted}

-- the rows of the groups
rows_in : List Group → ℕ
rows_in [] = 0
rows_in (g ∷ gs) = suc (length g.1) + rows_in gs

module _ {D : Type 0} where
  -- the data whose way is known: written, dumped or counted as duplicates
  unfoldable pub accounted : ItemBuffer D → ℕ
  accounted b = length b.stored + length b.dumped + b.item_dedup_dropped

module _ {D : Type 0} (s : Sink D) where
  taken : Sorted → ℕ
  taken a = rows_in a.groups + a.duplicates
