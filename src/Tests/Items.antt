-- ===== src/Tests/Items.antt =====
-- A run of buffer/item_buffer.py: two rows of one request, one pipeline, no filter.
use netspy.Base.{
  Bool, ◌==◌, String_eq, ◌≡◌, refl, true, false, String, none, some, List, [], ◌∷◌, returned,
}
use netspy.ItemBuffer.{Norm, Sink, ItemBuffer, owns, after_persist_if_pending, register}
use netspy.ItemBuffer.Persist.{flush, persist, sort_batch, write_groups, write_group, add_row}
use netspy.ItemBuffer.Hooks.{among, flush-ran}

abbrev sink : Sink (List String)
sink = record {
  normalize = λ i. some (record {
    table = "pages";
    is_update = false;
    row = i;
    fingerprint = none;
    update_keys = [];
    pipelines = none;
  });
  get = λ k d. returned false;
  add = λ k d. (true, k ∷ d);
  defaults = "console" ∷ [];
  resolves = λ p. true;
  write = λ p rows. true;
  dumps = λ rows. true;
  filters = false;
}

abbrev two_rows : ItemBuffer (List String)
two_rows = record {
  pending = ("x", some 7) ∷ ("y", some 7) ∷ [];
  after_persist = [];
  dedup = [];
  acked = [];
  ran = [];
  stored = [];
  dumped = [];
  item_dedup_dropped = 0;
  dedup_degraded = 0;
}

abbrev is_x : Norm → Bool
is_x n = n.row == "x"

flush-ran_example : among 3 (flush sink (after_persist_if_pending 7 3 two_rows).1).ran ≡ true
unfolding after_persist_if_pending owns register persist sort_batch write_groups write_group add_row
flush-ran_example = flush-ran sink 7 3 two_rows refl refl
