-- ===== src/ItemBuffer/Persist.antt =====
-- `_persist`, `flush` and `put` of buffer/item_buffer.py.
use netspy.Base.{
  ℕ, suc, ◌+◌, String, Bool, true, false, ◌&&◌, ◌||◌, not, Option, none, some, List, [], ◌∷◌, ◌++◌,
  map, if◌then◌else◌, leb, ◌==◌, String_eq, any, all, length, returned, raised,
}
use netspy.ItemBuffer.{Norm, Sink, ItemBuffer, owners, ack_all}

abbrev same_paths : List String → List String → Bool
same_paths [] [] = true
same_paths [] (q ∷ qs) = false
same_paths (p ∷ ps) [] = false
same_paths (p ∷ ps) (q ∷ qs) = p == q && same_paths ps qs

abbrev same_pipelines : Option (List String) → Option (List String) → Bool
same_pipelines none none = true
same_pipelines none (some qs) = false
same_pipelines (some ps) none = false
same_pipelines (some ps) (some qs) = same_paths ps qs

abbrev same_flag : Bool → Bool → Bool
same_flag true b = b
same_flag false b = not b

-- the key of a group: (table, is_update, pipelines)
abbrev same_group : Norm → Norm → Bool
same_group a b =
    a.table == b.table
    && same_flag a.is_update b.is_update
    && same_pipelines a.pipelines b.pipelines

-- A group is its first row and the others.
abbrev pub Group : Type 0
Group = Norm × List Norm

-- groups[key].append(norm)
unfoldable pub add_row : Norm → List Group → List Group
add_row n [] = (n, []) ∷ []
add_row n (g ∷ gs) =
    let rest = add_row n gs in if same_group g.0 n then (g.0, g.1 ++ n ∷ []) ∷ gs else g ∷ rest

-- The first loop's state: the groups, the fingerprints seen in this batch, the number of duplicates, and
-- whether the filter failed.
pub record Sorted : Type 0 where
  pub groups : List Group
  pub seen : List String
  pub duplicates : ℕ
  pub degraded : Bool

module _ {D : Type 0} (s : Sink D) where
  -- one fingerprint: is it a duplicate, and did the filter fail
  unfoldable pub judge : String → D → List String → Bool × Bool
  judge key d seen = elim (s.get key d) [
    | raised ↦ if any (λ x. x == key) seen then (true, false) else (false, true)
    | returned known ↦ (any (λ x. x == key) seen || known, false)
  ]

  abbrev pub sort_keyed : Option String → Norm → D → Sorted → Sorted
  sort_keyed none n d a = record a { groups = add_row n a.groups }
  sort_keyed (some key) n d a =
      let verdict = judge key d a.seen in
      let degraded = a.degraded || verdict.1 in
      if not s.filters
      then record a { groups = add_row n a.groups }
      else if verdict.0
      then record a { duplicates = suc a.duplicates; degraded = degraded }
      else record a { groups = add_row n a.groups; seen = key ∷ a.seen; degraded = degraded }

  -- the first loop of `_persist`: whether no item made `_normalize` raise
  unfoldable pub sort_batch : List String → D → Sorted → Bool × Sorted
  sort_batch [] d a = (true, a)
  sort_batch (obj ∷ objs) d a = elim (s.normalize obj) [
    | none ↦ (false, a)
    | some n ↦ sort_batch objs d (sort_keyed n.fingerprint n d a)
  ]

  -- the fingerprints of a group that was written; an exception ends the loop
  unfoldable pub record_rows : List Norm → D → Bool × D
  record_rows [] d = (true, d)
  record_rows (n ∷ ns) d = elim n.fingerprint [
    | none ↦ record_rows ns d
    | some key ↦ let (added, d') = s.add key d in if added then record_rows ns d' else (false, d')
  ]

  abbrev pub paths : Option (List String) → List String
  paths none = s.defaults
  paths (some ps) = ps

  -- one group: whether the loop goes on, and the buffer; `all` stops at the first pipeline that fails
  unfoldable pub write_group : Group → ItemBuffer D → Bool × Bool × ItemBuffer D
  write_group g b =
      let rows = g.0 ∷ g.1 in
      let added : Bool × D = if s.filters then record_rows rows b.dedup else (true, b.dedup) in
      if not (s.resolves g.0.pipelines)
      then (false, false, b)
      else if all (λ pipeline. s.write pipeline rows) (paths g.0.pipelines)
      then (true, not added.0, record b { stored = b.stored ++ rows; dedup = added.1 })
      else if s.dumps rows
      then (true, false, record b { dumped = b.dumped ++ rows })
      else (false, false, b)

  -- the second loop and the count of a batch whose filter failed
  unfoldable pub write_groups : List Group → Bool → ItemBuffer D → Bool × ItemBuffer D
  write_groups [] degraded b =
      (true, (if degraded then record b { dedup_degraded = suc b.dedup_degraded } else b))
  write_groups (g ∷ gs) degraded b =
      let w = write_group g b in
      let rest = write_groups gs (degraded || w.1) w.2 in if w.0 then rest else (false, w.2)

  -- `_persist`: whether it returned
  unfoldable pub persist : List String → ItemBuffer D → Bool × ItemBuffer D
  persist objs b =
      let start : Sorted = record { groups = []; seen = []; duplicates = 0; degraded = false } in
      let sorted = sort_batch objs b.dedup start in
      let counted : ItemBuffer D = record b {
        item_dedup_dropped = b.item_dedup_dropped + sorted.1.duplicates;
      } in
      if sorted.0 then write_groups sorted.1.groups sorted.1.degraded counted else (false, counted)

  -- `flush` without a handler
  unfoldable pub flush : ItemBuffer D → ItemBuffer D
  flush b =
      let done = persist (map (λ e. e.0) b.pending) (record b { pending = [] }) in
      if done.0 then ack_all (owners b.pending) done.1 else done.1

  -- `put`; `limit` is ITEM_MAX_CACHED_COUNT
  unfoldable pub put : ℕ → String → Option ℕ → ItemBuffer D → ItemBuffer D
  put limit item owner b =
      let b' : ItemBuffer D = record b { pending = b.pending ++ (item, owner) ∷ [] } in
      if leb limit (length b'.pending) then flush b' else b'
