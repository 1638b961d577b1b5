-- ===== src/ItemBuffer/Placed.antt =====
-- Where the rows of a batch go, for each kind of rows that a test picks.
use netspy.Base.{
  ◌≤◌, tally, tally-append, if◌then◌else◌, ℕ, ◌+◌, ◌≡◌, refl, inl, inr, String, Bool, true, false,
  ◌||◌, Option, none, some, List, [], ◌∷◌, ◌++◌, arith, Option-cases,
}
use netspy.ItemBuffer.{Norm, Sink, ItemBuffer, ack_all, run_after_persist}
use netspy.ItemBuffer.Persist.{
  Group, Sorted, add_row, sort_keyed, sort_batch, write_group, write_groups, persist,
}

module _ {D : Type 0} (s : Sink D) (p : Norm → Bool) where
  -- of a kind of rows: those in the groups, those written or dumped, and those of a batch
  rows_of : List Group → ℕ
  rows_of [] = 0
  rows_of (g ∷ gs) = tally p (g.0 ∷ g.1) + rows_of gs

  abbrev pub placed : ItemBuffer D → ℕ
  placed b = tally p b.stored + tally p b.dumped

  unfoldable pub normalized : List String → ℕ
  normalized [] = 0
  normalized (obj ∷ objs) =
      elim (s.normalize obj) [ none ↦ 0 | some n ↦ (if p n then 1 else 0) ] + normalized objs

  rows_of-add_row :
      (n : Norm) (gs : List Group) → rows_of (add_row n gs) ≡ rows_of gs + (if p n then 1 else 0)
  unfolding rows_of add_row
  rows_of-add_row n [] = ground arith
  rows_of-add_row n (g ∷ gs) = ground (arith, rows_of-add_row n gs, tally-append p g.1 (n ∷ []))

  -- no row of the kind is added, and what is missing is a duplicate
  Within : ℕ → Sorted → Sorted → Type 0
  Within n a a' =
      (rows_of a'.groups ≤ rows_of a.groups + n)
      × (rows_of a.groups + n + a.duplicates ≤ rows_of a'.groups + a'.duplicates)

  Within-sort_keyed :
      (key : Option String) (n : Norm) (d : D) (a : Sorted)
      → Within (if p n then 1 else 0) a (sort_keyed s key n d a)
  unfolding Within
  Within-sort_keyed none n d a =
      (ground (arith, rows_of-add_row n a.groups), ground (arith, rows_of-add_row n a.groups))
  Within-sort_keyed (some key) n d a =
      (ground (arith, rows_of-add_row n a.groups), ground (arith, rows_of-add_row n a.groups))

  Within-sort_batch :
      (objs : List String) (d : D) (a : Sorted)
      → (sort_batch s objs d a).0 ≡ true
      → Within (normalized objs) a (sort_batch s objs d a).1
  unfolding sort_batch Within normalized
  Within-sort_batch [] d a h = (omega arith, omega arith)
  Within-sort_batch (obj ∷ objs) d a h = elim (Option-cases (s.normalize obj)) [
    | inl e ↦ absurd (ground (arith, e, h))
    | inr (n, e) ↦
        let one = Within-sort_keyed n.fingerprint n d a in
        let rest =
          Within-sort_batch objs d (sort_keyed s n.fingerprint n d a) (ground (arith, e, h)) in
        (ground (arith, e, one.0, rest.0), ground (arith, e, one.1, rest.1))
  ]

  placed-write_group :
      (g : Group) (b : ItemBuffer D)
      → (write_group s g b).0 ≡ true
      → placed (write_group s g b).2 ≡ placed b + tally p (g.0 ∷ g.1)
  unfolding write_group
  placed-write_group g b h =
      ground (arith, h, tally-append p b.stored (g.0 ∷ g.1), tally-append p b.dumped (g.0 ∷ g.1))

  placed-write_groups :
      (gs : List Group) (degraded : Bool) (b : ItemBuffer D)
      → (write_groups s gs degraded b).0 ≡ true
      → placed (write_groups s gs degraded b).1 ≡ placed b + rows_of gs
  unfolding write_groups rows_of
  placed-write_groups [] degraded b h = ground arith
  placed-write_groups (g ∷ gs) degraded b h = ground (
    arith,
    h,
    placed-write_group g b,
    placed-write_groups gs (degraded || (write_group s g b).1) (write_group s g b).2,
  )

  dropped-write_groups :
      (gs : List Group) (degraded : Bool) (b : ItemBuffer D)
      → (write_groups s gs degraded b).1.item_dedup_dropped ≡ b.item_dedup_dropped
  unfolding write_groups write_group
  dropped-write_groups [] degraded b = ground arith
  dropped-write_groups (g ∷ gs) degraded b =
      ground
        (arith, dropped-write_groups gs (degraded || (write_group s g b).1) (write_group s g b).2)

  pub persist-placed :
      (objs : List String) (b : ItemBuffer D)
      → (persist s objs b).0 ≡ true
      → let after = (persist s objs b).1 in
        (placed after ≤ placed b + normalized objs)
        × (placed b + normalized objs + b.item_dedup_dropped
            ≤ placed after + after.item_dedup_dropped)
  unfolding persist Within rows_of
  persist-placed objs b h =
      let start : Sorted = record { groups = []; seen = []; duplicates = 0; degraded = false } in
      let sorted = sort_batch s objs b.dedup start in
      let counted : ItemBuffer D = record b {
        item_dedup_dropped = b.item_dedup_dropped + sorted.1.duplicates;
      } in
      let kept = Within-sort_batch objs b.dedup start in
      let written = placed-write_groups sorted.1.groups sorted.1.degraded counted in
      let dropped = dropped-write_groups sorted.1.groups sorted.1.degraded counted in
      (ground (arith, h, kept, written, dropped), ground (arith, h, kept, written, dropped))

  pub placed-ack_all :
      (os : List ℕ) (b : ItemBuffer D)
      → (placed (ack_all os b) ≡ placed b)
        × ((ack_all os b).item_dedup_dropped ≡ b.item_dedup_dropped)
  unfolding ack_all run_after_persist
  placed-ack_all [] b = (refl, refl)
  placed-ack_all (o ∷ os) b =
      let b' : ItemBuffer D = run_after_persist o b in
      placed-ack_all os (record b' { acked = b'.acked ++ o ∷ [] })
