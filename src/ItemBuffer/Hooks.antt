-- ===== src/ItemBuffer/Hooks.antt =====
-- When the hooks that wait for the data of an owner run.
use netspy.Base.{
  ℕ, ◌+◌, ◌≡◌, refl, String, Bool, true, false, ◌||◌, ◌&&◌, Option, none, some, List, [], ◌∷◌, ◌++◌,
  map, if◌then◌else◌, arith, any, ◌==◌, ==_iff, ==_refl, ℕ_eq,
}
use netspy.Base.Dict.{lookup_or, lookup_or-insert, lookup_or-remove}
use netspy.ItemBuffer.{
  Sink, ItemBuffer, owned_by, owns, register, after_persist_if_pending, run_after_persist, ack_all,
  add_owner, owners_from, owners,
}
use netspy.ItemBuffer.Persist.{Group, Sorted, sort_batch, write_group, write_groups, persist, flush}

abbrev pub among : ℕ → List ℕ → Bool
among n ns = any (λ x. x == n) ns

among-append : (n : ℕ) (xs ys : List ℕ) → among n (xs ++ ys) ≡ (among n xs || among n ys)
among-append n [] ys = refl
among-append n (x ∷ xs) ys = ground (arith, among-append n xs ys)

module _ {D : Type 0} where
  among-run_after_persist :
      (fn owner : ℕ) (b : ItemBuffer D)
      → among fn (run_after_persist owner b).ran
        ≡ (among fn b.ran || among fn (lookup_or [] owner b.after_persist))
  unfolding run_after_persist
  among-run_after_persist fn owner b = among-append fn b.ran (lookup_or [] owner b.after_persist)

  -- once run, or registered for an owner that is still to be acknowledged
  ack_all-ran :
      (fn owner : ℕ) (os : List ℕ) (b : ItemBuffer D)
      → (among fn b.ran || (among owner os && among fn (lookup_or [] owner b.after_persist))) ≡ true
      → among fn (ack_all os b).ran ≡ true
  unfolding ack_all
  ack_all-ran fn owner [] b h = ground (arith, h)
  ack_all-ran fn owner (o ∷ os) b h =
      let b' : ItemBuffer D = run_after_persist o b in
      let removed : lookup_or [] owner b'.after_persist
          ≡ (if o == owner then [] else lookup_or [] owner b.after_persist) =
        unfold run_after_persist in lookup_or-remove [] o owner b.after_persist in
      ack_all-ran fn owner os (record b' { acked = b'.acked ++ o ∷ [] })
        (ground (arith, h, among-run_after_persist fn o b, ==_iff o owner, removed))

among-add_owner :
    (owner : ℕ) (o : Option ℕ) (os : List ℕ)
    → among owner (add_owner o os) ≡ (among owner os || owned_by owner o)
unfolding add_owner
among-add_owner owner none os = ground arith
among-add_owner owner (some o) os = ground (arith, among-append owner os (o ∷ []), ==_iff o owner)

among-owners_from :
    (owner : ℕ) (es : List (String × Option ℕ)) (os : List ℕ)
    → among owner (owners_from es os) ≡ (among owner os || any (λ e. owned_by owner e.1) es)
unfolding owners_from
among-owners_from owner [] os = ground arith
among-owners_from owner (e ∷ es) os =
    ground (arith, among-owners_from owner es (add_owner e.1 os), among-add_owner owner e.1 os)

module _ {D : Type 0} (s : Sink D) where
  hooks-write_group :
      (g : Group) (b : ItemBuffer D) → (write_group s g b).2.after_persist ≡ b.after_persist
  unfolding write_group
  hooks-write_group g b = ground arith

  hooks-write_groups :
      (gs : List Group) (degraded : Bool) (b : ItemBuffer D)
      → (write_groups s gs degraded b).1.after_persist ≡ b.after_persist
  unfolding write_groups
  hooks-write_groups [] degraded b = ground arith
  hooks-write_groups (g ∷ gs) degraded b = ground (
    arith,
    hooks-write_group g b,
    hooks-write_groups gs (degraded || (write_group s g b).1) (write_group s g b).2,
  )

  hooks-persist :
      (objs : List String) (b : ItemBuffer D) → (persist s objs b).1.after_persist ≡ b.after_persist
  unfolding persist
  hooks-persist objs b =
      let start : Sorted = record { groups = []; seen = []; duplicates = 0; degraded = false } in
      let sorted = sort_batch s objs b.dedup start in
      ground (
        arith,
        hooks-write_groups sorted.1.groups sorted.1.degraded
            (record b { item_dedup_dropped = b.item_dedup_dropped + sorted.1.duplicates }),
      )

  -- what an accepted registration leaves
  registered :
      (owner fn : ℕ) (b : ItemBuffer D)
      → (after_persist_if_pending owner fn b).0 ≡ true
      → let after = (after_persist_if_pending owner fn b).1 in
        (any (λ e. owned_by owner e.1) after.pending ≡ true)
        × (among fn (lookup_or [] owner after.after_persist) ≡ true)
  unfolding after_persist_if_pending owns register
  registered owner fn b h = ground (
    arith,
    h,
    lookup_or-insert [] owner owner (lookup_or [] owner b.after_persist ++ fn ∷ []) b.after_persist,
    ==_refl owner,
    ==_refl fn,
    among-append fn (lookup_or [] owner b.after_persist) (fn ∷ []),
  )

  hooks-flush :
      (owner fn : ℕ) (c : ItemBuffer D)
      → any (λ e. owned_by owner e.1) c.pending ≡ true
      → among fn (lookup_or [] owner c.after_persist) ≡ true
      → (persist s (map (λ e. e.0) c.pending) (record c { pending = [] })).0 ≡ true
      → among fn (flush s c).ran ≡ true
  unfolding flush owners
  hooks-flush owner fn c o r p =
      let objs = map (λ e. e.0) c.pending in
      let stored : ItemBuffer D = (persist s objs (record c { pending = [] })).1 in
      let kept : stored.after_persist ≡ c.after_persist =
        hooks-persist objs (record c { pending = [] }) in
      rw p (
        ack_all-ran fn owner (owners_from c.pending []) stored
          (rw kept (ground (arith, o, r, among-owners_from owner c.pending []))))

  -- A hook that `after_persist_if_pending` accepts is run by the next flush that persists the batch, if
  -- that is the next operation of the buffer.
  pub flush-ran :
      (owner fn : ℕ) (b : ItemBuffer D)
      → (after_persist_if_pending owner fn b).0 ≡ true
      → let after = (after_persist_if_pending owner fn b).1 in
        (persist s (map (λ e. e.0) after.pending) (record after { pending = [] })).0 ≡ true
        → among fn (flush s after).ran ≡ true
  flush-ran owner fn b h p =
      let after = (after_persist_if_pending owner fn b).1 in
      let known = registered owner fn b h in hooks-flush owner fn after known.0 known.1 p
