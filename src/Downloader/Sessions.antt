-- ===== src/Downloader/Sessions.antt =====
-- What the cache of HTTP clients keeps, evicts and hands out.
use netspy.Base.{
  ℕ, ◌+◌, ◌≤◌, ◌≡◌, refl, max, Bool, false, Option, none, some, [], ◌∷◌, ◌++◌, map, length,
  length-append, tally, arith, if◌then◌else◌, ◌==◌, ==_sound, ==_refl, Key, Bool-cases, inl, inr,
  ap, subst,
}
use netspy.Base.Dict.{Dict, Unique, has, lookup, remove}
use netspy.Downloader.{evict, cached_or_new, get_or_create}

-- one client more, if the cache had none for the key
abbrev pub created : {C : Type 0} → Option C → C → (C → Bool) → ℕ
created none fresh p = if p fresh then 1 else 0
created (some old) fresh p = 0

module _ {ℓ} {K : Type ℓ} {C : Type 0} ⦃e : Key K⦄ where
  -- how many clients of a kind are in the cache
  abbrev pub clients : (C → Bool) → Dict K C → ℕ
  clients p items = tally p (map (λ item. item.1) items)

  clients-append :
      (p : C → Bool) (front back : Dict K C)
      → clients p (front ++ back) ≡ clients p front + clients p back
  clients-append p [] back = omega arith
  clients-append p (item ∷ front) back = omega (arith, clients-append p front back)

  clients-evict :
      (p : C → Bool) (limit : ℕ) (items : Dict K C)
      → clients p (evict limit items).0 + tally p (evict limit items).1 ≡ clients p items
  unfolding evict
  clients-evict p limit [] = omega arith
  clients-evict p limit (item ∷ items) = ground (arith, clients-evict p limit items)

  length-evict : (limit : ℕ) (items : Dict K C) → length (evict limit items).0 ≤ limit
  unfolding evict
  length-evict limit [] = omega arith
  length-evict limit (item ∷ items) = ground (arith, length-evict limit items)

  missing-remove : (k : K) (items : Dict K C) → has k items ≡ false → remove k items ≡ items
  unfolding has remove
  missing-remove k [] h = refl
  missing-remove k ((j, c) ∷ items) h = ground (arith, h, missing-remove k items)

  remove_le : (k : K) (items : Dict K C) → length (remove k items) ≤ length items
  unfolding remove
  remove_le k [] = omega arith
  remove_le k ((j, d) ∷ items) = ground (arith, remove_le k items)

  clients-remove :
      (p : C → Bool) (k : K) (c : C) (items : Dict K C)
      → Unique items
      → lookup k items ≡ some c
      → clients p (remove k items) + (if p c then 1 else 0) ≡ clients p items
  unfolding lookup remove
  clients-remove p k c [] u h = cc
  clients-remove p k c ((j, d) ∷ items) u h = elim (Bool-cases (j == k)) [
    | inl t ↦
        let absent : has k items ≡ false = subst (λ i. has i items ≡ false) (==_sound j k t) u.0 in
        ground (arith, t, (rw t at h), ap (clients p) (missing-remove k items absent))
    | inr t ↦ ground (arith, t, clients-remove p k c items u.1 (rw t at h))
  ]

  lookup-last :
      (k : K) (c : C) (items : Dict K C)
      → has k items ≡ false
      → lookup k (items ++ (k, c) ∷ []) ≡ some c
  unfolding lookup has
  lookup-last k c [] h = ground (arith, ==_refl k)
  lookup-last k c ((j, d) ∷ items) h = ground (arith, h, lookup-last k c items)

  -- the client that was added last is still there
  lookup-evict :
      (limit : ℕ) (k : K) (c : C) (items : Dict K C)
      → 1 ≤ limit
      → has k items ≡ false
      → lookup k (evict limit (items ++ (k, c) ∷ [])).0 ≡ some c
  unfolding lookup evict has
  lookup-evict limit k c [] h m = ground (arith, h, ==_refl k)
  lookup-evict limit k c ((j, d) ∷ items) h m =
      ground (arith, h, m, lookup-evict limit k c items h, lookup-last k c items)

  absent_lookup : (k : K) (items : Dict K C) → lookup k items ≡ none → has k items ≡ false
  unfolding lookup has
  absent_lookup k [] h = refl
  absent_lookup k ((j, d) ∷ items) h = ground (arith, h, absent_lookup k items)

  absent_removed : (k : K) (items : Dict K C) → has k (remove k items) ≡ false
  unfolding has remove
  absent_removed k [] = refl
  absent_removed k ((j, d) ∷ items) = ground (arith, absent_removed k items)

  length-remove :
      (k : K) (c : C) (items : Dict K C)
      → lookup k items ≡ some c
      → length (remove k items) + 1 ≤ length items
  unfolding lookup remove
  length-remove k c [] h = cc
  length-remove k c ((j, d) ∷ items) h =
      ground (arith, h, remove_le k items, length-remove k c items)

  kept_at :
      (p : C → Bool) (k : K) (fresh : C) (capacity : ℕ) (o : Option C) (items : Dict K C)
      → lookup k items ≡ o
      → Unique items
      → length items ≤ max capacity 1
      → let (client, closed, after) = cached_or_new k fresh capacity o items in
        (clients p after + tally p closed ≡ clients p items + created o fresh p)
        × (lookup k after ≡ some client)
        × (length after ≤ max capacity 1)
  kept_at p k fresh capacity (some old) items h u l = (
    omega (
      arith,
      clients-append p (remove k items) ((k, old) ∷ []),
      clients-remove p k old items u h,
    ),
    lookup-last k old (remove k items) (absent_removed k items),
    omega (arith, length-append (remove k items) ((k, old) ∷ []), length-remove k old items h),
  )
  kept_at p k fresh capacity none items h u l = (
    omega (
      arith,
      clients-evict p (max capacity 1) (items ++ (k, fresh) ∷ []),
      clients-append p items ((k, fresh) ∷ []),
    ),
    lookup-evict (max capacity 1) k fresh items (omega arith) (absent_lookup k items h),
    length-evict (max capacity 1) (items ++ (k, fresh) ∷ []),
  )

  -- In a cache with no key twice and no more clients than the capacity, at least one: of the clients of any kind, those
  -- in the cache and those that the caller is told to close are, after `get_or_create`, the ones of before and
  -- the one that it made, if the key had none; the client that it hands out is the cache's for the key;
  -- and the capacity holds.
  pub get_or_create-kept :
      (p : C → Bool) (k : K) (fresh : C) (capacity : ℕ) (items : Dict K C)
      → Unique items
      → length items ≤ max capacity 1
      → let (client, closed, after) = get_or_create k fresh capacity items in
        (clients p after + tally p closed ≡ clients p items + created (lookup k items) fresh p)
        × (lookup k after ≡ some client)
        × (length after ≤ max capacity 1)
  unfolding get_or_create
  get_or_create-kept p k fresh capacity items u l =
      kept_at p k fresh capacity (lookup k items) items refl u l
