-- ===== src/Base/Dict.antt =====
-- Python's `dict`: an association list in insertion order. Writing to a present key keeps its place.
use mathlib.Core.Path.{◌≡◌, refl, subst, sym, ◌∙◌}
use mathlib.Core.Bool.{Bool, true, false}
use mathlib.Core.Option.{Option, none, some}
use mathlib.Core.List.{List, [], ◌∷◌}
use native.Mathlib.Omega.{arith}
use netspy.Base.Tests.{if◌then◌else◌, is_some, Bool-cases}
use netspy.Base.Lists.{select}
use mathlib.Core.Logic.{inl, inr}
use netspy.Base.Equality.{Key, ◌==◌, ==_iff, ==_sound, ==_refl}

abbrev pub Dict {ℓ κ} : Type ℓ → Type κ → Type (ℓ ⊔ κ)
Dict K V = List (K × V)

module _ {ℓ κ} {K : Type ℓ} {V : Type κ} ⦃e : Key K⦄ where
  -- d.get(k)
  unfoldable pub lookup : K → Dict K V → Option V
  lookup k [] = none
  lookup k ((j, v) ∷ d) = if j == k then some v else lookup k d

  -- d.get(k, default)
  unfoldable pub lookup_or : V → K → Dict K V → V
  lookup_or v k [] = v
  lookup_or v k ((j, w) ∷ d) = if j == k then w else lookup_or v k d

  -- k in d
  unfoldable pub has : K → Dict K V → Bool
  has k [] = false
  has k ((j, v) ∷ d) = if j == k then true else has k d

  -- d[k] = v
  unfoldable pub insert : K → V → Dict K V → Dict K V
  insert k v [] = (k, v) ∷ []
  insert k v ((j, w) ∷ d) = if j == k then (k, v) ∷ d else (j, w) ∷ insert k v d

  -- d.pop(k, None), del d[k]
  unfoldable pub remove : K → Dict K V → Dict K V
  remove k [] = []
  remove k ((j, v) ∷ d) = let rest = remove k d in if j == k then rest else (j, v) ∷ rest

  pub lookup-insert :
      (k j : K) (v : V) (d : Dict K V)
      → lookup j (insert k v d) ≡ (if k == j then some v else lookup j d)
  unfolding lookup insert
  lookup-insert k j v [] = refl
  lookup-insert k j v ((i, w) ∷ d) =
      ground (arith, ==_iff k j, ==_iff i k, ==_iff i j, lookup-insert k j v d)

  pub lookup-remove :
      (k j : K) (d : Dict K V) → lookup j (remove k d) ≡ (if k == j then none else lookup j d)
  unfolding lookup remove
  lookup-remove k j [] = ground arith
  lookup-remove k j ((i, w) ∷ d) =
      ground (arith, ==_iff k j, ==_iff i k, ==_iff i j, lookup-remove k j d)

  pub lookup_or-insert :
      (u : V) (k j : K) (v : V) (d : Dict K V)
      → lookup_or u j (insert k v d) ≡ (if k == j then v else lookup_or u j d)
  unfolding lookup_or insert
  lookup_or-insert u k j v [] = refl
  lookup_or-insert u k j v ((i, w) ∷ d) =
      ground (arith, ==_iff k j, ==_iff i k, ==_iff i j, lookup_or-insert u k j v d)

  pub lookup_or-remove :
      (u : V) (k j : K) (d : Dict K V)
      → lookup_or u j (remove k d) ≡ (if k == j then u else lookup_or u j d)
  unfolding lookup_or remove
  lookup_or-remove u k j [] = ground arith
  lookup_or-remove u k j ((i, w) ∷ d) =
      ground (arith, ==_iff k j, ==_iff i k, ==_iff i j, lookup_or-remove u k j d)

  pub has-lookup : (k : K) (d : Dict K V) → has k d ≡ is_some (lookup k d)
  unfolding has lookup
  has-lookup k [] = refl
  has-lookup k ((j, v) ∷ d) = ground (arith, has-lookup k d)

pub ruleset dict_laws = (lookup-insert, lookup-remove, lookup_or-insert, lookup_or-remove)

-- A dictionary has each key once.
abbrev pub Unique {ℓ κ} : {K : Type ℓ} {V : Type κ} ⦃e : Key K⦄ → Dict K V → Type 0
Unique [] = Unit
Unique ((k, v) ∷ d) = (has k d ≡ false) × Unique d

-- the entry of a key, if it passes
abbrev pub passing {ℓ κ} : {K : Type ℓ} {V : Type κ} → (K × V → Bool) → K → Option V → Option V
passing p k none = none
passing p k (some v) = if p (k, v) then some v else none

abbrev pub or_else {κ} : {V : Type κ} → V → Option V → V
or_else u none = u
or_else u (some v) = v

module _ {ℓ κ} {K : Type ℓ} {V : Type κ} ⦃e : Key K⦄ where
  pub lookup_or-lookup : (u : V) (k : K) (d : Dict K V) → lookup_or u k d ≡ or_else u (lookup k d)
  unfolding lookup_or lookup
  lookup_or-lookup u k [] = refl
  lookup_or-lookup u k ((j, v) ∷ d) = ground (arith, lookup_or-lookup u k d)

  lookup_missing : (k : K) (d : Dict K V) → has k d ≡ false → lookup k d ≡ none
  unfolding has lookup
  lookup_missing k [] h = refl
  lookup_missing k ((j, v) ∷ d) h = ground (arith, h, lookup_missing k d)

  own_key :
      (p : K × V → Bool) (k : K) (v : V) (d : Dict K V)
      → lookup k d ≡ none
      → lookup k (select p d) ≡ passing p k (lookup k d)
      → lookup k (select p ((k, v) ∷ d)) ≡ passing p k (some v)
  unfolding lookup
  own_key p k v d h ih = ground (arith, h, ih, ==_refl k)

  at_key :
      (p : K × V → Bool) (k j : K) (v : V) (d : Dict K V)
      → j ≡ k
      → has j d ≡ false
      → lookup k (select p d) ≡ passing p k (lookup k d)
      → lookup k (select p ((j, v) ∷ d)) ≡ passing p k (some v)
  unfolding lookup
  at_key p k j v d m h ih =
      subst (λ i. lookup k (select p ((i, v) ∷ d)) ≡ passing p k (some v)) (sym m)
        (own_key p k v d (lookup_missing k d (subst (λ i. has i d ≡ false) m h)) ih)

  -- a comprehension over the items that keeps those that pass
  pub lookup-select :
      (p : K × V → Bool) (k : K) (d : Dict K V)
      → Unique d
      → lookup k (select p d) ≡ passing p k (lookup k d)
  unfolding lookup
  lookup-select p k [] h = refl
  lookup-select p k ((j, v) ∷ d) h = elim (Bool-cases (j == k)) [
    | inl t ↦ at_key p k j v d (==_sound j k t) h.0 (lookup-select p k d h.1) ∙ rw t refl
    | inr t ↦ ground (arith, t, lookup-select p k d h.1)
  ]
