-- ===== src/Base/Equality.antt =====
-- Decided equality as an instance: numbers for object identities, texts for keys.
use text.Mathlib.TextEquality.{eq_iff}
use text.Mathlib.Text.{◌==◌ as same_text}
use native.Mathlib.Omega.{arith}
use Prim.Native.Nat.{ℕ}
use Prim.Native.String.{String}
use mathlib.Core.Path.{◌≡◌}
use mathlib.Core.Logic.{◌↔◌}
use mathlib.Core.Bool.{Bool, true}
use netspy.Base.Tests.{nat_eq}

-- A type whose values can serve as the keys of a dictionary.
pub record Key {ℓ} (K : Type ℓ) : Type ℓ where
  pub same : K → K → Bool
  pub same_iff : (j k : K) → (same j k ≡ true) ↔ (j ≡ k)

module _ {ℓ} {K : Type ℓ} ⦃e : Key K⦄ where
  infix 50 ◌==◌
  abbrev pub ◌==◌ : K → K → Bool
  j == k = e.same j k

  pub ==_iff : (j k : K) → ((j == k) ≡ true) ↔ (j ≡ k)
  ==_iff j k = e.same_iff j k

  pub ==_refl : (k : K) → (k == k) ≡ true
  ==_refl k = (e.same_iff k k).1 (λ i. k)

  -- the name that a passed test gives
  pub ==_sound : (j k : K) → (j == k) ≡ true → j ≡ k
  ==_sound j k h = (e.same_iff j k).0 h

pub nat_eq_iff : (m n : ℕ) → (nat_eq m n ≡ true) ↔ (m ≡ n)
nat_eq_iff m n = ground arith

instance abbrev pub String_eq : Key String
String_eq = record { same = same_text; same_iff = eq_iff }

instance abbrev pub ℕ_eq : Key ℕ
ℕ_eq = record { same_iff = nat_eq_iff; same = nat_eq }
