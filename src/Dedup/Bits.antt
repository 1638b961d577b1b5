-- ===== src/Dedup/Bits.antt =====
-- Positions in a bit array and what setting them does: `bit_positions` of dedup/bloom_filter.py.
use native.Mathlib.Nat.{mod-lt}
use netspy.Base.{
  ◌&&◌, ◌∙◌, ℕ, zero, suc, ◌+◌, ◌*◌, ◌%◌, ◌<◌, String, ◌≡◌, refl, Bool, true, false, List, [], ◌∷◌,
  arith, if◌then◌else◌, nat_eq, length, length-set, get_or, set, All, tabulate, max,
}

-- The MD5 and SHA-1 digests of the encoded key, as big-endian integers.
pub record Digests : Type 0 where
  pub md5 : String → ℕ
  pub sha1 : String → ℕ

-- n | 1
abbrev pub set_odd : ℕ → ℕ
set_odd n = if nat_eq (n % 2) 0 then n + 1 else n

unfoldable pub bit_positions : Digests → String → ℕ → ℕ → List ℕ
bit_positions h key size num_hashes =
    tabulate num_hashes (λ i. (h.md5 key + i * set_odd (h.sha1 key)) % size)

-- optimal_size and optimal_hashes after their floating-point part
abbrev pub optimal_size : ℕ → ℕ
optimal_size raw = max raw 8

abbrev pub optimal_hashes : ℕ → ℕ
optimal_hashes raw = max 1 raw

unfoldable pub bit : ℕ → List Bool → Bool
bit p bits = get_or bits p false

unfoldable pub set_all : List ℕ → List Bool → List Bool
set_all [] bits = bits
set_all (p ∷ ps) bits = set_all ps (set bits p true)

unfoldable pub all_set : List ℕ → List Bool → Bool
all_set [] bits = true
all_set (p ∷ ps) bits = bit p bits && all_set ps bits

-- Every position is inside the array.
abbrev pub Inside : ℕ → List ℕ → Type 0
Inside size = All (λ p. p < size)

Inside-tabulate : (size n : ℕ) (f : ℕ → ℕ) → ((i : ℕ) → f i < size) → Inside size (tabulate n f)
Inside-tabulate size zero f h = tt
Inside-tabulate size (suc n) f h = (h 0, Inside-tabulate size n (λ i. f (suc i)) (λ i. h (suc i)))

pub bit_positions-Inside :
    (h : Digests) (key : String) (size num_hashes : ℕ)
    → 0 < size
    → Inside size (bit_positions h key size num_hashes)
unfolding bit_positions
bit_positions-Inside h key size n pos = Inside-tabulate size n _ (λ i. mod-lt _ pos)

bit-set_self : (bits : List Bool) (p : ℕ) → p < length bits → bit p (set bits p true) ≡ true
unfolding bit
bit-set_self [] p h = elim h [ ]
bit-set_self (b ∷ bits) zero h = refl
bit-set_self (b ∷ bits) (suc p) h = bit-set_self bits p (omega arith)

bit-set : (bits : List Bool) (p q : ℕ) → bit q bits ≡ true → bit q (set bits p true) ≡ true
unfolding bit
bit-set [] p q h = h
bit-set (b ∷ bits) zero zero h = refl
bit-set (b ∷ bits) zero (suc q) h = h
bit-set (b ∷ bits) (suc p) zero h = h
bit-set (b ∷ bits) (suc p) (suc q) h = bit-set bits p q h

bit-set_all :
    (ps : List ℕ) (bits : List Bool) (q : ℕ) → bit q bits ≡ true → bit q (set_all ps bits) ≡ true
unfolding set_all
bit-set_all [] bits q h = h
bit-set_all (p ∷ ps) bits q h = bit-set_all ps (set bits p true) q (bit-set bits p q h)

pub length-set_all : (ps : List ℕ) (bits : List Bool) → length (set_all ps bits) ≡ length bits
unfolding set_all
length-set_all [] bits = refl
length-set_all (p ∷ ps) bits = length-set_all ps (set bits p true) ∙ length-set bits p true

-- What was set stays set.
pub all_set-set_all :
    (qs ps : List ℕ) (bits : List Bool)
    → all_set qs bits ≡ true
    → all_set qs (set_all ps bits) ≡ true
unfolding all_set
all_set-set_all [] ps bits h = refl
all_set-set_all (q ∷ qs) ps bits h =
    ground (arith, bit-set_all ps bits q, all_set-set_all qs ps bits)

-- What is set is set.
pub all_set-set_all_self :
    (ps : List ℕ) (bits : List Bool) → Inside (length bits) ps → all_set ps (set_all ps bits) ≡ true
unfolding all_set set_all
all_set-set_all_self [] bits h = refl
all_set-set_all_self (p ∷ ps) bits h = ground (
  arith,
  bit-set_all ps (set bits p true) p (bit-set_self bits p h.0),
  all_set-set_all_self ps (set bits p true) (rw length-set h.1),
)
