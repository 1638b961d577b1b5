-- ===== src/Tests/Filters.antt =====
-- Runs of the fingerprint filters of dedup/ on small inputs.
use netspy.Base.{
  ℕ, ◌≡◌, refl, Bool, true, false, ◌||◌, String, List, [], ◌∷◌, nat_eq, if◌then◌else◌, ◌==◌,
  String_eq, All,
}
use netspy.Dedup.Bits.{Digests}
use netspy.Dedup.Scalable
use netspy.Dedup.Scalable.{Sizing, IsScalable, create, create-IsScalable}
use netspy.Dedup.RedisBloom
use netspy.Dedup.RedisBloom.{BitArrays, Layer}

-- two keys with digests of their own
abbrev digests : Digests
digests = record { md5 = λ k. if k == "a" then 3 else 5; sha1 = λ k. 6 }

abbrev bit_functions : BitArrays
bit_functions = record {
  B = ℕ → Bool;
  getbit = λ q b. b q;
  setbit = λ p b q. nat_eq p q || b q;
  getbit-setbit = λ p q b. refl;
}

abbrev keys : List String
keys = "a" ∷ "b" ∷ "c" ∷ []

abbrev sizing : Sizing
sizing = record { raw_capacity = λ i. 1; raw_size = λ i. 16; raw_hashes = λ i. 2 }

add_all-IsSound_example :
    IsScalable digests (Scalable.add_all digests keys (create sizing 2))
    × All
        (λ k. Scalable.contains digests k (Scalable.add_all digests keys (create sizing 2)) ≡ true)
        keys
add_all-IsSound_example =
    Scalable.add_all-IsSound digests keys (create sizing 2) (create-IsScalable digests sizing 2)

abbrev layer : ℕ → Layer (ℕ → Bool)
layer n = record { cumulative = n; size = 16; num_hashes = 2; bits = λ q. false }

add-again_example :
    let f =
      RedisBloom.add_all bit_functions digests keys
        (RedisBloom.add bit_functions digests "a"
          (record { layers = layer 1 ∷ layer 2 ∷ []; counter = 0 })).1 in
    ((RedisBloom.add bit_functions digests "a" f).0 ≡ false)
    × (RedisBloom.contains bit_functions digests "a" f ≡ true)
add-again_example = RedisBloom.add-again bit_functions digests "a" keys (layer 1) (layer 2 ∷ []) 0
