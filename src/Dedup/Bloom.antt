-- ===== src/Dedup/Bloom.antt =====
-- `MemoryBloomFilter` of dedup/bloom_filter.py. The floating-point parts of its size come in as the
-- numbers `raw_size` and `raw_hashes`.
use netspy.Base.{
  ◌||◌, ℕ, suc, ◌<◌, String, ◌≡◌, Bool, true, false, List, [], ◌∷◌, arith, if◌then◌else◌, ltb,
  length, length-replicate, replicate, max, All,
}
use netspy.Dedup.Bits.{
  Digests, bit_positions, bit_positions-Inside, optimal_size, optimal_hashes, set_all, all_set,
  all_set-set_all, all_set-set_all_self, length-set_all,
}

pub record MemoryBloomFilter : Type 0 where
  pub capacity : ℕ
  pub size : ℕ
  pub num_hashes : ℕ
  pub bits : List Bool
  pub count : ℕ
  pub warned : Bool

unfoldable pub init : ℕ → ℕ → ℕ → MemoryBloomFilter
init capacity raw_size raw_hashes = record {
  capacity = max 1 capacity;
  size = optimal_size raw_size;
  num_hashes = optimal_hashes raw_hashes;
  bits = replicate (optimal_size raw_size) false;
  count = 0;
  warned = false;
}

module _ (h : Digests) where
  unfoldable pub positions : String → MemoryBloomFilter → List ℕ
  positions key f = bit_positions h key f.size f.num_hashes

  unfoldable pub contains : String → MemoryBloomFilter → Bool
  contains key f = all_set (positions key f) f.bits

  -- the new filter after a key that was not there
  unfoldable pub grow : List ℕ → MemoryBloomFilter → MemoryBloomFilter
  grow ps f = record f {
    bits = set_all ps f.bits;
    count = suc f.count;
    warned = f.warned || ltb f.capacity (suc f.count);
  }

  unfoldable pub add : String → MemoryBloomFilter → Bool × MemoryBloomFilter
  add key f =
      if all_set (positions key f) f.bits then (false, f) else (true, grow (positions key f) f)

  pub record IsBloom (f : MemoryBloomFilter) : Type 0 where
    pub sized : length f.bits ≡ f.size
    pub nonempty : 0 < f.size

  pub init-IsBloom :
      (capacity raw_size raw_hashes : ℕ) → IsBloom (init capacity raw_size raw_hashes)
  unfolding init
  init-IsBloom c s k = record { sized = length-replicate (max s 8) false; nonempty = omega arith }

  pub add-IsBloom : (key : String) (f : MemoryBloomFilter) → IsBloom f → IsBloom (add key f).1
  unfolding add grow
  add-IsBloom key f v = ground (arith, length-set_all (positions key f) f.bits)

  -- An added key is found, whether it was new or not.
  pub contains-add :
      (key : String) (f : MemoryBloomFilter) → IsBloom f → contains key (add key f).1 ≡ true
  unfolding add contains grow positions
  contains-add key f v = ground (
    arith,
    all_set-set_all_self (bit_positions h key f.size f.num_hashes) f.bits
        (rw v.sized (bit_positions-Inside h key f.size f.num_hashes v.nonempty)),
  )

  -- A key that is found stays found.
  pub contains-add_other :
      (key other : String) (f : MemoryBloomFilter)
      → contains other f ≡ true
      → contains other (add key f).1 ≡ true
  unfolding add contains grow positions
  contains-add_other key other f e = ground (
    arith,
    all_set-set_all (bit_positions h other f.size f.num_hashes)
        (bit_positions h key f.size f.num_hashes) f.bits,
  )

  pub add_all : List String → MemoryBloomFilter → MemoryBloomFilter
  add_all [] f = f
  add_all (k ∷ ks) f = add_all ks (add k f).1

  contains-add_all :
      (ks : List String) (key : String) (f : MemoryBloomFilter)
      → contains key f ≡ true
      → contains key (add_all ks f) ≡ true
  unfolding add_all
  contains-add_all [] key f e = e
  contains-add_all (k ∷ ks) key f e =
      contains-add_all ks key (add k f).1 (contains-add_other k key f e)

  -- No false negatives: from any well-formed filter, after any sequence of adds every added key is found.
  pub add_all-contains :
      (ks : List String) (f : MemoryBloomFilter)
      → IsBloom f
      → All (λ k. contains k (add_all ks f) ≡ true) ks
  unfolding add_all
  add_all-contains [] f v = tt
  add_all-contains (k ∷ ks) f v = (
    contains-add_all ks k (add k f).1 (contains-add k f v),
    add_all-contains ks (add k f).1 (add-IsBloom k f v),
  )
