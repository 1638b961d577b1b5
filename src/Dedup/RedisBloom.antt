-- ===== src/Dedup/RedisBloom.antt =====
-- `RedisBloomFilter` of dedup/redis_filter.py: _ADD_LUA over one bit array for each layer and a shared
-- counter. The script is atomic, so the nodes' calls are a sequence.
use netspy.Base.{
  ℕ, suc, ◌≤◌, String, ◌≡◌, refl, Bool, true, false, ◌&&◌, ◌||◌, List, [], ◌∷◌, arith,
  if◌then◌else◌, ltb, nat_eq,
}
use netspy.Dedup.Bits.{Digests, bit_positions}

-- Redis strings used as bit arrays: GETBIT and SETBIT key position 1.
pub record BitArrays : Type 1 where
  pub B : Type 0
  pub getbit : ℕ → B → Bool
  pub setbit : ℕ → B → B
  pub getbit-setbit : (p q : ℕ) (b : B) → getbit q (setbit p b) ≡ (nat_eq p q || getbit q b)

-- One layer: its cumulative capacity, its shape, and its bits.
pub record Layer (B : Type 0) : Type 0 where
  pub cumulative : ℕ
  pub size : ℕ
  pub num_hashes : ℕ
  pub bits : B

pub record RedisBloom (B : Type 0) : Type 0 where
  pub layers : List (Layer B)
  -- the shared counter
  pub counter : ℕ

module _ (R : BitArrays) (h : Digests) where
  open R use {B, getbit, setbit, getbit-setbit}

  unfoldable pub bits_set : List ℕ → B → Bool
  bits_set [] b = true
  bits_set (p ∷ ps) b = getbit p b && bits_set ps b

  unfoldable pub set_bits : List ℕ → B → B
  set_bits [] b = b
  set_bits (p ∷ ps) b = set_bits ps (setbit p b)

  unfoldable pub layer_positions : String → Layer B → List ℕ
  layer_positions key l = bit_positions h key l.size l.num_hashes

  unfoldable pub in_layer : String → Layer B → Bool
  in_layer key l = bits_set (layer_positions key l) l.bits

  unfoldable pub fill_layer : String → Layer B → Layer B
  fill_layer key l = record l { bits = set_bits (layer_positions key l) l.bits }

  -- The layers 1 .. top, where top is the first with n < cum[l], or the last: is the key in one?
  unfoldable pub in_first : ℕ → String → List (Layer B) → Bool
  in_first n key [] = false
  in_first n key (l ∷ ls) =
      let rest = in_first n key ls in in_layer key l || (if ltb n l.cumulative then false else rest)

  -- the bits of the key in layer top
  unfoldable pub fill_top : ℕ → String → List (Layer B) → List (Layer B)
  fill_top n key [] = []
  fill_top n key (l ∷ []) = fill_layer key l ∷ []
  fill_top n key (l ∷ m ∷ ls) =
      let rest = fill_top n key (m ∷ ls) in
      if ltb n l.cumulative then fill_layer key l ∷ m ∷ ls else l ∷ rest

  -- _ADD_LUA: whether the key is new, and the filter after it
  unfoldable pub add : String → RedisBloom B → Bool × RedisBloom B
  add key f =
      if in_first f.counter key f.layers
      then (false, f)
      else (true, record { layers = fill_top f.counter key f.layers; counter = suc f.counter })

  -- `__contains__` reads all layers
  unfoldable pub contains_in : String → List (Layer B) → Bool
  contains_in key [] = false
  contains_in key (l ∷ ls) = in_layer key l || contains_in key ls

  unfoldable pub contains : String → RedisBloom B → Bool
  contains key f = contains_in key f.layers

  getbit-set_bits :
      (ps : List ℕ) (q : ℕ) (b : B) → getbit q b ≡ true → getbit q (set_bits ps b) ≡ true
  unfolding set_bits
  getbit-set_bits [] q b e = e
  getbit-set_bits (p ∷ ps) q b e =
      getbit-set_bits ps q (setbit p b) (ground (arith, getbit-setbit p q b))

  bits_set-set_bits :
      (qs ps : List ℕ) (b : B) → bits_set qs b ≡ true → bits_set qs (set_bits ps b) ≡ true
  unfolding bits_set
  bits_set-set_bits [] ps b e = refl
  bits_set-set_bits (q ∷ qs) ps b e =
      ground (arith, getbit-set_bits ps q b, bits_set-set_bits qs ps b)

  bits_set-set_bits_self : (ps : List ℕ) (b : B) → bits_set ps (set_bits ps b) ≡ true
  unfolding bits_set set_bits
  bits_set-set_bits_self [] b = refl
  bits_set-set_bits_self (p ∷ ps) b = ground (
    arith,
    getbit-set_bits ps p (setbit p b) (ground (arith, getbit-setbit p p b)),
    bits_set-set_bits_self ps (setbit p b),
  )

  in_layer-fill_self : (key : String) (l : Layer B) → in_layer key (fill_layer key l) ≡ true
  unfolding in_layer fill_layer layer_positions
  in_layer-fill_self key l = bits_set-set_bits_self (bit_positions h key l.size l.num_hashes) l.bits

  in_layer-fill :
      (key other : String) (l : Layer B)
      → in_layer other l ≡ true
      → in_layer other (fill_layer key l) ≡ true
  unfolding in_layer fill_layer layer_positions
  in_layer-fill key other l e =
      bits_set-set_bits (bit_positions h other l.size l.num_hashes)
        (bit_positions h key l.size l.num_hashes) l.bits e

  fill_cumulative : (key : String) (l : Layer B) → (fill_layer key l).cumulative ≡ l.cumulative
  unfolding fill_layer
  fill_cumulative key l = refl

  in_first-le :
      (n m : ℕ) (key : String) (ls : List (Layer B))
      → n ≤ m
      → in_first n key ls ≡ true
      → in_first m key ls ≡ true
  unfolding in_first
  in_first-le n m key [] h e = e
  in_first-le n m key (l ∷ ls) h e = ground (arith, in_first-le n m key ls)

  in_first-fill_top :
      (n m : ℕ) (key other : String) (ls : List (Layer B))
      → in_first m other ls ≡ true
      → in_first m other (fill_top n key ls) ≡ true
  unfolding in_first fill_top
  in_first-fill_top n m key other [] e = e
  in_first-fill_top n m key other (l ∷ []) e = ground (arith, in_layer-fill key other l)
  in_first-fill_top n m key other (l ∷ k ∷ ls) e = ground (
    arith,
    in_layer-fill key other l,
    in_first-fill_top n m key other (k ∷ ls),
    fill_cumulative key l,
  )

  in_first-fill_top_self :
      (n : ℕ) (key : String) (l : Layer B) (ls : List (Layer B))
      → in_first n key (fill_top n key (l ∷ ls)) ≡ true
  unfolding in_first fill_top
  in_first-fill_top_self n key l [] = ground (arith, in_layer-fill_self key l)
  in_first-fill_top_self n key l (k ∷ ls) =
      ground (arith, in_layer-fill_self key l, in_first-fill_top_self n key k ls)

  contains-in_first :
      (n : ℕ) (key : String) (ls : List (Layer B))
      → in_first n key ls ≡ true
      → contains_in key ls ≡ true
  unfolding in_first contains_in
  contains-in_first n key [] e = e
  contains-in_first n key (l ∷ ls) e = ground (arith, contains-in_first n key ls)

  -- The script would call the key known.
  abbrev pub IsKnown : String → RedisBloom B → Type 0
  IsKnown key f = in_first f.counter key f.layers ≡ true

  IsKnown-add :
      (key other : String) (f : RedisBloom B) → IsKnown other f → IsKnown other (add key f).1
  unfolding add
  IsKnown-add key other f e = ground (
    arith,
    in_first-le f.counter (suc f.counter) other (fill_top f.counter key f.layers) (omega arith),
    in_first-fill_top f.counter f.counter key other f.layers,
  )

  IsKnown-add_self :
      (key : String) (l : Layer B) (ls : List (Layer B)) (n : ℕ)
      → IsKnown key (add key (record { layers = l ∷ ls; counter = n })).1
  unfolding add
  IsKnown-add_self key l ls n = ground (
    arith,
    in_first-le n (suc n) key (fill_top n key (l ∷ ls)) (omega arith),
    in_first-fill_top_self n key l ls,
  )

  unknown_not_new : (key : String) (f : RedisBloom B) → IsKnown key f → (add key f).0 ≡ false
  unfolding add
  unknown_not_new key f e = ground arith

  pub add_all : List String → RedisBloom B → RedisBloom B
  add_all [] f = f
  add_all (k ∷ ks) f = add_all ks (add k f).1

  IsKnown-add_all :
      (ks : List String) (key : String) (f : RedisBloom B)
      → IsKnown key f
      → IsKnown key (add_all ks f)
  unfolding add_all
  IsKnown-add_all [] key f e = e
  IsKnown-add_all (k ∷ ks) key f e = IsKnown-add_all ks key (add k f).1 (IsKnown-add k key f e)

  -- A key that one node has added is never new again for any node, and is always found: whatever is
  -- added in between, and however many layers are filled.
  pub add-again :
      (key : String) (ks : List String) (l : Layer B) (ls : List (Layer B)) (n : ℕ)
      → let f = add_all ks (add key (record { layers = l ∷ ls; counter = n })).1 in
        ((add key f).0 ≡ false) × (contains key f ≡ true)
  add-again key ks l ls n =
      let f = add_all ks (add key (record { layers = l ∷ ls; counter = n })).1 in
      let known : IsKnown key f = IsKnown-add_all ks key _ (IsKnown-add_self key l ls n) in
      (
        unknown_not_new key f known,
        unfold contains in contains-in_first f.counter key f.layers known,
      )
