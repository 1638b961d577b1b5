-- ===== src/Dedup/Scalable.antt =====
-- `ScalableBloomFilter` of dedup/bloom_filter.py: a layer that is full gets another above it, up to
-- `max_layers`. `layer_params` and the sizes that follow from it are floating-point: they come in as
-- the numbers of a `Sizing`.
use netspy.Base.{
  ℕ, ◌+◌, ◌≤◌, String, ◌≡◌, Bool, true, false, ◌&&◌, ◌||◌, List, [], ◌∷◌, ◌++◌, arith,
  if◌then◌else◌, ltb, leb, length, length-append, max, All, All-append, Bool-cases, inl, inr,
}
use netspy.Dedup.Bits.{Digests}
use netspy.Dedup.Bloom.{
  MemoryBloomFilter, IsBloom, init, contains as layer_contains, add as layer_add, init-IsBloom,
  add-IsBloom, contains-add, contains-add_other,
}

-- Of each layer: int(capacity * growth ** index), and the sizes before their bounds from below.
pub record Sizing : Type 0 where
  pub raw_capacity : ℕ → ℕ
  pub raw_size : ℕ → ℕ
  pub raw_hashes : ℕ → ℕ

-- `_layers` is `below ++ top ∷ []`: there is always a top layer.
pub record ScalableBloomFilter : Type 0 where
  pub sizing : Sizing
  pub max_layers : ℕ
  pub below : List MemoryBloomFilter
  pub top : MemoryBloomFilter
  pub warned : Bool

-- a layer never warns by itself
unfoldable pub make_layer : Sizing → ℕ → MemoryBloomFilter
make_layer s index =
    record (init (max 1 (s.raw_capacity index)) (s.raw_size index) (s.raw_hashes index)) {
      warned = true;
    }

unfoldable pub create : Sizing → ℕ → ScalableBloomFilter
create s layers = record {
  sizing = s;
  max_layers = max 1 layers;
  below = [];
  top = make_layer s 0;
  warned = false;
}

unfoldable pub layer_count : ScalableBloomFilter → ℕ
layer_count f = length f.below + 1

counts : List MemoryBloomFilter → ℕ
counts [] = 0
counts (l ∷ ls) = l.count + counts ls

unfoldable pub count : ScalableBloomFilter → ℕ
unfolding counts
count f = counts f.below + f.top.count

module _ (h : Digests) where
  in_layers : String → List MemoryBloomFilter → Bool
  in_layers key [] = false
  in_layers key (l ∷ ls) = layer_contains h key l || in_layers key ls

  unfoldable pub contains : String → ScalableBloomFilter → Bool
  unfolding in_layers
  contains key f = in_layers key f.below || layer_contains h key f.top

  -- a full top layer gets a new one above it, if there may be one more
  unfoldable pub with_room : ScalableBloomFilter → ScalableBloomFilter
  with_room f =
      if leb f.top.capacity f.top.count && ltb (layer_count f) f.max_layers
      then record f { below = f.below ++ f.top ∷ []; top = make_layer f.sizing (layer_count f) }
      else f

  unfoldable pub add_to_top : String → ScalableBloomFilter → ScalableBloomFilter
  add_to_top key f =
      let top = (layer_add h key f.top).1 in
      record f {
        top = top;
        warned = f.warned || (leb f.max_layers (layer_count f) && ltb top.capacity top.count);
      }

  unfoldable pub add : String → ScalableBloomFilter → Bool × ScalableBloomFilter
  add key f = if contains key f then (false, f) else (true, add_to_top key (with_room f))

  pub record IsScalable (f : ScalableBloomFilter) : Type 0 where
    pub layered : layer_count f ≤ f.max_layers
    pub top_ok : IsBloom h f.top
    -- a layer with another above it is full
    pub full : All (λ l. l.capacity ≤ l.count) f.below

  make_layer-IsBloom : (s : Sizing) (i : ℕ) → IsBloom h (make_layer s i)
  unfolding make_layer
  make_layer-IsBloom s i =
      let v = init-IsBloom h (max 1 (s.raw_capacity i)) (s.raw_size i) (s.raw_hashes i) in
      record { sized = v.sized; nonempty = v.nonempty }

  pub create-IsScalable : (s : Sizing) (n : ℕ) → IsScalable (create s n)
  unfolding create layer_count
  create-IsScalable s n = record {
    layered = omega arith;
    top_ok = make_layer-IsBloom s 0;
    full = tt;
  }

  with_room-IsScalable : (f : ScalableBloomFilter) → IsScalable f → IsScalable (with_room f)
  unfolding with_room layer_count
  with_room-IsScalable f v =
      elim (Bool-cases (leb f.top.capacity f.top.count && ltb (length f.below + 1) f.max_layers)) [
        | inl e ↦ rw e (record {
          layered = ground (arith, length-append f.below (f.top ∷ []));
          top_ok = make_layer-IsBloom f.sizing (length f.below + 1);
          full = All-append _ f.below (f.top ∷ []) v.full (ground arith, tt);
        })
        | inr e ↦ rw e v
      ]

  -- Adding keeps the layers within the bound, and every layer but the top one filled to capacity.
  pub add-IsScalable :
      (key : String) (f : ScalableBloomFilter) → IsScalable f → IsScalable (add key f).1
  unfolding add add_to_top layer_count
  add-IsScalable key f v = elim (Bool-cases (contains key f)) [
    | inl e ↦ rw e v
    | inr e ↦
        let w = with_room-IsScalable f v in
        rw e (record {
          layered = w.layered;
          top_ok = add-IsBloom h key (with_room f).top w.top_ok;
          full = w.full;
        })
  ]

  in_layers-append :
      (key : String) (xs : List MemoryBloomFilter) (l : MemoryBloomFilter)
      → in_layers key (xs ++ l ∷ []) ≡ (in_layers key xs || layer_contains h key l)
  unfolding in_layers
  in_layers-append key [] l = ground arith
  in_layers-append key (x ∷ xs) l = ground (arith, in_layers-append key xs l)

  contains-with_room :
      (key : String) (f : ScalableBloomFilter)
      → contains key f ≡ true
      → contains key (with_room f) ≡ true
  unfolding with_room contains
  contains-with_room key f e = ground (arith, in_layers-append key f.below f.top)

  contains-add_to_top :
      (key other : String) (f : ScalableBloomFilter)
      → contains other f ≡ true
      → contains other (add_to_top key f) ≡ true
  unfolding contains add_to_top
  contains-add_to_top key other f e = ground (arith, contains-add_other h key other f.top)

  contains-add_to_top_self :
      (key : String) (f : ScalableBloomFilter)
      → IsBloom h f.top
      → contains key (add_to_top key f) ≡ true
  unfolding contains add_to_top
  contains-add_to_top_self key f v = ground (arith, contains-add h key f.top v)

  -- A key that is found stays found, also when a layer is added.
  pub contains-add_kept :
      (key other : String) (f : ScalableBloomFilter)
      → contains other f ≡ true
      → contains other (add key f).1 ≡ true
  unfolding add
  contains-add_kept key other f e =
      ground (arith, contains-add_to_top key other (with_room f), contains-with_room other f)

  pub contains-add_self :
      (key : String) (f : ScalableBloomFilter) → IsScalable f → contains key (add key f).1 ≡ true
  unfolding add
  contains-add_self key f v =
      ground (arith, contains-add_to_top_self key (with_room f) (with_room-IsScalable f v).top_ok)

  pub add_all : List String → ScalableBloomFilter → ScalableBloomFilter
  add_all [] f = f
  add_all (k ∷ ks) f = add_all ks (add k f).1

  kept-add_all :
      (ks : List String) (key : String) (f : ScalableBloomFilter)
      → contains key f ≡ true
      → contains key (add_all ks f) ≡ true
  unfolding add_all
  kept-add_all [] key f e = e
  kept-add_all (k ∷ ks) key f e = kept-add_all ks key (add k f).1 (contains-add_kept k key f e)

  -- No false negatives across layers: from any well-formed filter, after any sequence of adds, every
  -- added key is found, the layers are within the bound, and all but the top one are full.
  pub add_all-IsSound :
      (ks : List String) (f : ScalableBloomFilter)
      → IsScalable f
      → IsScalable (add_all ks f) × All (λ k. contains k (add_all ks f) ≡ true) ks
  unfolding add_all
  add_all-IsSound [] f v = (v, tt)
  add_all-IsSound (k ∷ ks) f v =
      let rest = add_all-IsSound ks (add k f).1 (add-IsScalable k f v) in
      (rest.0, (kept-add_all ks k (add k f).1 (contains-add_self k f v), rest.1))
