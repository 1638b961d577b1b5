-- ===== src/Collector/Identity.antt =====
-- The identities of the objects that the collector holds.
use netspy.Base.{
  ℕ, suc, ◌+◌, ◌-◌, ◌≤◌, ◌<◌, ◌≡◌, refl, false, ◌||◌, Option, none, some, List, [], ◌∷◌, ◌++◌,
  length, Outcome, returned, raised, arith, ◌==◌, ℕ_eq, All, All-append, All-map,
}
use netspy.Base.Dict.{Dict, insert, remove, has}
use netspy.Request.{Request}
use netspy.TaskQueue.Interface.{TaskQueue}
use netspy.Collector.{
  Object, Collector, objects, mark_in_progress, get_request, from_queue, from_buffer, keep_extra,
  done,
}
use netspy.Collector.Held.{IsCollector, Fresh, Below}

has-insert :
    (k j : ℕ) (o : Object) (d : Dict ℕ Object) → has j (insert k o d) ≡ ((k == j) || has j d)
unfolding has insert
has-insert k j o [] = ground arith
has-insert k j o ((i, x) ∷ d) = ground (arith, has-insert k j o d)

keyed-insert :
    (n k : ℕ) (o : Object) (d : Dict ℕ Object)
    → k < n
    → All (λ e. e.0 < n) d
    → All (λ e. e.0 < n) (insert k o d)
unfolding insert
keyed-insert n k o [] h v = (h, tt)
keyed-insert n k o ((i, x) ∷ d) h v = ground (arith, keyed-insert n k o d h v.1)

All-remove : (n k : ℕ) (d : Dict ℕ Object) → All (λ e. e.0 < n) d → All (λ e. e.0 < n) (remove k d)
unfolding remove
All-remove n k [] v = tt
All-remove n k ((i, x) ∷ d) v = ground (arith, All-remove n k d v.1)

has-remove : (k j : ℕ) (d : Dict ℕ Object) → has j d ≡ false → has j (remove k d) ≡ false
unfolding has remove
has-remove k j [] h = refl
has-remove k j ((i, x) ∷ d) h = ground (arith, has-remove k j d)

apart-insert :
    (o : Object) (d : Dict ℕ Object) (os : List Object)
    → All (λ x. (o.id == x.id) ≡ false) os
    → All (λ x. has x.id d ≡ false) os
    → All (λ x. has x.id (insert o.id o d) ≡ false) os
apart-insert o d [] f a = tt
apart-insert o d (x ∷ os) f a =
    (ground (arith, has-insert o.id x.id o d), apart-insert o d os f.1 a.1)

apart-remove :
    (k : ℕ) (d : Dict ℕ Object) (os : List Object)
    → All (λ x. has x.id d ≡ false) os
    → All (λ x. has x.id (remove k d) ≡ false) os
apart-remove k d [] a = tt
apart-remove k d (x ∷ os) a = (has-remove k x.id d a.0, apart-remove k d os a.1)

-- Objects that are made later than the bound.
abbrev Above : ℕ → List Object → Type 0
Above n = All (λ o. n ≤ o.id)

Above-objects : (n m : ℕ) (rs : List Request) → n ≤ m → Above n (objects m rs)
unfolding objects
Above-objects n m [] h = tt
Above-objects n m (r ∷ rs) h = (h, Above-objects n (suc m) rs (omega arith))

Below-objects : (n m : ℕ) (rs : List Request) → m + length rs ≤ n → Below n (objects m rs)
unfolding objects
Below-objects n m [] h = tt
Below-objects n m (r ∷ rs) h = (omega arith, Below-objects n (suc m) rs (omega arith))

unlike-Above :
    (n : ℕ) (o : Object) (os : List Object)
    → o.id < n
    → Above n os
    → All (λ x. (o.id == x.id) ≡ false) os
unlike-Above n o [] h a = tt
unlike-Above n o (x ∷ os) h a = (ground (arith, a.0), unlike-Above n o os h a.1)

Fresh-objects : (m : ℕ) (rs : List Request) → Fresh (objects m rs)
unfolding objects
Fresh-objects m [] = tt
Fresh-objects m (r ∷ rs) = (
  unlike-Above (suc m) (record { id = m; request = r }) (objects (suc m) rs) (omega arith)
      (Above-objects (suc m) (suc m) rs (omega arith)),
  Fresh-objects (suc m) rs,
)

Fresh-append :
    (n : ℕ) (xs ys : List Object) → Below n xs → Above n ys → Fresh xs → Fresh ys → Fresh (xs ++ ys)
Fresh-append n [] ys b a f g = g
Fresh-append n (x ∷ xs) ys b a f g =
    (All-append _ xs ys f.0 (unlike-Above n x ys b.0 a), Fresh-append n xs ys b.1 a f.1 g)

missing : (n i : ℕ) (d : Dict ℕ Object) → n ≤ i → All (λ e. e.0 < n) d → has i d ≡ false
unfolding has
missing n i [] h k = refl
missing n i ((j, o) ∷ d) h k = ground (arith, missing n i d h k.1, k.0)

unmade-Above :
    (n : ℕ) (d : Dict ℕ Object) (os : List Object)
    → All (λ e. e.0 < n) d
    → Above n os
    → All (λ x. has x.id d ≡ false) os
unmade-Above n d [] k a = tt
unmade-Above n d (x ∷ os) k a = (missing n x.id d a.0 k, unmade-Above n d os k a.1)

module _ {Q : Type 0} (T : TaskQueue Q) where
  mark-IsCollector :
      (o : Object) (c : Collector Q)
      → o.id < c.next_id
      → All (λ x. (o.id == x.id) ≡ false) c.buffer
      → IsCollector c
      → IsCollector (mark_in_progress T o c)
  unfolding mark_in_progress
  mark-IsCollector o c h f v = record {
    made = v.made;
    keyed = keyed-insert c.next_id o.id o c.in_progress h v.keyed;
    apart = apart-insert o c.in_progress c.buffer f v.apart;
    unlike = v.unlike;
  }

  -- Settling a request keeps the objects apart.
  pub done-IsCollector : (o : Object) (c : Collector Q) → IsCollector c → IsCollector (done T o c)
  unfolding done
  done-IsCollector o c v = record {
    made = v.made;
    keyed = All-remove c.next_id o.id c.in_progress v.keyed;
    apart = apart-remove o.id c.in_progress c.buffer v.apart;
    unlike = v.unlike;
  }

  keep_extra-IsCollector :
      (first : Request) (extra : Outcome (List Request)) (c : Collector Q)
      → IsCollector c
      → IsCollector (keep_extra T first extra c).1
  keep_extra-IsCollector first raised c v = v
  keep_extra-IsCollector first (returned extra) c v =
      let made_now : List Object = objects (suc c.next_id) extra in
      let above = Above-objects (suc c.next_id) (suc c.next_id) extra (omega arith) in
      let newest : Object = record { id = c.next_id; request = first } in
      mark-IsCollector newest _ (omega arith)
        (All-append _ c.buffer made_now (All-map _ _ c.buffer (λ x h. ground arith) v.made)
          (unlike-Above (suc c.next_id) newest made_now (omega arith) above))
        (record {
          made =
              All-append _ c.buffer made_now (All-map _ _ c.buffer (λ x h. omega arith) v.made)
                (Below-objects _ (suc c.next_id) extra (omega arith));
          keyed = All-map _ _ c.in_progress (λ e h. omega arith) v.keyed;
          apart = All-append _ c.buffer made_now v.apart (
              unmade-Above (suc c.next_id) c.in_progress made_now
                (All-map _ _ c.in_progress (λ e h. omega arith) v.keyed) above);
          unlike =
              Fresh-append (suc c.next_id) c.buffer made_now
                (All-map _ _ c.buffer (λ x h. omega arith) v.made) above v.unlike
                (Fresh-objects (suc c.next_id) extra);
        })

  from_queue-IsCollector :
      (count : ℕ) (answer : Outcome (Option Request)) (c : Collector Q)
      → IsCollector c
      → IsCollector (from_queue T count answer c).1
  from_queue-IsCollector count raised c v = v
  from_queue-IsCollector count (returned none) c v = v
  from_queue-IsCollector count (returned (some first)) c v =
      keep_extra-IsCollector first (T.get_batch (count - 1) c.queue).0
        (record c { queue = (T.get_batch (count - 1) c.queue).1 })
        (record { made = v.made; keyed = v.keyed; apart = v.apart; unlike = v.unlike })

  from_buffer-IsCollector :
      (count : ℕ) (buffer : List Object) (c : Collector Q)
      → c.buffer ≡ buffer
      → IsCollector c
      → IsCollector (from_buffer T count buffer c).1
  from_buffer-IsCollector count [] c e v =
      from_queue-IsCollector count (T.get c.queue).0 (record c { queue = (T.get c.queue).1 })
        (record { made = v.made; keyed = v.keyed; apart = v.apart; unlike = v.unlike })
  from_buffer-IsCollector count (o ∷ rest) c e v =
      let made = (rw e at v.made) in
      let apart = (rw e at v.apart) in
      let unlike = (rw e at v.unlike) in
      mark-IsCollector o (record c { buffer = rest }) made.0 unlike.0
        (record { made = made.1; keyed = v.keyed; apart = apart.1; unlike = unlike.1 })

  -- Whatever the queue answers, a call of `get_request` keeps a collector well formed: its objects were all
  -- made before, no object stands twice in the buffer, and none is both buffered and in progress.
  pub get_request-IsCollector :
      (count : ℕ) (c : Collector Q) → IsCollector c → IsCollector (get_request T count c).1
  unfolding get_request
  get_request-IsCollector count c v = from_buffer-IsCollector count c.buffer c refl v
