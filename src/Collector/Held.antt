-- ===== src/Collector/Held.antt =====
-- The collector's account of the requests that this node holds.
use netspy.Base.{
  ap, ℕ, suc, ◌+◌, ◌-◌, ◌<◌, ◌≡◌, refl, Bool, false, Option, none, some, List, [], ◌∷◌, ◌++◌, map,
  length, Outcome, returned, raised, arith, if◌then◌else◌, ◌==◌, ℕ_eq, tally, tally-append, All,
}
use netspy.Base.Dict.{Dict, insert, has}
use netspy.Request.{Request}
use netspy.TaskQueue.Interface.{TaskQueue}
use netspy.Collector.{
  Object, Collector, objects, mark_in_progress, get_request, from_queue, from_buffer, keep_extra,
  held_requests,
}

abbrev pub Below : ℕ → List Object → Type 0
Below n = All (λ o. o.id < n)

-- No object stands twice in the buffer.
abbrev pub Fresh : List Object → Type 0
Fresh [] = Unit {0}
Fresh (o ∷ os) = All (λ x. (o.id == x.id) ≡ false) os × Fresh os

-- Every object is one that was made, and no buffered object is also in progress.
pub record IsCollector {Q : Type 0} (c : Collector Q) : Type 0 where
  pub made : Below c.next_id c.buffer
  pub keyed : All (λ e. e.0 < c.next_id) c.in_progress
  pub apart : All (λ o. has o.id c.in_progress ≡ false) c.buffer
  pub unlike : Fresh c.buffer

tally_progress : (Request → Bool) → Dict ℕ Object → ℕ
tally_progress p d = tally p (map (λ e. e.1.request) d)

tally-insert :
    (p : Request → Bool) (o : Object) (d : Dict ℕ Object)
    → has o.id d ≡ false
    → tally p (map (λ e. e.1.request) (insert o.id o d))
      ≡ tally p (map (λ e. e.1.request) d) + (if p o.request then 1 else 0)
unfolding insert has
tally-insert p o [] h = omega arith
tally-insert p o ((k, x) ∷ d) h = ground (arith, tally-insert p o d)

tally-objects :
    (p : Request → Bool) (n : ℕ) (rs : List Request)
    → tally p (map (λ o. o.request) (objects n rs)) ≡ tally p rs
unfolding objects
tally-objects p n [] = refl
tally-objects p n (r ∷ rs) = omega (arith, tally-objects p (suc n) rs)

has_unmade : (n : ℕ) (d : Dict ℕ Object) → All (λ e. e.0 < n) d → has n d ≡ false
unfolding has
has_unmade n [] h = refl
has_unmade n ((k, o) ∷ d) h = ground (arith, has_unmade n d h.1)

tally-map_append :
    (p : Request → Bool) (xs ys : List Object)
    → tally p (map (λ o. o.request) (xs ++ ys))
      ≡ tally p (map (λ o. o.request) xs) + tally p (map (λ o. o.request) ys)
tally-map_append p [] ys = omega arith
tally-map_append p (x ∷ xs) ys = omega (arith, tally-map_append p xs ys)

module _ {Q : Type 0} (T : TaskQueue Q) (count : ℕ) (p : Request → Bool) where
  held_parts :
      (c : Collector Q)
      → tally p (held_requests T c)
        ≡ tally p (map (λ o. o.request) c.buffer) + tally p (map (λ e. e.1.request) c.in_progress)
  unfolding held_requests
  held_parts c = tally-append p _ _

  held-mark :
      (o : Object) (c : Collector Q)
      → has o.id c.in_progress ≡ false
      → tally p (held_requests T (mark_in_progress T o c))
        ≡ tally p (held_requests T c) + (if p o.request then 1 else 0)
  unfolding mark_in_progress
  held-mark o c h = omega (
    arith,
    held_parts c,
    held_parts (record c { in_progress = insert o.id o c.in_progress }),
    tally-insert p o c.in_progress h,
  )

  -- the requests that a call gets from the queue and keeps
  abbrev pub kept : Outcome (Option Request) → Outcome (List Request) → List Request
  kept raised extra = []
  kept (returned none) extra = []
  kept (returned (some first)) raised = []
  kept (returned (some first)) (returned extra) = first ∷ extra

  held-keep_extra :
      (first : Request) (extra : Outcome (List Request)) (c : Collector Q)
      → IsCollector c
      → tally p (held_requests T (keep_extra T first extra c).1)
        ≡ tally p (held_requests T c) + tally p (kept (returned (some first)) extra)
  held-keep_extra first raised c v = omega arith
  held-keep_extra first (returned extra) c v =
      let o : Object = record { id = c.next_id; request = first } in
      let more : Collector Q = record c {
        buffer = c.buffer ++ objects (suc c.next_id) extra;
        next_id = suc c.next_id + length extra;
      } in
      omega (
        arith,
        held-mark o more (has_unmade c.next_id c.in_progress v.keyed),
        held_parts more,
        held_parts c,
        tally-map_append p c.buffer (objects (suc c.next_id) extra),
        tally-objects p (suc c.next_id) extra,
      )

  held-from_queue :
      (answer : Outcome (Option Request)) (c : Collector Q)
      → IsCollector c
      → tally p (held_requests T (from_queue T count answer c).1)
        ≡ tally p (held_requests T c) + tally p (kept answer (T.get_batch (count - 1) c.queue).0)
  unfolding held_requests
  held-from_queue raised c v = omega arith
  held-from_queue (returned none) c v = omega arith
  held-from_queue (returned (some first)) c v =
      held-keep_extra first (T.get_batch (count - 1) c.queue).0
        (record c { queue = (T.get_batch (count - 1) c.queue).1 })
        (record { made = v.made; keyed = v.keyed; apart = v.apart; unlike = v.unlike })

  -- what one `get_request` takes from the queue: nothing while the buffer has a request
  abbrev pub fetched : List Object → Q → List Request
  fetched (o ∷ os) q = []
  fetched [] q = kept (T.get q).0 (T.get_batch (count - 1) (T.get q).1).0

  held-from_buffer :
      (buffer : List Object) (c : Collector Q)
      → c.buffer ≡ buffer
      → IsCollector c
      → tally p (held_requests T (from_buffer T count buffer c).1)
        ≡ tally p (held_requests T c) + tally p (fetched buffer c.queue)
  unfolding held_requests
  held-from_buffer (o ∷ rest) c e v = omega (
    arith,
    held-mark o (record c { buffer = rest }) (rw e at v.apart).0,
    held_parts c,
    held_parts (record c { buffer = rest }),
    ap (λ (b : List Object). tally p (map (λ x. x.request) b)) e,
  )
  held-from_buffer [] c e v =
      held-from_queue (T.get c.queue).0 (record c { queue = (T.get c.queue).1 })
        (record { made = v.made; keyed = v.keyed; apart = v.apart; unlike = v.unlike })

  -- Whatever the queue answers, and whether it raises, `get_request` on a well-formed collector keeps every
  -- request that the node holds and adds exactly the one that the queue's `get` returned and those that its
  -- `get_batch` returned, none at all if that second call raises: counted by any test.
  pub held-get_request :
      (c : Collector Q)
      → IsCollector c
      → tally p (held_requests T (get_request T count c).1)
        ≡ tally p (held_requests T c) + tally p (fetched c.buffer c.queue)
  unfolding get_request
  held-get_request c v = held-from_buffer c.buffer c refl v
