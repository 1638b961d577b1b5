-- ===== src/TaskQueue/Memory/Order.antt =====
-- The order in which the memory queue hands out requests.
use netspy.Base.{
  ◌∙◌, ℕ, zero, suc, ◌<◌, ◌≡◌, refl, true, false, List, [], ◌∷◌, arith, if◌then◌else◌, ltb, All,
  max, map, take, drop, ap, All-map, Bool-cases, inl, inr,
}
use netspy.Request.{Request}
use netspy.TaskQueue.Memory.{
  Entry, MemoryTaskQueue, empty_queue, before, push, put, pop, get, get_up_to, get_batch,
}

-- Every entry comes after `e`.
abbrev pub After : Entry → List Entry → Type 0
After e = All (λ x. before e x ≡ true)

abbrev pub InOrder : List Entry → Type 0
InOrder [] = Unit {0}
InOrder (e ∷ es) = After e es × InOrder es

pub record IsOrdered (q : MemoryTaskQueue) : Type 0 where
  pub in_order : InOrder q.entries
  pub numbered : All (λ e. e.seq < q.next_seq) q.entries

before_trans : (a b c : Entry) → before a b ≡ true → before b c ≡ true → before a c ≡ true
unfolding before
before_trans a b c h k = ground arith

After-trans : (a b : Entry) (es : List Entry) → before a b ≡ true → After b es → After a es
After-trans a b [] h k = tt
After-trans a b (x ∷ es) h k = (before_trans a b x h k.0, After-trans a b es h k.1)

After-push : (a e : Entry) (es : List Entry) → before a e ≡ true → After a es → After a (push e es)
unfolding push
After-push a e [] h k = (h, tt)
After-push a e (x ∷ es) h k = ground (arith, After-push a e es h k.1)

before_new : (e x : Entry) → x.seq < e.seq → before e x ≡ false → before x e ≡ true
unfolding before
before_new e x h k = ground arith

InOrder-push :
    (e : Entry) (es : List Entry) → All (λ x. x.seq < e.seq) es → InOrder es → InOrder (push e es)
unfolding push
InOrder-push e [] n h = (tt, tt)
InOrder-push e (x ∷ es) n h = elim (Bool-cases (before e x)) [
  | inl p ↦ rw p ((p, After-trans e x es p h.0), h)
  | inr p ↦ rw p (After-push x e es (before_new e x n.0 p) h.0, InOrder-push e es n.1 h.1)
]

numbered-push :
    (n : ℕ) (e : Entry) (es : List Entry)
    → e.seq < suc n
    → All (λ x. x.seq < n) es
    → All (λ x. x.seq < suc n) (push e es)
unfolding push
numbered-push n e [] h k = (h, tt)
numbered-push n e (x ∷ es) h k = elim (Bool-cases (before e x)) [
  | inl p ↦ rw p (h, (omega (arith, k.0), All-map _ _ es (λ y l. omega arith) k.1))
  | inr p ↦ rw p (omega (arith, k.0), numbered-push n e es h k.1)
]

-- Putting a request keeps the queue in order.
pub put-IsOrdered : (r : Request) (q : MemoryTaskQueue) → IsOrdered q → IsOrdered (put r q)
unfolding put
put-IsOrdered r q h = record {
  in_order = InOrder-push _ q.entries h.numbered h.in_order;
  numbered = numbered-push q.next_seq _ q.entries (omega arith) h.numbered;
}

pop-IsOrdered :
    (es : List Entry) (n : ℕ) → InOrder es → All (λ e. e.seq < n) es → IsOrdered (pop es n).1
pop-IsOrdered [] n h k = record { in_order = tt; numbered = tt }
pop-IsOrdered (e ∷ es) n h k = record { in_order = h.1; numbered = k.1 }

pub get-IsOrdered : (q : MemoryTaskQueue) → IsOrdered q → IsOrdered (get q).1
unfolding get
get-IsOrdered q h = pop-IsOrdered q.entries q.next_seq h.in_order h.numbered

-- The requests in the order of service.
abbrev pub requests : MemoryTaskQueue → List Request
requests q = map (λ e. e.request) q.entries

-- The specification: a list by priority, a new request behind those of its own priority.
unfoldable pub insert_stable : Request → List Request → List Request
insert_stable r [] = r ∷ []
insert_stable r (x ∷ xs) = if ltb r.priority x.priority then r ∷ x ∷ xs else x ∷ insert_stable r xs

-- The numbers of the entries are those of their requests, as `put` makes them.
abbrev pub Labelled : List Entry → Type 0
Labelled = All (λ e. e.priority ≡ e.request.priority)

Labelled-push :
    (e : Entry) (es : List Entry)
    → e.priority ≡ e.request.priority
    → Labelled es
    → Labelled (push e es)
unfolding push
Labelled-push e [] h k = (h, tt)
Labelled-push e (x ∷ es) h k = elim (Bool-cases (before e x)) [
  | inl p ↦ rw p (h, k)
  | inr p ↦ rw p (k.0, Labelled-push e es h k.1)
]

before-newest : (e x : Entry) → x.seq < e.seq → before e x ≡ ltb e.priority x.priority
unfolding before
before-newest e x h = ground arith

push-stable :
    (e : Entry) (es : List Entry)
    → All (λ x. x.seq < e.seq) es
    → e.priority ≡ e.request.priority
    → Labelled es
    → map (λ x. x.request) (push e es) ≡ insert_stable e.request (map (λ x. x.request) es)
unfolding push insert_stable
push-stable e [] n h k = refl
push-stable e (x ∷ es) n h k =
    ground (arith, before-newest e x n.0, k.0, push-stable e es n.1 h k.1)

pub record IsQueue (q : MemoryTaskQueue) : Type 0 where
  pub ordered : IsOrdered q
  pub labelled : Labelled q.entries

pub IsQueue-empty : IsQueue empty_queue
IsQueue-empty = record { ordered = record { in_order = tt; numbered = tt }; labelled = tt }

pub put-IsQueue : (r : Request) (q : MemoryTaskQueue) → IsQueue q → IsQueue (put r q)
put-IsQueue r q h = record {
  ordered = put-IsOrdered r q h.ordered;
  labelled = unfold put in Labelled-push _ q.entries refl h.labelled;
}

pub requests-put :
    (r : Request) (q : MemoryTaskQueue)
    → IsQueue q
    → requests (put r q) ≡ insert_stable r (requests q)
unfolding put
requests-put r q h = push-stable _ q.entries h.ordered.numbered refl h.labelled

pub puts : List Request → MemoryTaskQueue → MemoryTaskQueue
puts [] q = q
puts (r ∷ rs) q = puts rs (put r q)

pub insert_all : List Request → List Request → List Request
insert_all [] l = l
insert_all (r ∷ rs) l = insert_all rs (insert_stable r l)

requests-puts :
    (rs : List Request) (q : MemoryTaskQueue)
    → IsQueue q
    → requests (puts rs q) ≡ insert_all rs (requests q)
unfolding puts insert_all
requests-puts [] q h = refl
requests-puts (r ∷ rs) q h =
    requests-puts rs (put r q) (put-IsQueue r q h) ∙ ap (insert_all rs) (requests-put r q h)

get_up_to_lem :
    (n : ℕ) (es : List Entry) (k : ℕ)
    → ((get_up_to n (record { entries = es; next_seq = k })).0 ≡ take n (map (λ e. e.request) es))
      × ((get_up_to n (record { entries = es; next_seq = k })).1.entries ≡ drop n es)
unfolding get_up_to get
get_up_to_lem zero es k = (refl, refl)
get_up_to_lem (suc n) [] k = (refl, refl)
get_up_to_lem (suc n) (e ∷ es) k =
    (ap (◌∷◌ e.request) (get_up_to_lem n es k).0, (get_up_to_lem n es k).1)

-- Whatever requests are put into an empty queue, a batch of `count` returns the first max(1, count) of
-- them by priority, those of equal priority in the order in which they were put.
pub get_batch-puts :
    (rs : List Request) (count : ℕ)
    → (get_batch count (puts rs empty_queue)).0 ≡ take (max 1 count) (insert_all rs [])
unfolding get_batch
get_batch-puts rs count =
    (get_up_to_lem (max 1 count) (puts rs empty_queue).entries (puts rs empty_queue).next_seq).0
    ∙ ap (take (max 1 count)) (requests-puts rs empty_queue IsQueue-empty)
