-- ===== src/Collector.antt =====
-- core/collector.py: the requests that this node holds. A request that the queue hands out is a new
-- object, numbered here in the order of creation (`id(request)`); each locked section is one step.
pub mod Held
pub mod Identity
use netspy.Base.{
  ℕ, zero, suc, ◌+◌, ◌-◌, Bool, true, false, not, ◌&&◌, ◌||◌, Option, none, some, List, [], ◌∷◌,
  ◌++◌, map, length, Outcome, returned, raised, ℕ_eq,
}
use netspy.Base.Dict.{Dict, insert, remove}
use netspy.Request.{Request}
use netspy.TaskQueue.Interface.{TaskQueue}

pub record Object : Type 0 where
  pub id : ℕ
  pub request : Request

pub record Collector (Q : Type 0) : Type 0 where
  pub queue : Q
  pub buffer : List Object
  pub in_progress : Dict ℕ Object
  -- the identity of the next object
  pub next_id : ℕ

abbrev pub is_nil {ℓ} : {A : Type ℓ} → List A → Bool
is_nil [] = true
is_nil (x ∷ xs) = false

-- New objects for the decoded requests.
unfoldable pub objects : ℕ → List Request → List Object
objects n [] = []
objects n (r ∷ rs) = record { id = n; request = r } ∷ objects (suc n) rs

module _ {Q : Type 0} (T : TaskQueue Q) where
  unfoldable pub mark_in_progress : Object → Collector Q → Collector Q
  mark_in_progress o c = record c { in_progress = insert o.id o c.in_progress }

  -- `extra` joins the buffer, then `first` is marked
  abbrev pub keep_extra :
      Request → Outcome (List Request) → Collector Q → Outcome (Option Object) × Collector Q
  keep_extra first raised c = (raised, c)
  keep_extra first (returned extra) c =
      let o : Object = record { id = c.next_id; request = first } in
      (
        returned (some o),
        mark_in_progress o (record c {
          buffer = c.buffer ++ objects (suc c.next_id) extra;
          next_id = suc c.next_id + length extra;
        }),
      )

  -- the part of `get_request` after the queue has answered; `count` is COLLECTOR_TASK_COUNT
  abbrev pub from_queue :
      ℕ → Outcome (Option Request) → Collector Q → Outcome (Option Object) × Collector Q
  from_queue count raised c = (raised, c)
  from_queue count (returned none) c = (returned none, c)
  from_queue count (returned (some first)) c =
      let (extra, q) = T.get_batch (count - 1) c.queue in
      keep_extra first extra (record c { queue = q })

  abbrev pub from_buffer : ℕ → List Object → Collector Q → Outcome (Option Object) × Collector Q
  from_buffer count (o ∷ rest) c =
      (returned (some o), mark_in_progress o (record c { buffer = rest }))
  from_buffer count [] c =
      let (answer, q) = T.get c.queue in from_queue count answer (record c { queue = q })

  unfoldable pub get_request : ℕ → Collector Q → Outcome (Option Object) × Collector Q
  unfolding mark_in_progress
  get_request count c = from_buffer count c.buffer c

  unfoldable pub done : Object → Collector Q → Collector Q
  done o c = record c { in_progress = remove o.id c.in_progress; queue = T.done o.request c.queue }

  -- buffered requests, then those that a worker has
  unfoldable pub held_requests : Collector Q → List Request
  held_requests c = map (λ o. o.request) c.buffer ++ map (λ e. e.1.request) c.in_progress

  unfoldable pub is_empty : Collector Q → Bool
  is_empty c = not (not (is_nil c.buffer) || not (is_nil c.in_progress)) && T.is_empty c.queue

  unfoldable pub buffered_count : Collector Q → ℕ
  buffered_count c = length c.buffer

  unfoldable pub drain : Collector Q → List Request × Collector Q
  drain c = (map (λ o. o.request) c.buffer, record c { buffer = [] })
