-- ===== src/RequestBuffer.antt =====
-- buffer/request_buffer.py: requests wait here, pass the fingerprint filter and go to the task queue.
-- The queue and the filter may raise at any call. The locked sections of one thread are run in order;
-- the stop event, the thread's timer and the log are left out.
pub mod Logged
pub mod Conserved
use netspy.Base.{
  ℕ, suc, String, Bool, true, false, List, [], ◌∷◌, ◌++◌, length, Outcome, returned, raised,
  if◌then◌else◌, leb,
}
use netspy.Request.{Request}
use netspy.TaskQueue.Interface.{TaskQueue}

-- A fingerprint filter: `add` answers whether the key is new.
pub record Filter (D : Type 0) : Type 0 where
  pub add : String → D → Outcome Bool × D

pub record RequestBuffer (Q D : Type 0) : Type 0 where
  pub queue : Q
  pub dedup : D
  pub pending : List Request
  -- the counter DEDUP_DROPPED
  pub dedup_dropped : ℕ

-- the first request of a batch has passed the filter: it must not meet its own fingerprint again
unfoldable pub clear_first : Bool → List Request → List Request
clear_first passed [] = []
clear_first true (r ∷ rs) = record r { filter_repeat = false } ∷ rs
clear_first false (r ∷ rs) = r ∷ rs

module _ {Q D : Type 0} (T : TaskQueue Q) (F : Filter D) (fingerprint : Request → String) where
  -- `_requeue`: back to the front of the buffer
  unfoldable pub requeue : List Request → Bool → RequestBuffer Q D → RequestBuffer Q D
  requeue rs first_passed b = record b { pending = clear_first first_passed rs ++ b.pending }

  -- `self._dedup.add(request.fingerprint) if request.filter_repeat else True`
  abbrev pub is_fresh : Request → D → Outcome Bool × D
  is_fresh r d = if r.filter_repeat then F.add (fingerprint r) d else (returned true, d)

  -- The loop of `flush` over the batch; the answer is whether it ended without an exception.
  unfoldable pub push_all : List Request → RequestBuffer Q D → Bool × RequestBuffer Q D
  push_all [] b = (true, b)
  push_all (r ∷ rs) b =
      let (fresh, d) = is_fresh r b.dedup in
      let b' : RequestBuffer Q D = record b { dedup = d } in
      elim fresh [
        | raised ↦ (false, requeue (r ∷ rs) false b')
        | returned new ↦ elim new [
          | false ↦ push_all rs (record b' { dedup_dropped = suc b.dedup_dropped })
          | true ↦
              let (accepted, q) = T.put r b.queue in
              let b'' : RequestBuffer Q D = record b' { queue = q } in
              elim accepted [ true ↦ push_all rs b'' | false ↦ (false, requeue (r ∷ rs) true b'') ]
        ]
      ]

  unfoldable pub flush : RequestBuffer Q D → Bool × RequestBuffer Q D
  flush b = push_all b.pending (record b { pending = [] })

  -- `put`; `limit` is REQUEST_BUFFER_MAX_CACHED. An exception of the flush leaves `put` too.
  unfoldable pub put : ℕ → Request → RequestBuffer Q D → Bool × RequestBuffer Q D
  put limit r b =
      let b' : RequestBuffer Q D = record b { pending = b.pending ++ r ∷ [] } in
      if leb limit (length b'.pending) then flush b' else (true, b')

  unfoldable pub put_retry : ℕ → Request → RequestBuffer Q D → Bool × RequestBuffer Q D
  put_retry limit r b = put limit (record r { filter_repeat = false }) b

  -- `_flush_guarded`: the background thread survives the exception
  unfoldable pub flush_guarded : RequestBuffer Q D → RequestBuffer Q D
  flush_guarded b = (flush b).1

  unfoldable pub drain_pending : RequestBuffer Q D → List Request × RequestBuffer Q D
  drain_pending b = (b.pending, record b { pending = [] })
