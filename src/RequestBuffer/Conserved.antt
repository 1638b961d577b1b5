-- ===== src/RequestBuffer/Conserved.antt =====
-- Where the requests are that a flush of the request buffer takes up, whatever raises.
use netspy.Base.{
  ◌≤◌, append-nil, ℕ, suc, ◌+◌, String, ◌≡◌, refl, Bool, true, false, ◌&&◌, List, [], ◌∷◌, ◌++◌,
  returned, arith, tally, tally-append, All,
}
use netspy.Request.{Request}
use netspy.TaskQueue.Interface.{TaskQueue}
use netspy.RequestBuffer.{
  Filter, RequestBuffer, clear_first, requeue, is_fresh, push_all, flush, put,
}
use netspy.RequestBuffer.Logged.{IsCounted, everything, logged, log_count, logged-IsCounted}

module _ {Q D : Type 0} (T : TaskQueue Q) (F : Filter D) (fingerprint : Request → String) where
  module _ (p : Request → Bool) (count : Q → ℕ) (law : IsCounted T p count) where
    -- what is queued and what waits
    abbrev pub accounted : RequestBuffer Q D → ℕ
    accounted b = count b.queue + tally p b.pending

    -- the test does not look at the flag that `flush` may clear
    abbrev pub Blind : Type 0
    Blind = (r : Request) (f : Bool) → p (record r { filter_repeat = f }) ≡ p r

    tally-clear_first :
        Blind → (passed : Bool) (rs : List Request) → tally p (clear_first passed rs) ≡ tally p rs
    unfolding clear_first
    tally-clear_first blind passed [] = refl
    tally-clear_first blind true (r ∷ rs) = rw (blind r false)
    tally-clear_first blind false (r ∷ rs) = refl

    accounted-requeue :
        Blind
        → (rs : List Request) (passed : Bool) (b : RequestBuffer Q D)
        → accounted (requeue T F fingerprint rs passed b) ≡ accounted b + tally p rs
    unfolding requeue
    accounted-requeue blind rs passed b =
        omega (
          arith,
          tally-append p (clear_first passed rs) b.pending,
          tally-clear_first blind passed rs,
        )

    -- requests of the kind that the test picks never meet the filter
    abbrev pub SkipsFilter : List Request → Type 0
    SkipsFilter = All (λ r. (p r && r.filter_repeat) ≡ false)

    push_all-unfiltered :
        Blind
        → (rs : List Request) (b : RequestBuffer Q D) → SkipsFilter rs
        → accounted (push_all T F fingerprint rs b).1 ≡ accounted b + tally p rs
    unfolding push_all
    push_all-unfiltered blind [] b u = omega arith
    push_all-unfiltered blind (r ∷ rs) b u =
        let d : D = (is_fresh T F fingerprint r b.dedup).1 in
        let q : Q = (T.put r b.queue).1 in
        ground (
          arith,
          u.0,
          push_all-unfiltered blind rs (record b { dedup = d; dedup_dropped = suc b.dedup_dropped })
              u.1,
          push_all-unfiltered blind rs (record b { dedup = d; queue = q }) u.1,
          accounted-requeue blind (r ∷ rs) false (record b { dedup = d }),
          accounted-requeue blind (r ∷ rs) true (record b { dedup = d; queue = q }),
          law.accepted r b.queue,
          law.refused r b.queue,
        )

    dropped_here :
        (rs : List Request) (passed : Bool) (b : RequestBuffer Q D)
        → (requeue T F fingerprint rs passed b).dedup_dropped ≡ b.dedup_dropped
    unfolding requeue
    dropped_here rs passed b = refl

    -- of any kind, nothing is added, and what is missing is counted as a duplicate
    push_all-kept :
        Blind
        → (rs : List Request) (b : RequestBuffer Q D)
        → let after = (push_all T F fingerprint rs b).1 in
          (accounted after ≤ accounted b + tally p rs)
          × (accounted b + tally p rs + b.dedup_dropped ≤ accounted after + after.dedup_dropped)
    unfolding push_all
    push_all-kept blind [] b = (omega arith, omega arith)
    push_all-kept blind (r ∷ rs) b =
        let d : D = (is_fresh T F fingerprint r b.dedup).1 in
        let q : Q = (T.put r b.queue).1 in
        let dropped =
          push_all-kept blind rs (record b { dedup = d; dedup_dropped = suc b.dedup_dropped }) in
        let pushed = push_all-kept blind rs (record b { dedup = d; queue = q }) in
        let unjudged = accounted-requeue blind (r ∷ rs) false (record b { dedup = d }) in
        let unput = accounted-requeue blind (r ∷ rs) true (record b { dedup = d; queue = q }) in
        (
          ground (
            arith,
            dropped.0,
            pushed.0,
            unjudged,
            unput,
            law.accepted r b.queue,
            law.refused r b.queue,
          ),
          ground (
            arith,
            dropped.1,
            pushed.1,
            unjudged,
            unput,
            law.accepted r b.queue,
            law.refused r b.queue,
            dropped_here (r ∷ rs) false (record b { dedup = d }),
            dropped_here (r ∷ rs) true (record b { dedup = d; queue = q }),
          ),
        )

    -- A kind of request that skips the filter, as retries do, and that a test picks which does not read the
    -- filter flag, is conserved by a flush wherever an exception strikes, over a queue that counts each
    -- put that returns and none that raises: queued and waiting together are as many as before.
    pub flush-unfiltered :
        Blind
        → (b : RequestBuffer Q D) → SkipsFilter b.pending
        → accounted (flush T F fingerprint b).1 ≡ accounted b
    unfolding flush
    flush-unfiltered blind b u =
        omega (arith, push_all-unfiltered blind b.pending (record b { pending = [] }) u)

  dropped-requeue :
      (rs : List Request) (passed : Bool) (b : RequestBuffer Q D)
      → (requeue T F fingerprint rs passed b).dedup_dropped ≡ b.dedup_dropped
  unfolding requeue
  dropped-requeue rs passed b = refl

  module _ (count : Q → ℕ) (law : IsCounted T everything count) where
    push_all-conserved :
        (rs : List Request) (b : RequestBuffer Q D)
        → let after = (push_all T F fingerprint rs b).1 in
          accounted everything count law after + after.dedup_dropped
          ≡ accounted everything count law b + b.dedup_dropped + tally everything rs
    unfolding push_all
    push_all-conserved [] b = omega arith
    push_all-conserved (r ∷ rs) b =
        let d : D = (is_fresh T F fingerprint r b.dedup).1 in
        let q : Q = (T.put r b.queue).1 in
        ground (
          arith,
          push_all-conserved rs (record b { dedup = d; dedup_dropped = suc b.dedup_dropped }),
          push_all-conserved rs (record b { dedup = d; queue = q }),
          accounted-requeue everything count law (λ x f. refl) (r ∷ rs) false
              (record b { dedup = d }),
          accounted-requeue everything count law (λ x f. refl) (r ∷ rs) true
              (record b { dedup = d; queue = q }),
          dropped-requeue (r ∷ rs) false (record b { dedup = d }),
          dropped-requeue (r ∷ rs) true (record b { dedup = d; queue = q }),
          law.accepted r b.queue,
          law.refused r b.queue,
        )

    -- Over a queue that counts each put that returns and none that raises, a flush loses no request,
    -- wherever the filter or the queue raises: what is queued, what still waits and what the statistics
    -- count as duplicates add up to what they were.
    pub flush-conserved :
        (b : RequestBuffer Q D)
        → let after = (flush T F fingerprint b).1 in
          accounted everything count law after + after.dedup_dropped
          ≡ accounted everything count law b + b.dedup_dropped
    unfolding flush
    flush-conserved b = omega (arith, push_all-conserved b.pending (record b { pending = [] }))

    -- Over a queue that counts each put that returns and none that raises, `put` loses no request, the new
    -- one counted in, whether it flushes or not, and wherever the filter or the queue raises.
    pub put-conserved :
        (limit : ℕ) (r : Request) (b : RequestBuffer Q D)
        → let after = (put T F fingerprint limit r b).1 in
          accounted everything count law after + after.dedup_dropped
          ≡ accounted everything count law b + b.dedup_dropped + 1
    unfolding put
    put-conserved limit r b =
        let longer : RequestBuffer Q D = record b { pending = b.pending ++ r ∷ [] } in
        ground (arith, flush-conserved longer, tally-append everything b.pending (r ∷ []))

  -- If the first request of a flush passes the filter and its put raises, the flush raises, and the request
  -- is first in line for the next one with its flag cleared, so that the fingerprint that it has just
  -- written cannot drop it; the requests behind it keep theirs.
  pub flush-put_raised :
      (r : Request) (rs : List Request) (b : RequestBuffer Q D)
      → b.pending ≡ r ∷ rs
      → (is_fresh T F fingerprint r b.dedup).0 ≡ returned true
      → (T.put r b.queue).0 ≡ false
      → ((flush T F fingerprint b).0 ≡ false)
        × ((flush T F fingerprint b).1.pending ≡ record r { filter_repeat = false } ∷ rs)
  unfolding flush push_all requeue clear_first
  flush-put_raised r rs b e f g = ground (arith, append-nil rs)

module _ {Q D : Type 0} (T : TaskQueue Q) (F : Filter D) (fingerprint : Request → String) where
  -- Over any queue and any filter, wherever either of them raises, a flush of the request buffer adds no
  -- request and loses none: of each kind of requests that a test picks which does not read the filter flag, those
  -- whose put returned and those that wait are together no more than before, and what is missing of them is
  -- counted as duplicates; and altogether, the requests put, those that wait and the duplicates are as many as
  -- before.
  pub flush-kept :
      (p : Request → Bool) (b : RequestBuffer (Q × List Request) D)
      → ((r : Request) (f : Bool) → p (record r { filter_repeat = f }) ≡ p r)
      → let after = (flush (logged T) F fingerprint b).1 in
        (tally p after.queue.1 + tally p after.pending ≤ tally p b.queue.1 + tally p b.pending)
        × (tally p b.queue.1 + tally p b.pending + b.dedup_dropped
            ≤ tally p after.queue.1 + tally p after.pending + after.dedup_dropped)
        × (tally everything after.queue.1 + tally everything after.pending + after.dedup_dropped
            ≡ tally everything b.queue.1 + tally everything b.pending + b.dedup_dropped)
  unfolding flush
  flush-kept p b blind =
      let kept =
        push_all-kept (logged T) F fingerprint p (log_count p) (logged-IsCounted T p) blind
          b.pending (record b { pending = [] }) in
      (
        omega (arith, kept.0),
        omega (arith, kept.1),
        flush-conserved (logged T) F fingerprint (log_count everything)
            (logged-IsCounted T everything) b,
      )
