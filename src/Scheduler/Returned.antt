-- ===== src/Scheduler/Returned.antt =====
-- What happens to the requests of a node that leaves: to those that wait in its request buffer or are held
-- back by its collector, and to the leases of the others.
use netspy.Base.{
  Option-cases, any, none, some, false, String, ◌≡◌, refl, Bool, true, List, [], ◌∷◌, ◌++◌, map,
  append-nil, take, drop, All, arith, is_some, if◌then◌else◌, ◌==◌, ==_refl, String_eq, Bool-cases,
  inl, inr, ap, sym, ◌∙◌, subst,
}
use netspy.Redis.SortedSet.{SortedSets}
use netspy.Request.{Request}
use netspy.Request.Codec.{to_dict}
use netspy.TaskQueue.Scripts.{Tables}
use netspy.TaskQueue.Keys.{score, score-zadd, score-zrem}
use netspy.TaskQueue.Leased.{Json, put, done, done_token, done_member, payload}
use netspy.RequestBuffer.{clear_first}
use netspy.Scheduler.{Disk, lines, append_requests, dump_requests}
use netspy.Scheduler.Redis.{RedisNode}
use netspy.Scheduler.Shutdown.{unfiltered, push_back, with_answers, leftovers, on_shutdown}

pub lines-append :
    (j : Json) (rs : List Request) (d : Disk)
    → d.writable ≡ true
    → lines (append_requests j rs d).failed_requests
      ≡ lines d.failed_requests ++ map (λ r. j.dumps (to_dict r)) rs
unfolding append_requests
lines-append j [] d h = sym (append-nil (lines d.failed_requests))
lines-append j (r ∷ rs) d h = rw h refl

module _ (S : SortedSets) (j : Json) where
  open S use {Z}

  -- a member waits in the queue
  abbrev pub is_queued : String → Tables Z → Bool
  is_queued m t = is_some (score S m t.queue)

  queued-done :
      (up : Bool) (r : Request) (m : String) (t : Tables Z)
      → is_queued m (done S j up r t) ≡ is_queued m t
  unfolding done done_token done_member
  queued-done up r m t = ground arith

  queued-put :
      (r : Request) (m : String) (t : Tables Z)
      → is_queued m (put S j r t) ≡ (if payload S j r == m then true else is_queued m t)
  unfolding put
  queued-put r m t = ground (arith, score-zadd S r.priority (payload S j r) m t.queue)

  -- what waits in the queue still waits there
  queued-push_back :
      (es : List (Request × Bool × Bool)) (m : String) (t : Tables Z)
      → is_queued m t ≡ true
      → is_queued m (push_back S j es t).2 ≡ true
  unfolding push_back
  queued-push_back [] m t h = h
  queued-push_back ((r, put_up, done_up) ∷ es) m t h =
      let pushed = done S j done_up (unfiltered S j r) (put S j (unfiltered S j r) t) in
      let later = queued-push_back es m pushed (
        queued-done done_up (unfiltered S j r) m (put S j (unfiltered S j r) t)
        ∙ queued-put (unfiltered S j r) m t
        ∙ ground (arith, h)) in
      elim (Bool-cases put_up) [ inl e ↦ rw e later | inr e ↦ rw e h ]

  abbrev pub requests : List (Request × Bool × Bool) → List Request
  requests es = map (λ e. e.0) es

  dumped-push_back :
      (es : List (Request × Bool × Bool)) (t : Tables Z)
      → (push_back S j es t).1 ≡ clear_first true (drop (push_back S j es t).0 (requests es))
  unfolding push_back clear_first
  dumped-push_back [] t = refl
  dumped-push_back ((r, put_up, done_up) ∷ es) t =
      let pushed = done S j done_up (unfiltered S j r) (put S j (unfiltered S j r) t) in
      elim (Bool-cases put_up) [ inl e ↦ rw e (dumped-push_back es pushed) | inr e ↦ rw e refl ]

  pushed-push_back :
      (es : List (Request × Bool × Bool)) (t : Tables Z)
      → All
          (λ r. is_queued (payload S j (unfiltered S j r)) (push_back S j es t).2 ≡ true)
          (take (push_back S j es t).0 (requests es))
  unfolding push_back
  pushed-push_back [] t = tt
  pushed-push_back ((r, put_up, done_up) ∷ es) t =
      let u = unfiltered S j r in
      let pushed = done S j done_up u (put S j u t) in
      elim (Bool-cases put_up) [
        | inl e ↦ rw e (
          queued-push_back es (payload S j u) pushed (
              queued-done done_up u (payload S j u) (put S j u t)
              ∙ queued-put u (payload S j u) t
              ∙ ground (arith, ==_refl (payload S j u))),
          pushed-push_back es pushed,
        )
        | inr e ↦ rw e tt
      ]

  still_queued :
      (es : List (Request × Bool × Bool)) (m : String) (t : Tables Z)
      → (if is_queued m t then is_queued m (push_back S j es t).2 else true) ≡ true
  still_queued es m t = elim (Bool-cases (is_queued m t)) [
    | inl e ↦ rw e (queued-push_back es m t e)
    | inr e ↦ rw e refl
  ]

  requests-with_answers :
      (rs : List Request) (ups : List (Bool × Bool)) → requests (with_answers S j rs ups) ≡ rs
  unfolding with_answers
  requests-with_answers [] ups = refl
  requests-with_answers (r ∷ rs) [] = ap (λ l. r ∷ l) (requests-with_answers rs [])
  requests-with_answers (r ∷ rs) ((p, d) ∷ ups) = ap (λ l. r ∷ l) (requests-with_answers rs ups)

  -- the lease of the request is the member's
  abbrev pub carries : String → Request → Bool
  carries q r = elim r.lease_token [ none ↦ false | some token ↦ token == q ]

  leased-done :
      (up : Bool) (r : Request) (q : String) (t : Tables Z)
      → carries q r ≡ false
      → score S q (done S j up r t).inflight ≡ score S q t.inflight
  unfolding done done_token done_member
  leased-done up r q t h = elim (Option-cases r.lease_token) [
    | inl e ↦ rw e refl
    | inr (token, e) ↦ ground (arith, e, h, score-zrem S token q t.inflight)
  ]

  leased-push_back :
      (es : List (Request × Bool × Bool)) (q : String) (t : Tables Z)
      → any (carries q) (requests es) ≡ false
      → score S q (push_back S j es t).2.inflight ≡ score S q t.inflight
  unfolding push_back put
  leased-push_back [] q t h = refl
  leased-push_back ((r, put_up, done_up) ∷ es) q t h =
      let u = unfiltered S j r in
      let later =
        leased-push_back es q (done S j done_up u (put S j u t)) (ground (arith, h))
        ∙ leased-done done_up u q (put S j u t) (ground (arith, h)) in
      elim (Bool-cases put_up) [ inl e ↦ rw e later | inr e ↦ rw e refl ]

  -- Let a node leave with a writable disk and DUMP_UNFINISHED_ON_EXIT on, wherever Redis stops answering. Of the
  -- requests that wait in its request buffer or are held back by its collector, in this order, the first
  -- `count`, for the answered count, are queued in Redis; the others are appended to the file of failed requests,
  -- in order, and the first of them without its filter flag. What was queued in Redis is still queued. A
  -- lease that none of these requests carries, as that of a request in progress, stays as it was.
  pub on_shutdown-kept :
      (ups : List (Bool × Bool)) (n : RedisNode Z) (d : Disk) (m q : String)
      → d.writable ≡ true
      → any (carries q) (leftovers S j n.node) ≡ false
      → let (count, n', d') = on_shutdown S j true ups n d in
        let held = leftovers S j n.node in
        All (λ r. is_queued (payload S j (unfiltered S j r)) n'.node.queue ≡ true) (take count held)
        × (lines d'.failed_requests
            ≡ lines d.failed_requests
              ++ map (λ r. j.dumps (to_dict r)) (clear_first true (drop count held)))
        × ((if is_queued m n.node.queue then is_queued m n'.node.queue else true) ≡ true)
        × (score S q n'.node.queue.inflight ≡ score S q n.node.queue.inflight)
  unfolding on_shutdown dump_requests
  on_shutdown-kept ups n d m q h apart =
      let es = with_answers S j (leftovers S j n.node) ups in
      let back = push_back S j es n.node.queue in
      let held : requests es ≡ leftovers S j n.node =
        requests-with_answers (leftovers S j n.node) ups in
      (
        subst
            (λ l.
              All (λ r. is_queued (payload S j (unfiltered S j r)) back.2 ≡ true) (take back.0 l))
            held (pushed-push_back es n.node.queue),
        lines-append j back.1 d h
            ∙ ap (λ l. lines d.failed_requests ++ map (λ r. j.dumps (to_dict r)) l)
                (dumped-push_back es n.node.queue
                  ∙ ap (λ l. clear_first true (drop back.0 l)) held),
        still_queued es m n.node.queue,
        leased-push_back es q n.node.queue (ap (λ l. any (carries q) l) held ∙ apart),
      )
