-- ===== src/RequestBuffer/Logged.antt =====
-- The requests that a queue has accepted, beside the queue.
use netspy.Base.{
  ℕ, ◌+◌, ◌≡◌, Bool, true, false, List, [], ◌∷◌, ◌++◌, arith, if◌then◌else◌, tally, tally-append,
}
use netspy.Request.{Request}
use netspy.TaskQueue.Interface.{TaskQueue}

-- What a count of a queue does by a test: a put that returns adds its request, one that raises adds nothing. The
-- log below satisfies this over any queue; the members of the Redis queue do not, as equal texts are one.
pub record IsCounted {Q : Type 0} (T : TaskQueue Q) (p : Request → Bool) (count : Q → ℕ)
    : Type 0 where
  pub accepted :
      (r : Request) (q : Q)
      → (T.put r q).0 ≡ true
      → count (T.put r q).1 ≡ count q + (if p r then 1 else 0)
  pub refused : (r : Request) (q : Q) → (T.put r q).0 ≡ false → count (T.put r q).1 ≡ count q

abbrev pub everything : Request → Bool
everything r = true

-- A queue beside the list of the requests whose put returned, whatever the queue makes of them.
unfoldable pub logged : {Q : Type 0} → TaskQueue Q → TaskQueue (Q × List Request)
logged T = record {
  put = λ r q.
      let (accepted, q') = T.put r q.0 in
      (accepted, (q', (if accepted then q.1 ++ r ∷ [] else q.1)));
  get = λ q. let (out, q') = T.get q.0 in (out, (q', q.1));
  get_batch = λ n q. let (out, q') = T.get_batch n q.0 in (out, (q', q.1));
  done = λ r q. (T.done r q.0, q.1);
  is_empty = λ q. T.is_empty q.0;
}

abbrev pub log_count : {Q : Type 0} → (Request → Bool) → Q × List Request → ℕ
log_count p q = tally p q.1

pub logged-IsCounted :
    {Q : Type 0} (T : TaskQueue Q) (p : Request → Bool) → IsCounted (logged T) p (log_count p)
unfolding logged
logged-IsCounted T p = record {
  accepted = λ r q e. ground (arith, e, tally-append p q.1 (r ∷ []));
  refused = λ r q e. ground (arith, e);
}
