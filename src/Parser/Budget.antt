-- ===== src/Parser/Budget.antt =====
-- How often a request is put back for a retry.
use netspy.Base.{
  ℕ, ◌≤◌, ◌≡◌, refl, Bool, true, false, not, ◌||◌, Option, none, some, List, [], ◌∷◌, ◌++◌,
  if◌then◌else◌, arith, leb, nat_eq, Outcome, returned, raised, inl, inr, ◌⊎◌, Bool-cases, All,
  All-append,
}
use netspy.Exceptions.{Exception, Response}
use netspy.Request.{Request}
use netspy.Circuit.{counts_as_unhealthy}
use netspy.Status.{Verdict, ok, retry, fail, classify, retry_after_seconds, retry_after_too_long}
use netspy.Parser.{
  Reply, gave, threw, Produced, Results, Downloaded, Validated, Hooks, Work, follow, task, item,
  answered, rejected, broken, failed_with, valid, invalid, not_valid, not_retried, crashed,
}
use netspy.Parser.Worker.{
  Settings, dispatch, drop, count_failure, keep_failed, give_up, retry_or_fail, retry_replacement,
  cool_down, retry_unless, turn_away, conclude, run_callback, after_validate, after_middleware,
  after_download, fetch, after_midware, after_request, process, run_one, is_too_large,
}

-- a request that the user's code yields is within the budget
abbrev pub InBudget : ℕ → Produced → Type 0
InBudget most (follow r) = r.retry_times ≤ most
InBudget most (task b) = Unit {0}
InBudget most (item i) = Unit {0}

abbrev pub Budgeted : ℕ → Work → Type 0
Budgeted most w = All (λ q. q.retry_times ≤ most) w.requests

-- the user's code yields requests within the budget only
pub record IsBudgeted (most : ℕ) (k : Hooks) : Type 0 where
  pub called :
      (r : Request) (response : Option Response) (results : Results)
      → k.callback r response ≡ some results
      → All (InBudget most) results.produced
  pub failed :
      (r : Request) (response : Option Response)
      → All (InBudget most) (k.failed_request r response).produced

module _ (s : Settings) (k : Hooks) (now : ℕ) (law : IsBudgeted s.max_retry_times k) where
  abbrev most : ℕ
  most = s.max_retry_times

  budget-if :
      {A : Type 0} (b : Bool) (x y : A × Work)
      → Budgeted most x.1
      → Budgeted most y.1
      → Budgeted most (if b then x else y).1
  budget-if true x y hx hy = hx
  budget-if false x y hx hy = hy

  budget-dispatch :
      (ps : List Produced) (e : Option Exception) (w : Work)
      → All (InBudget most) ps
      → Budgeted most w
      → Budgeted most (dispatch s k now ps e w).1
  unfolding dispatch
  budget-dispatch [] e w p h = h
  budget-dispatch (follow r ∷ ps) e w p h =
      let longer = All-append _ w.requests (r ∷ []) h (p.0, tt) in
      budget-if _ _ _
        (budget-dispatch ps e (record w { requests = w.requests ++ r ∷ [] }) p.1 longer) longer
  budget-dispatch (task none ∷ ps) e w p h = budget-dispatch ps e w p.1 h
  budget-dispatch (task (some exc) ∷ ps) e w p h = h
  budget-dispatch (item i ∷ ps) e w p h =
      budget-if _ _ _
        (budget-dispatch ps e (record w { items = w.items ++ i ∷ []; deferred = true }) p.1 h) h

  budget-count_failure :
      (r : Request) (response : Option Response) (exc : Option Exception) (w : Work)
      → Budgeted most w
      → Budgeted most (count_failure s k now r response exc w)
  unfolding count_failure
  budget-count_failure r response exc w h = elim (Bool-cases (counts_as_unhealthy exc response)) [
    | inl e ↦ rw e h
    | inr e ↦ rw e h
  ]

  budget-keep_failed :
      (r : Request) (w : Work) → Budgeted most w → Budgeted most (keep_failed s k now r w)
  unfolding keep_failed
  budget-keep_failed r w h = elim (Bool-cases s.has_sink) [ inl e ↦ rw e h | inr e ↦ rw e h ]

  budget-give_up :
      (r : Request) (response : Option Response) (exc : Option Exception) (w : Work)
      → Budgeted most w
      → Budgeted most (give_up s k now r response exc w)
  unfolding give_up
  budget-give_up r response exc w h = budget-keep_failed r _ (
      budget-dispatch (k.failed_request r response).produced (k.failed_request r response).ending _
        (law.failed r response) (budget-count_failure r response exc w h))

  budget-retry_or_fail :
      (r : Request) (response : Option Response) (exc : Exception) (w : Work)
      → Budgeted most w
      → Budgeted most (retry_or_fail s k now r response exc w).1
  unfolding retry_or_fail
  budget-retry_or_fail r response exc w h =
      elim (Bool-cases (is_too_large exc || leb most r.retry_times)) [
        | inl e ↦ rw e (budget-give_up r response (some exc) w h)
        | inr e ↦ rw e (All-append _ w.requests _ h (ground (arith, e), tt))
      ]

  budget-retry_replacement :
      (r changed : Request) (response : Response) (w : Work)
      → Budgeted most w
      → Budgeted most (retry_replacement s k now r changed response w).1
  unfolding retry_replacement
  budget-retry_replacement r changed response w h = elim (Bool-cases (leb most r.retry_times)) [
    | inl e ↦ rw e (budget-give_up r (some response) none w h)
    | inr e ↦ rw e (All-append _ w.requests _ h (ground (arith, e), tt))
  ]

  budget-cool_down :
      (r : Request) (seconds : Option ℕ) (w : Work)
      → Budgeted most w
      → Budgeted most (cool_down s k now r seconds w)
  budget-cool_down r none w h = h
  budget-cool_down r (some seconds) w h = elim (Bool-cases (nat_eq seconds 0)) [
    | inl e ↦ rw e h
    | inr e ↦ rw e h
  ]

  budget-retry_unless :
      (seconds : Option ℕ) (r : Request) (response : Response) (w : Work)
      → Budgeted most w
      → Budgeted most (retry_unless s k now seconds r response w).1
  budget-retry_unless (some seconds) r response w h = budget-give_up r (some response) _ w h
  budget-retry_unless none r response w h = budget-retry_or_fail r (some response) _ w h

  budget-turn_away :
      (v : Verdict) (r : Request) (response : Response) (w : Work)
      → Budgeted most w
      → Budgeted most (turn_away s k now v r response w).1
  budget-turn_away ok r response w h = h
  budget-turn_away fail r response w h = budget-give_up r (some response) _ w h
  budget-turn_away retry r response w h =
      budget-retry_unless (retry_after_too_long s.parsers s.policy (some response) now) r response _
        (budget-cool_down r (retry_after_seconds s.parsers s.policy (some response) now) w h)

  budget-conclude :
      (r : Request) (response : Option Response) (end : Option Exception) (w : Work)
      → Budgeted most w
      → Budgeted most (conclude s k now r response (end, w)).1
  unfolding drop
  budget-conclude r response none w h = h
  budget-conclude r response (some exc) w h =
      budget-if _ _ _ h (budget-retry_or_fail r response exc _ h)

  budget-run_callback :
      (r : Request) (response : Option Response) (results : Option Results) (w : Work)
      → k.callback r response ≡ results
      → Budgeted most w
      → Budgeted most (run_callback s k now r response results w).1
  budget-run_callback r response none w e h = h
  budget-run_callback r response (some results) w e h =
      let end = dispatch s k now results.produced results.ending w in
      budget-conclude r response end.0 end.1
        (budget-dispatch results.produced results.ending w (law.called r response results e) h)

  budget-after_validate :
      (r : Request) (response : Response) (v : Validated) (w : Work)
      → Budgeted most w
      → Budgeted most (after_validate s k now r response v w).1
  unfolding drop
  budget-after_validate r response valid w h = budget-run_callback r (some response) _ w refl h
  budget-after_validate r response invalid w h = h
  budget-after_validate r response not_valid w h = budget-retry_or_fail r (some response) _ w h
  budget-after_validate r response not_retried w h = h
  budget-after_validate r response crashed w h = h

  budget-after_middleware :
      (r : Request) (response : Response) (out : Outcome (Request ⊎ Response)) (w : Work)
      → Budgeted most w
      → Budgeted most (after_middleware s k now r response out w).1
  budget-after_middleware r response raised w h = h
  budget-after_middleware r response (returned (inl again)) w h =
      budget-retry_replacement r again response w h
  budget-after_middleware r response (returned (inr answer)) w h =
      budget-if _ _ _ (budget-after_validate r answer (k.validate r answer) w h)
        (budget-turn_away (classify s.policy answer) r answer w h)

  budget-after_download :
      (r : Request) (d : Downloaded) (w : Work)
      → Budgeted most w
      → Budgeted most (after_download s k now r d w).1
  unfolding drop
  budget-after_download r (answered response) w h = budget-after_middleware r response _ w h
  budget-after_download r rejected w h = h
  budget-after_download r broken w h = h
  budget-after_download r (failed_with exc) w h = budget-retry_or_fail r none exc w h

  budget-fetch :
      (r : Request) (response : Option Response) (w : Work)
      → Budgeted most w
      → Budgeted most (fetch s k now r response w).1
  unfolding drop
  budget-fetch r (some response) w h = budget-after_middleware r response _ w h
  budget-fetch r none w h =
      budget-if (not r.auto_request) _ _ (budget-run_callback r none _ w refl h) (
        budget-if (not (k.allowed r.url)) _ _ h
          (budget-after_download r (k.download_request r) w h))

  budget-after_midware :
      (r : Request) (response : Option Response) (out : Reply (Option Request)) (w : Work)
      → Budgeted most w
      → Budgeted most (after_midware s k now r response out w).1
  budget-after_midware r response (threw exc) w h = budget-retry_or_fail r none _ w h
  budget-after_midware r response (gave none) w h = budget-fetch r response w h
  budget-after_midware r response (gave (some replaced)) w h = budget-fetch replaced response w h

  budget-after_request :
      (r : Request) (out : Reply (Request ⊎ Response)) (w : Work)
      → Budgeted most w
      → Budgeted most (after_request s k now r out w).1
  budget-after_request r (threw exc) w h = budget-retry_or_fail r none _ w h
  budget-after_request r (gave (inl changed)) w h = budget-after_midware changed none _ w h
  budget-after_request r (gave (inr response)) w h = budget-after_midware r (some response) _ w h

  -- If the user's callbacks yield no request whose retry count is beyond the budget, a turn of a worker keeps
  -- every request that was put into the request buffer within it, whatever fails, whatever count the
  -- request itself has, and also where the middleware replaces it.
  pub run_one-Budgeted :
      (r : Request) (w : Work) → Budgeted most w → Budgeted most (run_one s k now r w)
  unfolding run_one process
  run_one-Budgeted r w h =
      let after : Work = (process s k now r (record w { deferred = false })).1 in
      let kept : Budgeted most after =
        budget-after_request r (k.process_request r) (record w { deferred = false }) h in
      elim (Bool-cases after.deferred) [ inl e ↦ rw e kept | inr e ↦ rw e kept ]
