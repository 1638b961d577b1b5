-- ===== src/Parser/Worker.antt =====
-- `ParserWorker` of core/parser_control.py. Every method answers whether it returns, and the state; the
-- `busy` flag, the log, the sleep before a retry and the hook `exception_request` (whose exceptions are
-- caught) are left out. `now` is the clock of the call.
use netspy.Base.{
  ℕ, suc, Bool, true, false, not, ◌||◌, Option, none, some, List, [], ◌∷◌, ◌++◌, if◌then◌else◌, leb,
  nat_eq, min, Outcome, returned, raised, inl, inr, ◌⊎◌,
}
use netspy.Exceptions.{Exception, Response, too_large, http_status, validation, not_retry, other}
use netspy.Request.{Request}
use netspy.Throttle.{penalize}
use netspy.Circuit.{counts_as_unhealthy, record_failure, record_success}
use netspy.Status.{
  Policy, Parsers, ok, retry, fail, classify, retry_after_seconds, retry_after_too_long,
}
use netspy.Status
use netspy.Parser.{
  Produced, Results, Downloaded, Validated, Hooks, Work, follow, task, item, answered, rejected,
  broken, failed_with, Reply, gave, threw, valid, invalid, not_valid, not_retried, crashed,
}

-- SPIDER_MAX_RETRY_TIMES, the circuit breaker's and the status policy's settings, and whether failed
-- requests are kept
pub record Settings : Type 0 where
  pub max_retry_times : ℕ
  pub threshold : ℕ
  pub cooldown : ℕ
  pub policy : Policy
  pub parsers : Parsers
  pub has_sink : Bool

abbrev pub is_too_large : Exception → Bool
is_too_large too_large = true
is_too_large _ = false

abbrev pub is_not_retry : Exception → Bool
is_not_retry not_retry = true
is_not_retry _ = false

module _ (s : Settings) (k : Hooks) (now : ℕ) where
  -- `_dispatch`: the exception that leaves it, if one does
  unfoldable pub dispatch : List Produced → Option Exception → Work → Option Exception × Work
  dispatch [] ending w = (ending, w)
  dispatch (follow r ∷ ps) ending w =
      let w' : Work = record w { requests = w.requests ++ r ∷ [] } in
      let rest = dispatch ps ending w' in if k.put_returns r then rest else (some other, w')
  dispatch (task none ∷ ps) ending w = dispatch ps ending w
  dispatch (task (some exc) ∷ ps) ending w = (some exc, w)
  dispatch (item i ∷ ps) ending w =
      let w' : Work = record w { items = w.items ++ i ∷ [] } in
      let rest = dispatch ps ending (record w' { deferred = true }) in
      if k.item_put_returns i then rest else (some other, w')

  unfoldable pub drop : Work → Work
  drop w = record w { dropped = suc w.dropped }

  -- the first half of `_fail`: the counter and the circuit breaker
  unfoldable pub count_failure : Request → Option Response → Option Exception → Work → Work
  count_failure r response exc w =
      let tripped =
        record_failure s.threshold s.cooldown now (k.domain_of r.url) w.breaker w.throttle in
      if counts_as_unhealthy exc response
      then record w {
        request_failed = suc w.request_failed;
        breaker = tripped.1;
        throttle = tripped.2;
      }
      else record w { request_failed = suc w.request_failed }

  -- its end: `failed_sink`, if there is one
  unfoldable pub keep_failed : Request → Work → Work
  keep_failed r w = if s.has_sink then record w { failed_sink = w.failed_sink ++ r ∷ [] } else w

  -- `_fail`; exceptions of the hooks are caught
  unfoldable pub give_up : Request → Option Response → Option Exception → Work → Work
  give_up r response exc w =
      let results = k.failed_request r response in
      keep_failed r (dispatch results.produced results.ending (count_failure r response exc w)).1

  unfoldable pub retry_or_fail : Request → Option Response → Exception → Work → Bool × Work
  retry_or_fail r response exc w =
      let again : Request = record r { retry_times = suc r.retry_times; filter_repeat = false } in
      if is_too_large exc || leb s.max_retry_times r.retry_times
      then (true, give_up r response (some exc) w)
      else (
        k.put_returns again,
        record w { retry = suc w.retry; requests = w.requests ++ again ∷ [] },
      )

  -- `_retry_replacement`: the middleware turned the response into a new request
  unfoldable pub retry_replacement : Request → Request → Response → Work → Bool × Work
  retry_replacement r changed response w =
      let again : Request = record changed {
        retry_times = suc r.retry_times;
        filter_repeat = false;
      } in
      if leb s.max_retry_times r.retry_times then (true, give_up r (some response) none w) else (
        k.put_returns again,
        record w { retry = suc w.retry; requests = w.requests ++ again ∷ [] },
      )

  abbrev pub cool_down : Request → Option ℕ → Work → Work
  cool_down r none w = w
  cool_down r (some seconds) w = if nat_eq seconds 0 then w else record w {
    throttle = penalize (k.domain_of r.url) (min seconds s.policy.retry_after_max) now w.throttle;
  }

  abbrev pub retry_unless : Option ℕ → Request → Response → Work → Bool × Work
  retry_unless (some seconds) r response w =
      (true, give_up r (some response) (some (http_status response.status_code)) w)
  retry_unless none r response w =
      retry_or_fail r (some response) (http_status response.status_code) w

  -- What happens to a request that `_check_status` does not let through.
  abbrev pub turn_away : Status.Verdict → Request → Response → Work → Bool × Work
  turn_away ok r response w = (true, w)
  turn_away fail r response w =
      (true, give_up r (some response) (some (http_status response.status_code)) w)
  turn_away retry r response w =
      retry_unless (retry_after_too_long s.parsers s.policy (some response) now) r response
        (cool_down r (retry_after_seconds s.parsers s.policy (some response) now) w)

  -- the end of `_process` after the callback's results are dispatched
  abbrev pub conclude : Request → Option Response → Option Exception × Work → Bool × Work
  conclude r response (none, w) = (
    true,
    record w {
      request_ok = suc w.request_ok;
      breaker = record_success (k.domain_of r.url) w.breaker;
    },
  )
  conclude r response (some exc, w) =
      if is_not_retry exc
      then (true, drop w)
      else retry_or_fail r response exc (record w { parse_error = suc w.parse_error })

  -- the callback; a parser without the method raises out of `_process`
  abbrev pub run_callback : Request → Option Response → Option Results → Work → Bool × Work
  run_callback r response none w = (false, w)
  run_callback r response (some results) w =
      conclude r response (dispatch results.produced results.ending w)

  abbrev pub after_validate : Request → Response → Validated → Work → Bool × Work
  after_validate r response valid w =
      run_callback r (some response) (k.callback r (some response)) w
  after_validate r response invalid w = (true, drop w)
  after_validate r response not_valid w = retry_or_fail r (some response) validation w
  after_validate r response not_retried w = (true, drop w)
  after_validate r response crashed w = (false, w)

  abbrev pub is_ok : Status.Verdict → Bool
  is_ok ok = true
  is_ok retry = false
  is_ok fail = false

  abbrev pub after_middleware :
      Request → Response → Outcome (Request ⊎ Response) → Work → Bool × Work
  after_middleware r response raised w = (false, w)
  after_middleware r response (returned (inl again)) w = retry_replacement r again response w
  after_middleware r response (returned (inr answer)) w =
      let verdict = classify s.policy answer in
      if is_ok verdict
      then after_validate r answer (k.validate r answer) w
      else turn_away verdict r answer w

  abbrev pub after_download : Request → Downloaded → Work → Bool × Work
  after_download r (answered response) w =
      after_middleware r response (k.process_response r response) w
  after_download r rejected w =
      (true, drop (record w { content_type_dropped = suc w.content_type_dropped }))
  after_download r broken w = (false, w)
  after_download r (failed_with exc) w = retry_or_fail r none exc w

  -- after the middleware and `download_midware`; `response` is what the middleware answered itself
  abbrev pub fetch : Request → Option Response → Work → Bool × Work
  fetch r (some response) w = after_middleware r response (k.process_response r response) w
  fetch r none w =
      if not r.auto_request
      then run_callback r none (k.callback r none) w
      else if not (k.allowed r.url)
      then (true, drop (record w { robots_dropped = suc w.robots_dropped }))
      else after_download r (k.download_request r) w

  abbrev pub after_midware : Request → Option Response → Reply (Option Request) → Work → Bool × Work
  after_midware r response (threw exc) w = retry_or_fail r none exc w
  after_midware r response (gave none) w = fetch r response w
  after_midware r response (gave (some replaced)) w = fetch replaced response w

  abbrev pub after_request : Request → Reply (Request ⊎ Response) → Work → Bool × Work
  after_request r (threw exc) w = retry_or_fail r none exc w
  after_request r (gave (inl changed)) w = after_midware changed none (k.download_midware changed) w
  after_request r (gave (inr response)) w = after_midware r (some response) (k.download_midware r) w

  unfoldable pub process : Request → Work → Bool × Work
  process r w = after_request r (k.process_request r) w

  -- One turn of the loop of `run` with a request: exceptions of `_process` are logged, and the task is
  -- settled here unless its data waits in the item buffer.
  unfoldable pub run_one : Request → Work → Work
  run_one r w =
      let after = (process r (record w { deferred = false })).1 in
      if after.deferred then after else record after { finished = after.finished ++ r ∷ [] }
