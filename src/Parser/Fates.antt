-- ===== src/Parser/Fates.antt =====
-- What becomes of a request that a worker processes.
use netspy.Base.{
  ℕ, suc, ◌≡◌, refl, Bool, true, false, not, Option, none, some, [], ◌∷◌, ◌++◌, if◌then◌else◌,
  arith, Outcome, returned, raised, inl, inr, ◌⊎◌,
}
use netspy.Exceptions.{Exception, Response}
use netspy.Request.{Request}
use netspy.Status.{Verdict, ok, retry, fail, classify, retry_after_seconds}
use netspy.Parser.{
  Results, Downloaded, Validated, Hooks, Work, answered, rejected, broken, failed_with, Reply, gave,
  threw, valid, invalid, not_valid, not_retried, crashed,
}
use netspy.Parser.Worker.{
  Settings, dispatch, drop, give_up, retry_or_fail, retry_replacement, cool_down, retry_unless,
  turn_away, conclude, run_callback, after_validate, is_ok, after_middleware, after_download, fetch,
  after_midware, after_request, process, is_not_retry,
}
use netspy.Parser.Fate.{
  Fate, succeeds, retried, drops, IsAgain, again_as, after_hook, before_hook, reached, Same,
  Same-refl, Same-dispatch, Fate-from, Fate-give_up,
}

module _ (s : Settings) (k : Hooks) (now : ℕ) where
  -- A fate if the method returned.
  OneFate : Request → Work → Bool × Work → Type 0
  OneFate q w after = after.0 ≡ true → Fate s k q w after.1

  one-if :
      (q : Request) (w : Work) (b : Bool) (x y : Bool × Work)
      → OneFate q w x
      → OneFate q w y
      → OneFate q w (if b then x else y)
  one-if q w true x y hx hy = hx
  one-if q w false x y hx hy = hy

  put_back :
      (q x : Request) (b : Bool) (w : Work)
      → IsAgain k q x
      → OneFate q w (b, record w { retry = suc w.retry; requests = w.requests ++ x ∷ [] })
  unfolding OneFate
  put_back q x b w a h =
      retried w.requests x
        (record {
          ok_by = omega arith;
          retry_by = omega arith;
          failed_by = omega arith;
          dropped_by = omega arith;
        })
        a refl

  gave_up :
      (r : Request) (response : Option Response) (exc : Option Exception) (w : Work)
      → OneFate r w (true, give_up s k now r response exc w)
  unfolding OneFate
  gave_up r response exc w h = Fate-give_up s k now r response exc w

  one-retry_or_fail :
      (r : Request) (response : Option Response) (exc : Exception) (w : Work)
      → OneFate r w (retry_or_fail s k now r response exc w)
  unfolding retry_or_fail
  one-retry_or_fail r response exc w =
      one-if r w _ _ _ (gave_up r response (some exc) w)
        (put_back r (again_as r r) (k.put_returns (again_as r r)) w (inl refl))

  one-retry_replacement :
      (r changed : Request) (response : Response) (w : Work)
      → k.process_response r response ≡ returned (inl changed)
      → OneFate r w (retry_replacement s k now r changed response w)
  unfolding retry_replacement
  one-retry_replacement r changed response w e =
      one-if r w _ _ _ (gave_up r (some response) none w) (
        put_back r (again_as r changed) (k.put_returns (again_as r changed)) w
          (inr (response, changed, e, refl)))

  Same-cool_down :
      (r : Request) (seconds : Option ℕ) (w : Work) → Same w (cool_down s k now r seconds w)
  Same-cool_down r none w = Same-refl w
  Same-cool_down r (some seconds) w = record {
    counters = record {
      ok_by = ground arith;
      retry_by = ground arith;
      failed_by = ground arith;
      dropped_by = ground arith;
    };
    sink = ground arith;
  }

  one_from : (q : Request) (v w : Work) (x : Bool × Work) → Same w v → OneFate q v x → OneFate q w x
  unfolding OneFate
  one_from q v w x e h t = Fate-from s k now e (h t)

  one-retry_unless :
      (seconds : Option ℕ) (r : Request) (response : Response) (w : Work)
      → OneFate r w (retry_unless s k now seconds r response w)
  one-retry_unless (some seconds) r response w = gave_up r (some response) _ w
  one-retry_unless none r response w = one-retry_or_fail r (some response) _ w

  one-turn_away :
      (v : Verdict) (r : Request) (response : Response) (w : Work)
      → is_ok s k now v ≡ false
      → OneFate r w (turn_away s k now v r response w)
  one-turn_away ok r response w n = cc
  one-turn_away fail r response w n = gave_up r (some response) _ w
  one-turn_away retry r response w n =
      let seconds = retry_after_seconds s.parsers s.policy (some response) now in
      one_from r (cool_down s k now r seconds w) w _ (Same-cool_down r seconds w)
        (one-retry_unless _ r response (cool_down s k now r seconds w))

  one-drop : (q : Request) (w : Work) → OneFate q w (true, drop s k now w)
  unfolding OneFate drop
  one-drop q w h = drops (record {
    ok_by = omega arith;
    retry_by = omega arith;
    failed_by = omega arith;
    dropped_by = omega arith;
  })

  one-conclude :
      (r : Request) (response : Option Response) (end : Option Exception) (w : Work)
      → OneFate r w (conclude s k now r response (end, w))
  one-conclude r response none w =
      unfold OneFate in
      λ h. succeeds (record {
        ok_by = omega arith;
        retry_by = omega arith;
        failed_by = omega arith;
        dropped_by = omega arith;
      })
  one-conclude r response (some exc) w =
      let noted : Work = record w { parse_error = suc w.parse_error } in
      one-if r w (is_not_retry exc) _ _ (one-drop r w) (
        one_from r noted w _
          (record {
            counters = record {
              ok_by = omega arith;
              retry_by = omega arith;
              failed_by = omega arith;
              dropped_by = omega arith;
            };
            sink = refl;
          })
          (one-retry_or_fail r response exc noted))

  one-run_callback :
      (r : Request) (response : Option Response) (results : Option Results) (w : Work)
      → OneFate r w (run_callback s k now r response results w)
  one-run_callback r response none w = unfold OneFate in λ h. cc
  one-run_callback r response (some results) w =
      let done = dispatch s k now results.produced results.ending w in
      one_from r done.1 w _ (Same-dispatch s k now results.produced results.ending w)
        (one-conclude r response done.0 done.1)

  one-after_validate :
      (r : Request) (response : Response) (v : Validated) (w : Work)
      → OneFate r w (after_validate s k now r response v w)
  one-after_validate r response valid w =
      one-run_callback r (some response) (k.callback r (some response)) w
  one-after_validate r response invalid w = one-drop r w
  one-after_validate r response not_valid w = one-retry_or_fail r (some response) _ w
  one-after_validate r response not_retried w = one-drop r w
  one-after_validate r response crashed w = unfold OneFate in λ h. cc

  one_by_verdict :
      (v : Verdict) (r : Request) (response : Response) (w : Work) (x : Bool × Work)
      → OneFate r w x
      → OneFate r w (if is_ok s k now v then x else turn_away s k now v r response w)
  one_by_verdict ok r response w x h = h
  one_by_verdict retry r response w x h = one-turn_away retry r response w refl
  one_by_verdict fail r response w x h = one-turn_away fail r response w refl

  one-after_middleware :
      (r : Request) (response : Response) (out : Outcome (Request ⊎ Response)) (w : Work)
      → k.process_response r response ≡ out
      → OneFate r w (after_middleware s k now r response out w)
  one-after_middleware r response raised w e = unfold OneFate in λ h. cc
  one-after_middleware r response (returned (inl again)) w e =
      one-retry_replacement r again response w e
  one-after_middleware r response (returned (inr answer)) w e =
      one_by_verdict (classify s.policy answer) r answer w _
        (one-after_validate r answer (k.validate r answer) w)

  one-after_download :
      (r : Request) (d : Downloaded) (w : Work) → OneFate r w (after_download s k now r d w)
  one-after_download r (answered response) w =
      one-after_middleware r response (k.process_response r response) w refl
  one-after_download r rejected w =
      one_from r (record w { content_type_dropped = suc w.content_type_dropped }) w _
        (record {
          counters = record {
            ok_by = omega arith;
            retry_by = omega arith;
            failed_by = omega arith;
            dropped_by = omega arith;
          };
          sink = refl;
        })
        (one-drop r _)
  one-after_download r broken w = unfold OneFate in λ h. cc
  one-after_download r (failed_with exc) w = one-retry_or_fail r none exc w

  one-robots :
      (r : Request) (w : Work)
      → OneFate r w (true, drop s k now (record w { robots_dropped = suc w.robots_dropped }))
  one-robots r w =
      one_from r (record w { robots_dropped = suc w.robots_dropped }) w _
        (record {
          counters = record {
            ok_by = omega arith;
            retry_by = omega arith;
            failed_by = omega arith;
            dropped_by = omega arith;
          };
          sink = refl;
        })
        (one-drop r _)

  one-fetch :
      (r : Request) (response : Option Response) (w : Work)
      → OneFate r w (fetch s k now r response w)
  one-fetch r (some response) w =
      one-after_middleware r response (k.process_response r response) w refl
  one-fetch r none w =
      one-if r w (not r.auto_request) _ _ (one-run_callback r none (k.callback r none) w) (
        one-if r w (not (k.allowed r.url)) _ _ (one-robots r w)
          (one-after_download r (k.download_request r) w))

  one-after_midware :
      (r : Request) (response : Option Response) (out : Reply (Option Request)) (w : Work)
      → OneFate (after_hook r out) w (after_midware s k now r response out w)
  one-after_midware r response (threw exc) w = one-retry_or_fail r none exc w
  one-after_midware r response (gave none) w = one-fetch r response w
  one-after_midware r response (gave (some replaced)) w = one-fetch replaced response w

  one-after_request :
      (r : Request) (out : Reply (Request ⊎ Response)) (w : Work)
      → OneFate (before_hook k r out) w (after_request s k now r out w)
  one-after_request r (threw exc) w = one-retry_or_fail r none exc w
  one-after_request r (gave (inl changed)) w =
      one-after_midware changed none (k.download_midware changed) w
  one-after_request r (gave (inr response)) w =
      one-after_midware r (some response) (k.download_midware r) w

  -- Whatever the parser, the middleware, the downloader and robots.txt answer, a request whose processing
  -- returns has exactly one fate, and just its counter grows, by one: it succeeds; or it is retried, and then the
  -- last request that the buffer got is the request as the hooks have left it, or what the middleware made
  -- of its response, with one retry more and without the filter; or it fails, and is then kept as failed, where
  -- failed requests are kept; or it is dropped.
  pub fates-process :
      (r : Request) (w : Work)
      → (process s k now r w).0 ≡ true
      → Fate s k (reached k r) w (process s k now r w).1
  unfolding process reached OneFate
  fates-process r w h = one-after_request r (k.process_request r) w h
