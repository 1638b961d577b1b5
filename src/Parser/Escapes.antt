-- ===== src/Parser/Escapes.antt =====
-- What an exception that leaves `_process` does to the request.
use netspy.Base.{
  ℕ, ◌≡◌, refl, Bool, true, false, not, Option, none, some, [], ◌∷◌, ◌++◌, if◌then◌else◌, Outcome,
  returned, raised, inl, inr, ◌⊎◌,
}
use netspy.Exceptions.{Exception, Response}
use netspy.Request.{Request}
use netspy.Status.{Verdict, ok, retry, fail, classify}
use netspy.Parser.{
  Reply, gave, threw, Results, Downloaded, Validated, Hooks, Work, answered, rejected, broken,
  failed_with, valid, invalid, not_valid, not_retried, crashed,
}
use netspy.Parser.Worker.{
  Settings, dispatch, retry_or_fail, retry_replacement, retry_unless, turn_away, conclude,
  run_callback, after_validate, after_middleware, after_download, fetch, after_midware,
  after_request, process, run_one,
}

module _ (s : Settings) (k : Hooks) (now : ℕ) (puts : (r : Request) → k.put_returns r ≡ true) where
  -- A method that does not return leaves the state alone.
  OrUnchanged : Work → Bool × Work → Type 0
  OrUnchanged w x = x.0 ≡ false → x.1 ≡ w

  kept-true : (w : Work) (x : Bool × Work) → x.0 ≡ true → OrUnchanged w x
  unfolding OrUnchanged
  kept-true w x e h = cc

  true-if : (b : Bool) (x y : Bool × Work) → x.0 ≡ true → y.0 ≡ true → (if b then x else y).0 ≡ true
  true-if true x y hx hy = hx
  true-if false x y hx hy = hy

  kept-if :
      (w : Work) (b : Bool) (x y : Bool × Work)
      → OrUnchanged w x
      → OrUnchanged w y
      → OrUnchanged w (if b then x else y)
  kept-if w true x y hx hy = hx
  kept-if w false x y hx hy = hy

  kept_raise : (w : Work) → OrUnchanged w (false, w)
  unfolding OrUnchanged
  kept_raise w h = refl

  true-retry_or_fail :
      (r : Request) (response : Option Response) (exc : Exception) (w : Work)
      → (retry_or_fail s k now r response exc w).0 ≡ true
  unfolding retry_or_fail
  true-retry_or_fail r response exc w = true-if _ _ _ refl (puts _)

  true-retry_replacement :
      (r changed : Request) (response : Response) (w : Work)
      → (retry_replacement s k now r changed response w).0 ≡ true
  unfolding retry_replacement
  true-retry_replacement r changed response w = true-if _ _ _ refl (puts _)

  true-retry_unless :
      (seconds : Option ℕ) (r : Request) (response : Response) (w : Work)
      → (retry_unless s k now seconds r response w).0 ≡ true
  true-retry_unless (some seconds) r response w = refl
  true-retry_unless none r response w = true-retry_or_fail r (some response) _ w

  true-turn_away :
      (v : Verdict) (r : Request) (response : Response) (w : Work)
      → (turn_away s k now v r response w).0 ≡ true
  true-turn_away ok r response w = refl
  true-turn_away fail r response w = refl
  true-turn_away retry r response w = true-retry_unless _ r response _

  true-conclude :
      (r : Request) (response : Option Response) (end : Option Exception) (w : Work)
      → (conclude s k now r response (end, w)).0 ≡ true
  true-conclude r response none w = refl
  true-conclude r response (some exc) w = true-if _ _ _ refl (true-retry_or_fail r response exc _)

  kept-run_callback :
      (r : Request) (response : Option Response) (results : Option Results) (w : Work)
      → OrUnchanged w (run_callback s k now r response results w)
  kept-run_callback r response none w = kept_raise w
  kept-run_callback r response (some results) w =
      let end = dispatch s k now results.produced results.ending w in
      kept-true w (conclude s k now r response end) (true-conclude r response end.0 end.1)

  kept-after_validate :
      (r : Request) (response : Response) (v : Validated) (w : Work)
      → OrUnchanged w (after_validate s k now r response v w)
  kept-after_validate r response valid w =
      kept-run_callback r (some response) (k.callback r (some response)) w
  kept-after_validate r response invalid w = kept-true w _ refl
  kept-after_validate r response not_valid w =
      kept-true w _ (true-retry_or_fail r (some response) _ w)
  kept-after_validate r response not_retried w = kept-true w _ refl
  kept-after_validate r response crashed w = kept_raise w

  kept-after_middleware :
      (r : Request) (response : Response) (out : Outcome (Request ⊎ Response)) (w : Work)
      → OrUnchanged w (after_middleware s k now r response out w)
  kept-after_middleware r response raised w = kept_raise w
  kept-after_middleware r response (returned (inl again)) w =
      kept-true w _ (true-retry_replacement r again response w)
  kept-after_middleware r response (returned (inr answer)) w =
      kept-if w _ _ _ (kept-after_validate r answer (k.validate r answer) w)
        (kept-true w _ (true-turn_away (classify s.policy answer) r answer w))

  kept-fetch :
      (r : Request) (response : Option Response) (w : Work)
      → OrUnchanged w (fetch s k now r response w)
  kept-fetch r (some response) w =
      kept-after_middleware r response (k.process_response r response) w
  kept-fetch r none w =
      kept-if w (not r.auto_request) _ _ (kept-run_callback r none (k.callback r none) w) (
        kept-if w (not (k.allowed r.url)) _ _ (kept-true w _ refl)
          (downloaded (k.download_request r)))
    where
      downloaded : (d : Downloaded) → OrUnchanged w (after_download s k now r d w)
      downloaded (answered response) =
          kept-after_middleware r response (k.process_response r response) w
      downloaded rejected = kept-true w _ refl
      downloaded broken = kept_raise w
      downloaded (failed_with exc) = kept-true w _ (true-retry_or_fail r none exc w)

  kept-after_midware :
      (r : Request) (response : Option Response) (out : Reply (Option Request)) (w : Work)
      → OrUnchanged w (after_midware s k now r response out w)
  kept-after_midware r response (threw exc) w = kept-true w _ (true-retry_or_fail r none _ w)
  kept-after_midware r response (gave none) w = kept-fetch r response w
  kept-after_midware r response (gave (some replaced)) w = kept-fetch replaced response w

  kept-after_request :
      (r : Request) (out : Reply (Request ⊎ Response)) (w : Work)
      → OrUnchanged w (after_request s k now r out w)
  kept-after_request r (threw exc) w = kept-true w _ (true-retry_or_fail r none _ w)
  kept-after_request r (gave (inl changed)) w =
      kept-after_midware changed none (k.download_midware changed) w
  kept-after_request r (gave (inr response)) w =
      kept-after_midware r (some response) (k.download_midware r) w

  -- Where the puts return, a request whose processing ends in an exception (no such callback, `validate`,
  -- the response middleware or the downloader raised something else) is settled in the collector, and
  -- nothing else records it: no counter, no retry, no entry among the failed requests.
  pub run_one-raised :
      (r : Request) (w : Work)
      → (process s k now r (record w { deferred = false })).0 ≡ false
      → run_one s k now r w ≡ record w { deferred = false; finished = w.finished ++ r ∷ [] }
  unfolding run_one process OrUnchanged
  run_one-raised r w h =
      rw (kept-after_request r (k.process_request r) (record w { deferred = false }) h) refl
