-- ===== src/Parser/Fate.antt =====
-- The fates that a request may have, and the one of a request that is given up.
use netspy.Base.{
  ℕ, suc, ◌+◌, String, ◌≡◌, refl, ◌∙◌, ap, Bool, true, false, Option, none, some, List, [], ◌∷◌,
  ◌++◌, if◌then◌else◌, arith, returned, inl, inr, ◌⊎◌, Bool-cases,
}
use netspy.Exceptions.{Exception, Response, other}
use netspy.Request.{Request}
use netspy.Circuit.{counts_as_unhealthy}
use netspy.Parser.{Produced, Hooks, Work, follow, task, item, Reply, gave, threw}
use netspy.Parser.Worker.{Settings, dispatch, count_failure, keep_failed, give_up}

-- by how much the counters of successes, retries, failures and drops have grown
pub record Grew (a b c d : ℕ) (w w' : Work) : Type 0 where
  pub ok_by : w'.request_ok ≡ w.request_ok + a
  pub retry_by : w'.retry ≡ w.retry + b
  pub failed_by : w'.request_failed ≡ w.request_failed + c
  pub dropped_by : w'.dropped ≡ w.dropped + d

-- `q` as it is put back, or what the middleware makes of it, with the retries of `q` and one more, and without
-- the filter
abbrev pub again_as : Request → Request → Request
again_as q changed = record changed { retry_times = suc q.retry_times; filter_repeat = false }

abbrev pub IsAgain : Hooks → Request → Request → Type 0
IsAgain k q x =
    (x ≡ again_as q q)
    ⊎ ((response : Response) × (changed : Request) × (k.process_response q response
          ≡ returned (inl changed))
        × (x ≡ again_as q changed))

-- what may become of the request `q`: exactly one counter grows, by one; a retry is put back into the
-- request buffer, and a failed request is kept if failed requests are kept
pub data Fate (s : Settings) (k : Hooks) (q : Request) (w w' : Work) : Type 0 where
  succeeds : Grew 1 0 0 0 w w' → Fate s k q w w'
  retried :
      (front : List Request) (x : Request)
      → Grew 0 1 0 0 w w'
      → IsAgain k q x
      → w'.requests ≡ front ++ x ∷ []
      → Fate s k q w w'
  fails :
      Grew 0 0 1 0 w w'
      → (s.has_sink ≡ true → w'.failed_sink ≡ w.failed_sink ++ q ∷ [])
      → Fate s k q w w'
  drops : Grew 0 0 0 1 w w' → Fate s k q w w'

-- the request after `download_midware`, and after the middleware too
abbrev pub after_hook : Request → Reply (Option Request) → Request
after_hook r (threw exc) = r
after_hook r (gave none) = r
after_hook r (gave (some q)) = q

abbrev pub before_hook : Hooks → Request → Reply (Request ⊎ Response) → Request
before_hook k r (threw exc) = r
before_hook k r (gave (inl q)) = after_hook q (k.download_midware q)
before_hook k r (gave (inr response)) = after_hook r (k.download_midware r)

-- the request that is downloaded: as the middleware and `download_midware` leave it
unfoldable pub reached : Hooks → Request → Request
reached k r = before_hook k r (k.process_request r)

-- the four counters and the failed requests are the same
pub record Same (w v : Work) : Type 0 where
  pub counters : Grew 0 0 0 0 w v
  pub sink : v.failed_sink ≡ w.failed_sink

Grew-none : (w : Work) → Grew 0 0 0 0 w w
Grew-none w = record {
  ok_by = omega arith;
  retry_by = omega arith;
  failed_by = omega arith;
  dropped_by = omega arith;
}

Grew-after :
    {a b c d : ℕ} {w v w' : Work} → Grew 0 0 0 0 w v → Grew a b c d v w' → Grew a b c d w w'
Grew-after g h = record {
  ok_by = omega (arith, g.ok_by, h.ok_by);
  retry_by = omega (arith, g.retry_by, h.retry_by);
  failed_by = omega (arith, g.failed_by, h.failed_by);
  dropped_by = omega (arith, g.dropped_by, h.dropped_by);
}

pub Same-refl : (w : Work) → Same w w
Same-refl w = record { counters = Grew-none w; sink = refl }

Same-buffers :
    (rs : List Request) (is : List String) (b : Bool) (w : Work)
    → Same w (record w { requests = rs; items = is; deferred = b })
Same-buffers rs is b w = record {
  counters = record {
    ok_by = omega arith;
    retry_by = omega arith;
    failed_by = omega arith;
    dropped_by = omega arith;
  };
  sink = refl;
}

Same-trans : {w v u : Work} → Same w v → Same v u → Same w u
Same-trans g h = record { counters = Grew-after g.counters h.counters; sink = h.sink ∙ g.sink }

module _ (s : Settings) (k : Hooks) (now : ℕ) where
  pub Fate-from : {q : Request} {w v w' : Work} → Same w v → Fate s k q v w' → Fate s k q w w'
  Fate-from e (succeeds g) = succeeds (Grew-after e.counters g)
  Fate-from e (retried front x g a p) = retried front x (Grew-after e.counters g) a p
  Fate-from {q} e (fails g kept) =
      fails (Grew-after e.counters g) (λ h. kept h ∙ ap (λ l. l ++ q ∷ []) e.sink)
  Fate-from e (drops g) = drops (Grew-after e.counters g)

  Same-if :
      {w : Work} (b : Bool) (x y : Option Exception × Work)
      → Same w x.1
      → Same w y.1
      → Same w (if b then x else y).1
  Same-if true x y hx hy = hx
  Same-if false x y hx hy = hy

  pub Same-dispatch :
      (ps : List Produced) (e : Option Exception) (w : Work) → Same w (dispatch s k now ps e w).1
  unfolding dispatch
  Same-dispatch [] e w = Same-refl w
  Same-dispatch (follow r ∷ ps) e w =
      let w' : Work = record w { requests = w.requests ++ r ∷ [] } in
      let put : Same w w' = Same-buffers w'.requests w.items w.deferred w in
      Same-if (k.put_returns r) (dispatch s k now ps e w') (some other, w')
        (Same-trans put (Same-dispatch ps e w')) put
  Same-dispatch (task none ∷ ps) e w = Same-dispatch ps e w
  Same-dispatch (task (some exc) ∷ ps) e w = Same-refl w
  Same-dispatch (item i ∷ ps) e w =
      let w' : Work = record w { items = w.items ++ i ∷ [] } in
      let w'' : Work = record w' { deferred = true } in
      let put : Same w w' = Same-buffers w.requests w'.items w.deferred w in
      let noted : Same w w'' = Same-buffers w.requests w'.items true w in
      Same-if (k.item_put_returns i) (dispatch s k now ps e w'') (some other, w')
        (Same-trans noted (Same-dispatch ps e w'')) put

  counted_once :
      (r : Request) (response : Option Response) (exc : Option Exception) (w : Work)
      → Grew 0 0 1 0 w (count_failure s k now r response exc w)
        × ((count_failure s k now r response exc w).failed_sink ≡ w.failed_sink)
  unfolding count_failure
  counted_once r response exc w = elim (Bool-cases (counts_as_unhealthy exc response)) [
    | inl e ↦ rw e (
      record {
        ok_by = omega arith;
        retry_by = omega arith;
        failed_by = omega arith;
        dropped_by = omega arith;
      },
      refl,
    )
    | inr e ↦ rw e (
      record {
        ok_by = omega arith;
        retry_by = omega arith;
        failed_by = omega arith;
        dropped_by = omega arith;
      },
      refl,
    )
  ]

  kept_or_not :
      (r : Request) (w v : Work) (b : Bool)
      → s.has_sink ≡ b
      → Grew 0 0 1 0 w v
      → v.failed_sink ≡ w.failed_sink
      → Fate s k r w (if b then record v { failed_sink = v.failed_sink ++ r ∷ [] } else v)
  kept_or_not r w v true e g f =
      fails
        (record {
          ok_by = g.ok_by;
          retry_by = g.retry_by;
          failed_by = g.failed_by;
          dropped_by = g.dropped_by;
        })
        (λ h. ap (λ l. l ++ r ∷ []) f)
  kept_or_not r w v false e g f = fails g (λ h. cc (e, h))

  pub Fate-give_up :
      (r : Request) (response : Option Response) (exc : Option Exception) (w : Work)
      → Fate s k r w (give_up s k now r response exc w)
  unfolding give_up keep_failed
  Fate-give_up r response exc w =
      let counted = count_failure s k now r response exc w in
      let results = k.failed_request r response in
      let one = counted_once r response exc w in
      let same = Same-dispatch results.produced results.ending counted in
      let after = (dispatch s k now results.produced results.ending counted).1 in
      let grown : Grew 0 0 1 0 w after = record {
        ok_by = omega (arith, one.0.ok_by, same.counters.ok_by);
        retry_by = omega (arith, one.0.retry_by, same.counters.retry_by);
        failed_by = omega (arith, one.0.failed_by, same.counters.failed_by);
        dropped_by = omega (arith, one.0.dropped_by, same.counters.dropped_by);
      } in
      kept_or_not r w after s.has_sink refl grown (same.sink ∙ one.1)
