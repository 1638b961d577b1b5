-- ===== src/Downloader/Hidden.antt =====
-- How the choice of a proxy ends, and when it is the own address.
use netspy.Base.{
  ℕ, zero, suc, ◌+◌, ◌≡◌, refl, String, Bool, true, false, not, Option, none, some, Outcome,
  returned, raised, leb, is_some, ◌==◌, String_eq, Bool-cases, inl, inr, ap, subst, sym,
}
use netspy.Request.{Request}
use netspy.Waiting.{Trial, rounds, ended, deadline_from, Advances, rounds_enough}
use netspy.Downloader.Proxies.{
  ProxyPool, Settings, proxy_or_wait, attempt_proxy, proxy_trial, or_unavailable, explicit_proxy,
  pick_proxy,
}
use mathlib.Core.Option

-- an answer that sends the request without a proxy
abbrev pub is_direct : Option String → Bool
is_direct none = true
is_direct (some proxy) = proxy == ""

-- a request without a proxy is sent
abbrev pub goes_direct : Outcome (Option String) → Bool
goes_direct raised = false
goes_direct (returned proxy) = is_direct proxy

module _ {P A : Type 0} (t : Trial P A) (bad : A → Bool) where
  -- An answer that no try gives is not given by the wait.
  abbrev Clean : Option (Option A × P) → Type 0
  Clean none = Unit {0}
  Clean (some (none, p)) = Unit {0}
  Clean (some (some a, p)) = bad a ≡ false

  abbrev pub CleanTry : Option A × P → Type 0
  CleanTry (none, p) = Unit {0}
  CleanTry (some a, p) = bad a ≡ false

  Clean-end :
      (r : Option A × P) (limit : ℕ) (later : Option (Option A × P))
      → CleanTry r
      → Clean later
      → Clean (ended t r limit later)
  Clean-end (some a, p) limit later c h = c
  Clean-end (none, p) limit later c h = elim (Bool-cases (leb limit (t.clock p))) [
    | inl e ↦ rw e tt
    | inr e ↦ rw e h
  ]

  Clean-rounds :
      (n : ℕ) (deadline : Option ℕ) (p : P)
      → ((p : P) → CleanTry (t.try p))
      → Clean (rounds t n deadline p)
  unfolding rounds
  Clean-rounds zero deadline p c = tt
  Clean-rounds (suc n) deadline p c =
      let limit = deadline_from (t.clock (t.try p).1 + t.timeout) deadline in
      Clean-end (t.try p) limit (rounds t n (some limit) (t.sleep (t.try p).1)) (c p)
        (Clean-rounds n (some limit) (t.sleep (t.try p).1) c)

module _ {P : Type 0} (s : Settings) (pool : ProxyPool P) where
  clean_get :
      (a : Option String × P)
      → s.allow_direct ≡ false
      → CleanTry {P = P} (proxy_trial s none pool) is_direct (proxy_or_wait s a)
  clean_get (none, p) h = rw h tt
  clean_get (some proxy, p) h = elim (Bool-cases (proxy == "")) [
    | inl e ↦ rw (h, e) tt
    | inr e ↦ rw (h, e) e
  ]

  clean_attempt :
      (explicit : Option String) (p : P)
      → s.allow_direct ≡ false
      → explicit ≡ none
      → CleanTry (proxy_trial s explicit pool) is_direct (attempt_proxy s explicit (some pool) p)
  clean_attempt none p h e = clean_get (pool.get_proxy p) h
  clean_attempt (some proxy) p h e = cc

  -- the answer came, and it is not to go without a proxy
  abbrev pub is_hidden : Option (Outcome (Option String) × P) → Bool
  is_hidden none = false
  is_hidden (some (out, p)) = not (goes_direct out)

  hidden_end :
      (a : Option (Option (Option String) × P))
      → is_some a ≡ true
      → Clean (proxy_trial s none pool) is_direct a
      → is_hidden (Option.map (λ b. (or_unavailable b.0, b.1)) a) ≡ true
  hidden_end none i c = cc
  hidden_end (some (none, p)) i c = refl
  hidden_end (some (some proxy, p)) i c = ap not c

  -- With a proxy pool, PROXY_ALLOW_DIRECT off, no proxy of its own, and a clock that goes on from try to
  -- try: `pick_proxy` ends, after at most as many tries as PROXY_WAIT_TIMEOUT has milliseconds and two
  -- more, with a proxy or with an exception; it never sends the request without a proxy.
  pub pick_proxy-hidden :
      (r : Request) (fallback : Option String) (p : P)
      → s.allow_direct ≡ false
      → explicit_proxy r fallback ≡ none
      → Advances (proxy_trial s none pool)
      → is_hidden (pick_proxy s (suc (suc s.wait_timeout)) r fallback (some pool) p) ≡ true
  unfolding pick_proxy
  pick_proxy-hidden r fallback p h e a =
      let t = proxy_trial s none pool in
      subst
        (λ x.
          is_hidden (
            Option.map (λ b. (or_unavailable b.0, b.1))
              (rounds (proxy_trial s x pool) (suc (suc s.wait_timeout)) none p))
          ≡ true)
        (sym e)
        (hidden_end (rounds t (suc (suc s.wait_timeout)) none p) (rounds_enough t p a) (
          Clean-rounds t is_direct (suc (suc s.wait_timeout)) none p
            (λ q. clean_attempt none q h refl)))
