-- ===== src/Downloader/Proxies.antt =====
-- network/downloader/_common.py: which proxy a request goes through, and what the pool is told of it.
-- `pick_proxy` and `apick_proxy` differ in how they sleep. A pool is what network/proxy_pool/base.py asks of
-- one; its optional hooks may be missing.
use netspy.Base.{
  ℕ, String, Bool, true, false, not, ◌||◌, Option, none, some, Outcome, returned, raised,
  if◌then◌else◌, nat_eq, ◌==◌, String_eq,
}
use netspy.Base.Dict.{lookup}
use netspy.Request.{Request}
use netspy.Waiting.{Trial, rounds}
use mathlib.Core.Option

pub record ProxyPool (P : Type 0) : Type 0 where
  pub get_proxy : P → Option String × P
  pub report_bad : String → P → P
  pub report_suspect : Option (String → P → P)
  pub report_good : Option (String → P → P)
  -- the clock, and a sleep in which the others run
  pub clock : P → ℕ
  pub sleep : P → P

-- PROXY_ALLOW_DIRECT and PROXY_WAIT_TIMEOUT
pub record Settings : Type 0 where
  pub allow_direct : Bool
  pub wait_timeout : ℕ

-- a text that counts as true
abbrev pub non_empty : Option String → Option String
non_empty none = none
non_empty (some s) = if s == "" then none else some s

abbrev pub or_next : Option String → Option String → Option String
or_next none next = next
or_next (some s) next = some s

-- `rk.get("proxy") or rk.get("proxies") or fallback`, where that is true
unfoldable pub explicit_proxy : Request → Option String → Option String
explicit_proxy r fallback =
    or_next (non_empty (lookup "proxy" r.requests_kwargs))
      (or_next (non_empty (lookup "proxies" r.requests_kwargs)) (non_empty fallback))

-- a timeout is ProxyUnavailableError
abbrev pub or_unavailable : Option (Option String) → Outcome (Option String)
or_unavailable none = raised
or_unavailable (some proxy) = returned proxy

module _ {P : Type 0} (s : Settings) where
  -- what the pool gives: an answer, or none where the request has to wait
  abbrev pub proxy_or_wait : Option String × P → Option (Option String) × P
  proxy_or_wait (some proxy, p) =
      ((if s.allow_direct || not (proxy == "") then some (some proxy) else none), p)
  proxy_or_wait (none, p) = ((if s.allow_direct then some none else none), p)

  -- `_attempt_proxy`, by the explicit proxy and by whether there is a pool
  abbrev pub attempt_proxy : Option String → Option (ProxyPool P) → P → Option (Option String) × P
  attempt_proxy (some proxy) pool p = (some (some proxy), p)
  attempt_proxy none none p = (some none, p)
  attempt_proxy none (some pool) p = proxy_or_wait (pool.get_proxy p)

  abbrev pub proxy_trial : Option String → ProxyPool P → Trial P (Option String)
  proxy_trial explicit pool = record {
    try = λ p. attempt_proxy explicit (some pool) p;
    clock = pool.clock;
    sleep = pool.sleep;
    timeout = s.wait_timeout;
  }

  -- `pick_proxy`, on fuel; none where that does not suffice
  unfoldable pub pick_proxy :
      ℕ → Request → Option String → Option (ProxyPool P) → P → Option (Outcome (Option String) × P)
  pick_proxy fuel r fallback none p =
      some (or_unavailable (attempt_proxy (explicit_proxy r fallback) none p).0, p)
  pick_proxy fuel r fallback (some pool) p =
      Option.map (λ a. (or_unavailable a.0, a.1))
        (rounds (proxy_trial (explicit_proxy r fallback) pool) fuel none p)

-- The exceptions of the two HTTP libraries that are the proxy's own fault: those of httpx at connecting, and
-- the codes of curl.
pub data Failure : Type 0 where
  proxy_error : Failure
  connect_error : Failure
  connect_timeout : Failure
  other_failure : Option ℕ → Failure

unfoldable pub is_proxy_fault : Failure → Bool
is_proxy_fault proxy_error = true
is_proxy_fault connect_error = true
is_proxy_fault connect_timeout = true
is_proxy_fault (other_failure none) = false
is_proxy_fault (other_failure (some code)) = nat_eq code 5 || nat_eq code 7 || nat_eq code 97

module _ {P : Type 0} where
  unfoldable pub report_bad_proxy : Option (ProxyPool P) → String → P → P
  report_bad_proxy none proxy p = p
  report_bad_proxy (some pool) proxy p = pool.report_bad proxy p

  abbrev pub call_hook : Option (String → P → P) → String → P → P
  call_hook none proxy p = p
  call_hook (some hook) proxy p = hook proxy p

  unfoldable pub report_proxy_failure : Option (ProxyPool P) → String → Failure → P → P
  unfolding is_proxy_fault
  report_proxy_failure none proxy failure p = p
  report_proxy_failure (some pool) proxy failure p =
      if is_proxy_fault failure
      then pool.report_bad proxy p
      else call_hook pool.report_suspect proxy p

  unfoldable pub report_good_proxy : Option (ProxyPool P) → String → P → P
  report_good_proxy none proxy p = p
  report_good_proxy (some pool) proxy p = call_hook pool.report_good proxy p
