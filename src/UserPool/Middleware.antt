-- ===== src/UserPool/Middleware.antt =====
-- network/user_pool/middleware.py: cookies are mounted before a request is sent, and a response that is
-- not that of a login sends the request round again under another account. Cookies in the dictionaries
-- of a request are the text of their dictionary. The pool is any that hands out users; times are
-- milliseconds.
use netspy.Base.{
  ℕ, ◌≡◌, String, Bool, true, false, Option, none, some, [], ◌∷◌, if◌then◌else◌, String_eq, Outcome,
  returned, raised,
}
use netspy.Base.Dict.{Dict, lookup, insert, remove}
use netspy.Exceptions.{Response}
use netspy.Request.{Request}
use netspy.Request.Codec.{copy}
use netspy.UserPool.{User}
use netspy.Waiting.{Trial, rounds}
use mathlib.Core.Option

-- Cookies as one value of a request, and back.
pub record CookieText : Type 0 where
  pub text : Dict String String → String
  pub cookies : String → Dict String String
  pub cookies-text : (t : String) → cookies (text (cookies t)) ≡ cookies t
  pub cookies-empty : cookies (text []) ≡ []

-- `{**base, **more}`
unfoldable pub merge : Dict String String → Dict String String → Dict String String
merge base [] = base
merge base ((k, v) ∷ more) = merge (insert k v base) more

abbrev pub base_key : String
base_key = "_user_pool_base_cookies"

-- What the middleware uses of a pool.
pub record Pool (P : Type 0) : Type 0 where
  pub get : P → Option User × P
  pub report_ok : User → P → P
  pub report_bad : User → P → P
  -- the clock, and a sleep in which the others run
  pub clock : P → ℕ
  pub sleep : P → P

-- USER_POOL_ALLOW_ANONYMOUS and USER_POOL_WAIT_TIMEOUT
pub record Settings : Type 0 where
  pub allow_anonymous : Bool
  pub wait_timeout : ℕ

-- the request, and the account that is mounted on it
pub record Mounted : Type 0 where
  pub request : Request
  pub user : Option User

module _ (c : CookieText) where
  abbrev pub or_empty : Option String → Dict String String
  or_empty none = []
  or_empty (some t) = c.cookies t

  -- `request.requests_kwargs.get("cookies") or {}`
  unfoldable pub own_cookies : Request → Dict String String
  own_cookies r = or_empty (lookup "cookies" r.requests_kwargs)

  abbrev pub base_of : Option String → Request → Dict String String × Request
  base_of (some t) r = (c.cookies t, r)
  base_of none r =
      (own_cookies r, record r { custom = insert base_key (c.text (own_cookies r)) r.custom })

  -- `_base_cookies`
  unfoldable pub base_cookies : Request → Dict String String × Request
  base_cookies r = base_of (lookup base_key r.custom) r

  -- `_set_cookies`
  unfoldable pub set_cookies : Dict String String → Request → Request
  set_cookies [] r = record r { requests_kwargs = remove "cookies" r.requests_kwargs }
  set_cookies (e ∷ d) r = record r {
    requests_kwargs = insert "cookies" (c.text (e ∷ d)) r.requests_kwargs;
  }

  -- `process_request` once `_wait_for_user` has answered; UserUnavailableError is raised
  unfoldable pub mount : Bool → Option User → Request → Outcome Mounted
  mount allow (some user) r =
      let (base, r') = base_cookies r in
      returned (record { request = set_cookies (merge base user.cookies) r'; user = some user })
  mount allow none r =
      let (base, r') = base_cookies r in
      if allow then returned (record { request = set_cookies base r'; user = none }) else raised

module _ {P : Type 0} (pool : Pool P) (s : Settings) where
  -- a turn of the loop of `_wait_for_user`: a user, or none if anonymous requests are allowed
  abbrev pub user_or_go : Option User × P → Option (Option User) × P
  user_or_go (some user, p) = (some (some user), p)
  user_or_go (none, p) = ((if s.allow_anonymous then some none else none), p)

  abbrev pub user_trial : Trial P (Option User)
  user_trial = record {
    try = λ p. user_or_go (pool.get p);
    clock = pool.clock;
    sleep = pool.sleep;
    timeout = s.wait_timeout;
  }

  abbrev pub the_user : Option (Option User) → Option User
  the_user none = none
  the_user (some user) = user

  -- `_wait_for_user`, on fuel; none where that does not suffice
  unfoldable pub wait_for_user : ℕ → P → Option (Option User × P)
  wait_for_user fuel p = Option.map (λ a. (the_user a.0, a.1)) (rounds user_trial fuel none p)

  -- `process_response`: the response, or the copy that is sent round again. `check` is `check_login`, with
  -- none where it raises.
  abbrev pub logged_in : Option (Response → Option Bool) → Response → Bool
  logged_in none response = true
  logged_in (some check) response = elim (check response) [ none ↦ true | some b ↦ b ]

  abbrev pub report : Bool → Option User → P → P
  report ok none p = p
  report ok (some user) p = if ok then pool.report_ok user p else pool.report_bad user p

  -- the copy of the request, if `copy` does not raise, with the cookies that are its own
  abbrev pub sent_again : CookieText → Option Request → Outcome (Option Request)
  sent_again c none = raised
  sent_again c (some again) =
      let (base, again') = base_cookies c again in
      returned (some (record (set_cookies c base again') { filter_repeat = false }))

  unfoldable pub process_response :
      CookieText
      → (String → String)
      → Option (Response → Option Bool)
      → Mounted
      → Response
      → P
      → Outcome (Option Request) × P
  process_response c upper check m response p =
      if logged_in check response
      then (returned none, report true m.user p)
      else (sent_again c (copy upper m.request), report false m.user p)
