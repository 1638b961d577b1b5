-- ===== src/Status.antt =====
-- network/status.py. Times are milliseconds; `uniform` is the factor of random.uniform(0.5, 1.0).
pub mod Delays
use netspy.Base.{
  not, ℕ, ◌+◌, ◌-◌, ◌*◌, ◌^◌, String, Bool, true, false, ◌&&◌, ◌||◌, Option, none, some, List, [],
  ◌∷◌, if◌then◌else◌, leb, ltb, nat_eq, min, max, any, ◌==◌, String_eq,
}
use netspy.Base.Dict.{lookup}
use netspy.Exceptions.{Response}
use netspy.Request.{Request}

pub data Verdict : Type 0 where
  ok retry fail : Verdict

pub record Policy : Type 0 where
  pub check_status_code : Bool
  pub accept_status_codes : List ℕ
  pub retry_status_codes : List ℕ
  -- 0 turns Retry-After off
  pub retry_after_max : ℕ
  pub retry_backoff : ℕ
  pub retry_interval : ℕ

unfoldable pub listed : ℕ → List ℕ → Bool
listed code codes = any (λ c. nat_eq c code) codes

unfoldable pub classify : Policy → Response → Verdict
unfolding listed
classify p r =
    if not p.check_status_code
    then ok
    else if leb 200 r.status_code && ltb r.status_code 400
    then ok
    else if listed r.status_code p.accept_status_codes
    then ok
    else if listed r.status_code p.retry_status_codes
    then retry
    else fail

-- `str.strip`, `float` (of a number of seconds, at least 0) and `parsedate_to_datetime` of the standard
-- library, in milliseconds
pub record Parsers : Type 0 where
  pub strip : String → String
  pub seconds : String → Option ℕ
  pub date : String → Option ℕ

module _ (parse : Parsers) where
  unfoldable pub parse_retry_after : String → ℕ → Option ℕ
  parse_retry_after value now =
      let text = parse.strip value in
      if text == "" then none else elim (parse.seconds text) [
        | some seconds ↦ some seconds
        | none ↦ elim (parse.date text) [ none ↦ none | some when ↦ some (when - now) ]
      ]

  abbrev pub parse_header : Option String → ℕ → Option ℕ
  parse_header none now = none
  parse_header (some raw) now = if raw == "" then none else parse_retry_after raw now

  unfoldable pub retry_after_seconds : Policy → Option Response → ℕ → Option ℕ
  retry_after_seconds p none now = none
  retry_after_seconds p (some r) now =
      if nat_eq p.retry_after_max 0
      then none
      else if nat_eq r.status_code 429 || nat_eq r.status_code 503
      then parse_header (lookup "retry-after" r.headers) now
      else none

  -- The wait before a retry that no header decides.
  unfoldable pub backoff_delay : Policy → (ℕ → ℕ) → ℕ → ℕ
  backoff_delay p uniform retry_times =
      let raw = p.retry_backoff * 2 ^ (retry_times - 1) in
      if ltb 0 p.retry_backoff
      then uniform (if nat_eq p.retry_after_max 0 then raw else min raw p.retry_after_max)
      else p.retry_interval

  unfoldable pub retry_delay : Policy → (ℕ → ℕ) → Request → Option Response → ℕ → ℕ
  retry_delay p uniform request response now = elim (retry_after_seconds p response now) [
    | some explicit ↦ explicit
    | none ↦ backoff_delay p uniform request.retry_times
  ]

  unfoldable pub retry_after_too_long : Policy → Option Response → ℕ → Option ℕ
  retry_after_too_long p response now = elim (retry_after_seconds p response now) [
    | none ↦ none
    | some seconds ↦
        if nat_eq p.retry_after_max 0
        then none
        else if ltb p.retry_after_max seconds
        then some seconds
        else none
  ]
