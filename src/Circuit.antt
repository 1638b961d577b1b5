-- ===== src/Circuit.antt =====
-- network/circuit.py: a domain that fails `threshold` times in a row gets a cooldown. The breaker's own
-- table is `failures`; the cooldown is a penalty on the throttle of Throttle.antt.
pub mod Trips
use netspy.Base.{
  ℕ, suc, ◌+◌, String, Bool, true, false, Option, none, some, List, [], if◌then◌else◌, leb, nat_eq,
  String_eq, ◌||◌,
}
use netspy.Base.Dict.{Dict, lookup_or, insert, remove}
use netspy.Exceptions.{
  Exception, Response, request_error, too_large, antibot, proxy_unavailable, user_unavailable,
  http_status, content_type_rejected, validation, not_retry, spider_error, other, is_request_error,
}
use netspy.Throttle.{DomainThrottle, penalize}

unfoldable pub is_unhealthy_code : ℕ → Bool
is_unhealthy_code code =
    nat_eq code 429 || nat_eq code 500 || nat_eq code 502 || nat_eq code 503 || nat_eq code 504

-- without a response: an HTTP status speaks for itself, our own supply problems do not count, other
-- network errors do
abbrev pub exception_unhealthy : Option Exception → Bool
exception_unhealthy none = false
exception_unhealthy (some (http_status code)) = is_unhealthy_code code
exception_unhealthy (some too_large) = false
exception_unhealthy (some proxy_unavailable) = false
exception_unhealthy (some user_unavailable) = false
exception_unhealthy (some exc) = is_request_error exc

unfoldable pub counts_as_unhealthy : Option Exception → Option Response → Bool
counts_as_unhealthy exc (some response) = is_unhealthy_code response.status_code
counts_as_unhealthy exc none = exception_unhealthy exc

pub record CircuitBreaker : Type 0 where
  pub failures : Dict String ℕ

unfoldable pub record_success : String → CircuitBreaker → CircuitBreaker
record_success domain b = record { failures = remove domain b.failures }

-- The answer says whether this failure tripped the breaker. `threshold` and `cooldown` are the settings
-- CIRCUIT_FAILURE_THRESHOLD and CIRCUIT_COOLDOWN (milliseconds).
unfoldable pub record_failure :
    ℕ → ℕ → ℕ → String → CircuitBreaker → DomainThrottle → Bool × CircuitBreaker × DomainThrottle
record_failure threshold cooldown now domain b t =
    let count = lookup_or 0 domain b.failures + 1 in
    if leb threshold 0
    then (false, b, t)
    else if leb threshold count
    then (true, record { failures = remove domain b.failures }, penalize domain cooldown now t)
    else (false, record { failures = insert domain count b.failures }, t)

unfoldable pub failure_count : String → CircuitBreaker → ℕ
failure_count domain b = lookup_or 0 domain b.failures
