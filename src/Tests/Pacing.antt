-- ===== src/Tests/Pacing.antt =====
-- Runs of network/throttle.py, network/global_throttle.py, network/circuit.py and network/status.py.
use netspy.Base.{
  ℕ, ◌+◌, ◌%◌, ◌≤◌, ◌<◌, ◌≡◌, refl, true, Option, none, some, List, [], ◌∷◌, arith, if◌then◌else◌,
  ltb, nat_eq, All, String_eq,
}
use netspy.Base.Dict.{lookup_or}
use netspy.Exceptions.{Response}
use netspy.Throttle.{Settings, empty_throttle, interval}
use netspy.Throttle.Spacing.{
  Call, ticket, penalty, crawl_delay, after, start, starts, starts-ticket,
}
use netspy.Throttle.Global.{Cells}
use netspy.Circuit.{CircuitBreaker, record_failure}
use netspy.Circuit.Trips.{Event, fails, succeeds, run, streak, run-trips}
use netspy.Status.{Policy, Parsers}

abbrev settings : Settings
settings = record { download_delay = 1000; randomize = true }

abbrev same : ℕ → ℕ
same d = d

abbrev calls : List Call
calls =
    penalty "site" 500 20
    ∷ ticket "other" 30 same
    ∷ ticket "site" 40 same
    ∷ crawl_delay "site" 3000
    ∷ ticket "site" 50 same
    ∷ []

starts-ticket_example :
    All
      (λ x.
        start settings "site" 10 same empty_throttle + interval settings same "site" empty_throttle
        ≤ x)
      (starts settings "site" calls (after settings (ticket "site" 10 same) empty_throttle))
unfolding interval lookup_or
starts-ticket_example = starts-ticket settings "site" 10 same calls empty_throttle (omega arith)

abbrev value_at : ℕ → Option (ℕ × ℕ) → Option ℕ
value_at now none = none
value_at now (some p) = if ltb now p.0 then some p.1 else none

value_at_unexpired :
    (at ttl value now : ℕ) → now < at + ttl → value_at now (some (at + ttl, value)) ≡ some value
value_at_unexpired at ttl value now h = ground (arith, h)

abbrev cells : Cells
cells = record {
  Cell = Option (ℕ × ℕ);
  unset = none;
  set_px = λ at ttl value. some (at + ttl, value);
  get = value_at;
  get-unset = λ now. refl;
  get-set_px = value_at_unexpired;
}

abbrev no_failures : CircuitBreaker
no_failures = record { failures = [] }

abbrev events : List Event
events = fails "site" 10 ∷ succeeds "other" ∷ fails "site" 20 ∷ fails "other" 30 ∷ []

run-trips_example :
    let s = run 3 5000 events (no_failures, empty_throttle) in
    (record_failure 3 5000 40 "site" s.0 s.1).0 ≡ nat_eq ((streak "site" 0 events + 1) % 3) 0
run-trips_example = run-trips 3 5000 "site" 40 events empty_throttle (omega arith)

abbrev parsers : Parsers
parsers = record { strip = λ s. s; seconds = λ s. some 9000; date = λ s. none }

abbrev policy : Policy
policy = record {
  check_status_code = true;
  accept_status_codes = [];
  retry_status_codes = 429 ∷ [];
  retry_after_max = 60000;
  retry_backoff = 1000;
  retry_interval = 0;
}

abbrev busy : Response
busy = record { url = "http://site/"; status_code = 429; headers = ("retry-after", "9") ∷ [] }
