-- ===== src/Tests/Workers.antt =====
-- Runs of core/parser_control.py: a page whose callback yields data, and a request without a callback.
use mathlib.Core.Option
use netspy.Base.{
  subst, arith, All, ◌≡◌, refl, true, false, Option, none, some, [], ◌∷◌, ◌++◌, returned, inl, inr,
}
use netspy.Exceptions.{Response, proxy_unavailable}
use netspy.Request.{init}
use netspy.Request.Examples.{get_request}
use netspy.Throttle.{empty_throttle}
use netspy.Status.{Parsers, classify}
use netspy.Parser.{gave, Results, Hooks, Work, item, follow, answered, failed_with, valid}
use netspy.Parser.Worker.{Settings, process, run_one, dispatch}
use netspy.Parser.Fate.{Fate, reached}
use netspy.Parser.Fates.{fates-process}
use netspy.Parser.Budget.{InBudget, Budgeted, IsBudgeted, run_one-Budgeted}
use netspy.Parser.Escapes.{run_one-raised}

abbrev parsers : Parsers
parsers = record { strip = λ s. s; seconds = λ s. none; date = λ s. none }

-- status codes are not checked
abbrev settings : Settings
settings = record {
  max_retry_times = 3;
  threshold = 5;
  cooldown = 60;
  policy = record {
    check_status_code = false;
    accept_status_codes = [];
    retry_status_codes = [];
    retry_after_max = 0;
    retry_backoff = 0;
    retry_interval = 0;
  };
  parsers = parsers;
  has_sink = true;
}

abbrev page : Response
page = record { url = "http://site/a"; status_code = 200; headers = [] }

-- the parser has the callback of a request that names none
abbrev results_of : Option Results → Hooks
results_of results = record {
  process_request = λ r. gave (inl r);
  download_midware = λ r. gave none;
  allowed = λ url. true;
  download_request = λ r. answered page;
  process_response = λ r response. returned (inr response);
  validate = λ r response. valid;
  callback = λ r response. results;
  failed_request = λ r response. record { produced = []; ending = none };
  put_returns = λ r. true;
  item_put_returns = λ i. true;
  domain_of = λ url. url;
}

abbrev with_items : Hooks
with_items =
    results_of
      (some (record { produced = item "x" ∷ follow (get_request "b") ∷ []; ending = none }))

abbrev start : Work
start = record {
  request_ok = 0;
  retry = 0;
  request_failed = 0;
  dropped = 0;
  robots_dropped = 0;
  content_type_dropped = 0;
  parse_error = 0;
  requests = [];
  items = [];
  deferred = false;
  failed_sink = [];
  finished = [];
  throttle = empty_throttle;
  breaker = record { failures = [] };
}

fates-process_example :
    Fate settings with_items
      (reached with_items (get_request "a"))
      start
      (process settings with_items 0 (get_request "a") start).1
unfolding process init classify dispatch
fates-process_example = fates-process settings with_items 0 (get_request "a") start refl

run_one-raised_example :
    run_one settings (results_of none) 0 (get_request "a") start
    ≡ record start { deferred = false; finished = [] ++ get_request "a" ∷ [] }
unfolding process init classify
run_one-raised_example =
    run_one-raised settings (results_of none) 0 (λ r. refl) (get_request "a") start refl

-- the pages of this site always ask for another try
abbrev unavailable : Hooks
unavailable = record with_items { download_request = λ r. failed_with proxy_unavailable }

unavailable-IsBudgeted : IsBudgeted 3 unavailable
unfolding init
unavailable-IsBudgeted = record {
  called = λ r response results e.
      subst (λ x. All (InBudget 3) x.produced) (Option.some-injective _ _ e)
        (tt, (omega arith, tt));
  failed = λ r response. tt;
}

run_one-Budgeted_example : Budgeted 3 (run_one settings unavailable 0 (get_request "a") start)
run_one-Budgeted_example =
    run_one-Budgeted settings unavailable 0 unavailable-IsBudgeted (get_request "a") start tt
