-- ===== src/Parser.antt =====
-- core/parser_control.py: a worker takes a request from the collector, downloads it, checks the answer and
-- runs the callback. What the user's parser, the middleware, the downloader and robots.txt answer comes
-- in as `Hooks`, exceptions included; the buffers, counters and the collector are the state `Work`.
pub mod Worker
pub mod Fate
pub mod Fates
pub mod Escapes
pub mod Budget
use netspy.Base.{ℕ, String, Bool, Option, List, Outcome, ◌⊎◌}
use netspy.Exceptions.{Exception, Response}
use netspy.Request.{Request}
use netspy.Throttle.{DomainThrottle}
use netspy.Circuit.{CircuitBreaker}

-- What a callback yields: a request, a callable (with the exception of its call, if it raises one), or data to
-- store.
pub data Produced : Type 0 where
  follow : Request → Produced
  task : Option Exception → Produced
  item : String → Produced

-- The objects in order, and the exception that ends the iteration, if one does.
pub record Results : Type 0 where
  pub produced : List Produced
  pub ending : Option Exception

-- `download_request`: a response, or an exception: of the content type, another RequestError, or any other.
pub data Downloaded : Type 0 where
  answered : Response → Downloaded
  rejected broken : Downloaded
  failed_with : Exception → Downloaded

-- `parser.validate`
pub data Validated : Type 0 where
  valid invalid not_valid not_retried crashed : Validated

-- what a hook answers, or the exception that it raises
pub data Reply (A : Type 0) : Type 0 where
  gave : A → Reply A
  threw : Exception → Reply A

pub record Hooks : Type 0 where
  pub process_request : Request → Reply (Request ⊎ Response)
  pub download_midware : Request → Reply (Option Request)
  pub allowed : String → Bool
  pub download_request : Request → Downloaded
  pub process_response : Request → Response → Outcome (Request ⊎ Response)
  pub validate : Request → Response → Validated
  -- `_resolve_callback` and the call; `none` if the parser has no such method
  pub callback : Request → Option Response → Option Results
  pub failed_request : Request → Option Response → Results
  -- whether a put into the buffers returns: a flush that it starts may raise
  pub put_returns : Request → Bool
  pub item_put_returns : String → Bool
  pub domain_of : String → String

-- The counters of utils/stats.py that the worker increments, the buffers' input, the tasks settled.
pub record Work : Type 0 where
  pub request_ok : ℕ
  pub retry : ℕ
  pub request_failed : ℕ
  pub dropped : ℕ
  pub robots_dropped : ℕ
  pub content_type_dropped : ℕ
  pub parse_error : ℕ
  pub requests : List Request
  pub items : List String
  pub deferred : Bool
  pub failed_sink : List Request
  pub finished : List Request
  pub throttle : DomainThrottle
  pub breaker : CircuitBreaker
