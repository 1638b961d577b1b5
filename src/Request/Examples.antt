-- ===== src/Request/Examples.antt =====
-- Requests for the examples of the other modules.
use netspy.Base.{String, []}
use netspy.Request.{Request, defaults, init}

-- a request with the constructor's defaults
abbrev pub get_request : String → Request
get_request url = init (λ m. m) url "GET" defaults []
