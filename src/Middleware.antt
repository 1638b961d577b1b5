-- ===== src/Middleware.antt =====
-- network/middleware.py: the chain of downloader middlewares. A handler may be missing; an exception of one leaves
-- the chain. The names `process_request` and `process_response` are those of the manager.
pub mod Onion
use netspy.Base.{Bool, true, false, Option, none, some, List, [], ◌∷◌, ◌++◌}
use netspy.Exceptions.{Response}
use netspy.Request.{Request}

-- what `process_request` of a middleware gives: None, a request or a response
pub data Sent : Type 0 where
  unchanged : Sent
  replaced : Request → Sent
  answered : Response → Sent
  send_failed : Sent

-- what `process_response` gives: a response or a request
pub data Received : Type 0 where
  passed_on : Response → Received
  sent_again : Request → Received
  receive_failed : Received

pub record Middleware : Type 0 where
  pub on_request : Option (Request → Sent)
  pub on_response : Option (Request → Response → Received)

-- what the manager gives: the request to download, or a response instead
pub data Outgoing : Type 0 where
  download : Request → Outgoing
  short_cut : Response → Outgoing
  request_failed : Outgoing

abbrev pub call_request : Option (Request → Sent) → Request → Sent
call_request none request = unchanged
call_request (some handler) request = handler request

-- after one middleware: the others, on the request as it stands
abbrev pub go_on : (Request → Outgoing) → Request → Sent → Outgoing
go_on others request unchanged = others request
go_on others request (replaced request') = others request'
go_on others request (answered response) = short_cut response
go_on others request send_failed = request_failed

unfoldable pub process_request : List Middleware → Request → Outgoing
process_request [] request = download request
process_request (m ∷ ms) request =
    go_on (process_request ms) request (call_request m.on_request request)

abbrev pub call_response : Option (Request → Response → Received) → Request → Response → Received
call_response none request response = passed_on response
call_response (some handler) request response = handler request response

abbrev pub hand_on : (Response → Received) → Received → Received
hand_on others (passed_on response) = others response
hand_on others (sent_again request) = sent_again request
hand_on others receive_failed = receive_failed

-- the loop of `process_response`, over the chain as it is given
unfoldable pub receive_all : List Middleware → Request → Response → Received
receive_all [] request response = passed_on response
receive_all (m ∷ ms) request response =
    hand_on (receive_all ms request) (call_response m.on_response request response)

unfoldable pub reversed : List Middleware → List Middleware
reversed [] = []
reversed (m ∷ ms) = reversed ms ++ m ∷ []

unfoldable pub process_response : List Middleware → Request → Response → Received
unfolding reversed
process_response ms request response = receive_all (reversed ms) request response

unfoldable pub prepend : Middleware → List Middleware → List Middleware
prepend m ms = m ∷ ms
