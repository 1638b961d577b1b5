-- ===== src/UserPool/Mounted.antt =====
-- Which cookies a request carries that goes round under several accounts.
use netspy.Base.{String, Option, none, some, [], ◌∷◌, String_eq, Outcome, returned, raised}
use netspy.Base.Dict.{Dict, lookup}
use netspy.Request.{Request}
use netspy.UserPool.{User}
use netspy.UserPool.Middleware.{CookieText, merge, Mounted}

module _ (c : CookieText) where
  -- the cookies under which the request is sent, if it is
  abbrev pub sent : Outcome Mounted → Option (Option String)
  sent raised = none
  sent (returned m) = some (lookup "cookies" m.request.requests_kwargs)

  abbrev pub as_sent : Dict String String → Option String
  as_sent [] = none
  as_sent (e ∷ d) = some (c.text (e ∷ d))

  -- what the request under a user sends: its base and the user's
  abbrev with_user : Dict String String → Option User → Dict String String
  with_user base none = base
  with_user base (some user) = merge base user.cookies

  abbrev pub request_of : Request → Outcome Mounted → Request
  request_of r raised = r
  request_of r (returned m) = m.request
