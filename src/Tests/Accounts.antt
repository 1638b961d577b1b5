-- ===== src/Tests/Accounts.antt =====
-- Runs of network/user_pool, network/robots.py, network/middleware.py and commands/retry.py.
use netspy.Base.{
  ℕ, ◌<◌, ◌≡◌, refl, String, Bool, true, false, Option, none, some, List, [], ◌∷◌, arith,
  if◌then◌else◌, ◌==◌, String_eq, Bool-cases, inl, inr,
}
use netspy.Base.Dict.{Dict, lookup, lookup_or}
use netspy.Redis.Reference.{sorted_rows}
use netspy.UserPool.{User, LocalUserPool, Login, get}
use netspy.UserPool.Blocked.{Kept, block_end, get-Kept}
use netspy.UserPool.Redis.{CookieJson, RedisUserPool, Shared, get as borrow}
use netspy.UserPool.Middleware.{CookieText}
use netspy.RetryCommand.{Fields, LineJson}
use netspy.Robots.{Texts, Parser, Settings, Robots, is_fresh, entry, new_entry, fetch}
use netspy.Robots.Obeyed.{Visit, visit, visits, visit-visits}
use netspy.Throttle.{empty_throttle}

abbrev alice : User
alice = record { username = "alice"; password = "a"; cookies = ("sid", "ALICE") ∷ []; extra = [] }

abbrev bob : User
bob = record { username = "bob"; password = "b"; cookies = []; extra = [] }

abbrev users : LocalUserPool
users = record { users = alice ∷ bob ∷ []; blocked = ("alice", 5000) ∷ []; idx = 0 }

abbrev log_in : Login
log_in = some (λ user. some (("sid", user.username) ∷ []))

alice_blocked : 1000 < block_end "alice" users
unfolding block_end lookup_or
alice_blocked = omega arith

get-Kept_example : Kept 1000 "alice" (get log_in 1000 1200 users)
get-Kept_example = get-Kept log_in 1000 1200 "alice" users alice_blocked

abbrev cookie_json : CookieJson
cookie_json = record { loads = λ s. none; dumps = λ d. "" }

abbrev accounts : RedisUserPool
accounts = record {
  accounts = ("alice", alice) ∷ ("bob", bob) ∷ [];
  login = none;
  require_cookies = false;
  not_ready_retry = 30000;
}

abbrev ready : Shared sorted_rows.Z
ready = record {
  ready = sorted_rows.zadd 0 "alice" (sorted_rows.zadd 9000 "bob" sorted_rows.nil);
  cookies = [];
}

-- a request with one cookie or none, whose text is the value
abbrev value : Dict String String → String
value [] = ""
value ((k, v) ∷ d) = v

abbrev one_cookie : String → Dict String String
one_cookie t = if t == "" then [] else ("sid", t) ∷ []

one_cookie-value : (t : String) → one_cookie (value (one_cookie t)) ≡ one_cookie t
one_cookie-value t = elim (Bool-cases (t == "")) [ inl e ↦ rw e refl | inr e ↦ rw e (rw e refl) ]

abbrev cookie_text : CookieText
cookie_text = record {
  text = value;
  cookies = one_cookie;
  cookies-text = one_cookie-value;
  cookies-empty = refl;
}

-- a dump whose records are their own texts
abbrev lines : LineJson String
lines = record { loads = λ s. some s; dumps = λ s. s; loads-dumps = λ s. refl }

abbrev fields : Fields String
fields = record { table = λ s. s; update_keys = λ s. []; pipelines = λ s. none }

-- the pipelines take only the table "a", and raise on "c"
abbrev takes_a : String → List String → Option Bool
takes_a table rows = if table == "c" then none else some (table == "a")

abbrev dump : Option (List String)
dump = some ("a" ∷ "b" ∷ "a" ∷ "c" ∷ [])

abbrev is_b : String → Bool
is_b s = s == "b"

abbrev texts : Texts
texts = record { strip = λ s. s; lower = λ s. s; float = λ s. some 2000 }

-- a parser that allows everything
abbrev parser : Parser ℕ
parser = record { parse = λ lines. some 0; can_fetch = λ rules agent url. some true }

abbrev robots_settings : Settings
robots_settings = record { cache_ttl = 3600000; user_agent = "netspy" }

abbrev no_robots : Robots ℕ
no_robots = record { entries = []; throttle = empty_throttle }

abbrev rules_text : List String
rules_text = "user-agent:netspy" ∷ "crawl-delay:2" ∷ []

abbrev first : Visit
first = record { response = some (200, rules_text); now = 10; later = 20; domain = "a" }

abbrev elsewhere : Visit
elsewhere = record { response = none; now = 30; later = 40; domain = "b" }

abbrev second : Visit
second = record { response = none; now = 50; later = 60; domain = "a" }

visit-visits_example :
    let r' =
      visits texts parser robots_settings
        (elsewhere ∷ [])
        (visit texts parser robots_settings first no_robots).1 in
    visit texts parser robots_settings second r'
    ≡ ((visit texts parser robots_settings first no_robots).0, r')
unfolding is_fresh visit entry new_entry fetch lookup
visit-visits_example =
    visit-visits texts parser robots_settings first second (elsewhere ∷ []) no_robots refl
      (refl, tt) refl
