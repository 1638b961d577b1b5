-- ===== src/UserPool.antt =====
-- network/user_pool/base.py and network/user_pool/local.py: accounts in the process, handed out in turn.
-- Times are milliseconds on the monotonic clock. The locked sections of one call are run in order; the
-- locks of the logins and the log are left out. A value of `extra` is its JSON text.
pub mod Blocked
pub mod Redis
pub mod Borrowed
pub mod Middleware
pub mod Mounted
use netspy.Base.{
  ℕ, zero, suc, ◌+◌, ◌-◌, ◌%◌, max, String, Bool, true, false, not, ◌&&◌, ◌||◌, Option, none, some,
  List, [], ◌∷◌, ◌++◌, length, get_elem?, set, tally, Outcome, returned, raised, if◌then◌else◌, ltb,
  leb, String_eq, replicate, tabulate, select,
}
use netspy.Base.Dict.{Dict, lookup_or, insert}

pub record User : Type 0 where
  pub username : String
  pub password : String
  pub cookies : Dict String String
  pub extra : Dict String String

abbrev pub or_text : String → Option String → String
or_text d none = d
or_text d (some s) = s

abbrev pub or_dict : Option (Dict String String) → Dict String String
or_dict none = []
or_dict (some d) = d

-- a user given as a dictionary, whose keys may be missing
pub record RawUser : Type 0 where
  pub username : Option String
  pub password : Option String
  pub cookies : Option (Dict String String)
  pub extra : Option (Dict String String)

-- `_coerce_user` on a dictionary
unfoldable pub coerce_user : RawUser → User
coerce_user raw = record {
  username = or_text "guest" raw.username;
  password = or_text "" raw.password;
  cookies = or_dict raw.cookies;
  extra = or_dict raw.extra;
}

pub record LocalUserPool : Type 0 where
  pub users : List User
  -- the end of each block
  pub blocked : Dict String ℕ
  pub idx : ℕ

-- `login`, if there is one: the cookies, or none where it raises
abbrev pub Login : Type 0
Login = Option (User → Option (Dict String String))

unfoldable pub add_user : User → LocalUserPool → LocalUserPool
add_user user p = record p { users = p.users ++ user ∷ [] }

abbrev pub is_empty_dict : Dict String String → Bool
is_empty_dict [] = true
is_empty_dict (e ∷ d) = false

unfoldable pub is_blocked : ℕ → LocalUserPool → User → Bool
is_blocked now p user = ltb now (lookup_or 0 user.username p.blocked)

-- the user at `i` has logged in, or its login raised and blocks it for 300 seconds
abbrev pub after_login :
    ℕ → ℕ → User → Option (Dict String String) → LocalUserPool → Option User × LocalUserPool
after_login later i user (some cookies) p = (
  some (record user { cookies = cookies }),
  record p { users = set p.users i (record user { cookies = cookies }) },
)
after_login later i user none p =
    (none, record p { blocked = insert user.username (later + 300000) p.blocked })

-- a user that is not blocked: itself if it has cookies or there is no login, else what its login gives
abbrev pub try_user : Login → ℕ → ℕ → User → LocalUserPool → Option User × LocalUserPool
try_user none later i user p = (some user, p)
try_user (some login) later i user p =
    if not (is_empty_dict user.cookies)
    then (some user, p)
    else after_login later i user (login user) p

-- the end of a turn; `again` is the next
abbrev pub settle :
    (LocalUserPool → Outcome (Option User) × LocalUserPool)
    → Option User × LocalUserPool
    → Outcome (Option User) × LocalUserPool
settle again (some user, p) = (returned (some user), p)
settle again (none, p) = again p

-- one turn, on the user at `i`
abbrev pub turn_at :
    Login
    → ℕ
    → ℕ
    → (LocalUserPool → Outcome (Option User) × LocalUserPool)
    → ℕ
    → Option User
    → LocalUserPool
    → Outcome (Option User) × LocalUserPool
turn_at login now later again i none p = (raised, p)
turn_at login now later again i (some user) p =
    if is_blocked now p user then again p else settle again (try_user login later i user p)

-- The loop of `get` with `n` turns left; `later` is the clock after a login.
unfoldable pub turns : Login → ℕ → ℕ → ℕ → ℕ → LocalUserPool → Outcome (Option User) × LocalUserPool
turns login now later total zero p = (returned none, p)
turns login now later total (suc n) p =
    let i = p.idx % total in
    turn_at login now later (turns login now later total n) i (get_elem? p.users i)
      (record p { idx = p.idx + 1 })

unfoldable pub get : Login → ℕ → ℕ → LocalUserPool → Outcome (Option User) × LocalUserPool
get login now later p = turns login now later (length p.users) (length p.users) p

-- `report_bad`; the user at `i` loses its cookies
unfoldable pub report_bad : ℕ → ℕ → ℕ → User → LocalUserPool → LocalUserPool
report_bad now block i user p = record p {
  blocked = insert user.username (now + block) p.blocked;
  users = set p.users i (record user { cookies = [] });
}

-- GuestUserPool: its pool, size and counter; `name n` is `f"guest-{n}"`
pub record GuestUserPool : Type 0 where
  pub pool : LocalUserPool
  pub size : ℕ
  pub counter : ℕ

unfoldable pub guest : String → User
guest name = record { username = name; password = ""; cookies = []; extra = [] }

unfoldable pub guest_pool : ℕ → GuestUserPool
guest_pool size = record {
  pool = record { users = []; blocked = []; idx = 0 };
  size = max 1 size;
  counter = 0;
}

-- `while live < self._size`, by the number of guests that are missing
unfoldable pub add_guests : (ℕ → String) → ℕ → GuestUserPool → GuestUserPool
add_guests name zero g = g
add_guests name (suc missing) g =
    add_guests name missing
      (record g { counter = g.counter + 1; pool = add_user (guest (name (g.counter + 1))) g.pool })

unfoldable pub live_users : ℕ → LocalUserPool → ℕ
live_users now p = tally (λ u. leb (lookup_or 0 u.username p.blocked) now) p.users

-- the second reading of the clock is that of `LocalUserPool.get`
unfoldable pub get_guest :
    (ℕ → String) → Login → ℕ → ℕ → ℕ → GuestUserPool → Outcome (Option User) × GuestUserPool
get_guest name login now then_ later g =
    let g' : GuestUserPool = add_guests name (g.size - live_users now g.pool) g in
    let (answer, p) = get login then_ later g'.pool in (answer, record g' { pool = p })
