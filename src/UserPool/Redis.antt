-- ===== src/UserPool/Redis.antt =====
-- network/user_pool/redis.py: accounts that the nodes share. A ready account is a member of a sorted set
-- whose score is the time from which it may be used, in milliseconds; its cookies are cached under a key
-- of their own, without their TTL here. Redis answers every call.
use netspy.Base.{
  ℕ, ◌+◌, String, Bool, Option, none, some, [], ◌∷◌, if◌then◌else◌, ltb, ◌==◌, String_eq, is_some,
}
use netspy.Base.Dict.{Dict, lookup, insert, remove, has}
use netspy.Redis.Rows.{Rows}
use netspy.Redis.SortedSet.{SortedSets}
use netspy.UserPool.{User, Login}

-- `tools.loads_json` (none where it raises) and `tools.dumps_json` on cookies
pub record CookieJson : Type 0 where
  pub loads : String → Option (Dict String String)
  pub dumps : Dict String String → String

-- the arguments of the constructor: the accounts by name, the login, and the settings
pub record RedisUserPool : Type 0 where
  pub accounts : Dict String User
  pub login : Login
  pub require_cookies : Bool
  pub not_ready_retry : ℕ

-- the keys `<name>:users:ready` and `<name>:cookie:<username>`
pub record Shared (Z : Type 0) : Type 0 where
  pub ready : Z
  pub cookies : Dict String String

abbrev pub account : String → Option User → User
account name none = record { username = name; password = ""; cookies = []; extra = [] }
account name (some user) = user

-- the cached cookies; an empty text, or one that does not decode, counts as none
abbrev pub cached : CookieJson → Option String → Option (Dict String String)
cached c none = none
cached c (some text) = if text == "" then none else c.loads text

-- `user.cookies = cookies` on the account's object, which the pool keeps
unfoldable pub keep_cookies : String → Dict String String → RedisUserPool → User × RedisUserPool
keep_cookies name cookies p =
    let user : User = record (account name (lookup name p.accounts)) { cookies = cookies } in
    (
      user,
      (if is_some (lookup name p.accounts)
          then record p { accounts = insert name user p.accounts }
          else p),
    )

module _ (S : SortedSets) (c : CookieJson) where
  open S use {Z, zadd, zpopmin}

  -- the constructor adds the accounts that are not there yet: ZADD NX at 0
  unfoldable pub add_accounts : Dict String User → Z → Z
  add_accounts [] z = z
  add_accounts ((name, user) ∷ rest) z =
      add_accounts rest (if has name (S.rows z) then z else zadd 0 name z)

  abbrev pub Answer : Type 0
  Answer = Option User × RedisUserPool × Shared Z

  -- an account that may be used, without cached cookies, by what its login gives, if there is one
  abbrev pub without_cache :
      ℕ → String → Option (Option (Dict String String)) → RedisUserPool → Shared Z → Answer
  without_cache now name (some (some cookies)) p t =
      let (user, p') = keep_cookies name cookies p in
      (some user, p', record t { cookies = insert name (c.dumps cookies) t.cookies })
  without_cache now name (some none) p t =
      (none, p, record t { ready = zadd (now + 300000) name t.ready })
  without_cache now name none p t =
      if p.require_cookies
      then (none, p, record t { ready = zadd (now + p.not_ready_retry) name t.ready })
      else (some (account name (lookup name p.accounts)), p, t)

  abbrev pub log_in : Login → User → Option (Option (Dict String String))
  log_in none user = none
  log_in (some login) user = some (login user)

  abbrev pub with_cache :
      ℕ → String → Option (Dict String String) → RedisUserPool → Shared Z → Answer
  with_cache now name (some cookies) p t =
      let (user, p') = keep_cookies name cookies p in (some user, p', t)
  with_cache now name none p t =
      without_cache now name (log_in p.login (account name (lookup name p.accounts))) p t

  -- the member that ZPOPMIN took; one whose time has not come goes back
  abbrev pub popped : ℕ → Rows → RedisUserPool → Shared Z → Answer
  popped now [] p t = (none, p, t)
  popped now ((name, score) ∷ rest) p t =
      if ltb now score
      then (none, p, record t { ready = zadd score name t.ready })
      else with_cache now name (cached c (lookup name t.cookies)) p t

  unfoldable pub get : ℕ → RedisUserPool → Shared Z → Answer
  get now p t =
      let (rows, rest) = zpopmin 1 t.ready in popped now rows p (record t { ready = rest })

  unfoldable pub report_ok : ℕ → User → Shared Z → Shared Z
  report_ok now user t = record t { ready = zadd now user.username t.ready }

  unfoldable pub report_bad : ℕ → ℕ → User → Shared Z → Shared Z
  report_bad now block user t = record t {
    ready = zadd (now + block) user.username t.ready;
    cookies = remove user.username t.cookies;
  }
