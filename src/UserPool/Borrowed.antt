-- ===== src/UserPool/Borrowed.antt =====
-- What one `get` of the shared pool does to the accounts that are ready.
use netspy.Base.{
  ℕ, String, ◌≡◌, Bool, false, not, ◌&&◌, ◌||◌, Option, none, some, ◌==◌, String_eq, is_some,
}
use netspy.Base.Dict.{Dict, lookup}
use netspy.Redis.Rows.{Rows}
use netspy.Redis.SortedSet.{SortedSets}
use netspy.TaskQueue.Keys.{score}
use netspy.UserPool.{User}
use netspy.UserPool.Redis.{CookieJson, RedisUserPool, Shared, account, popped, Answer}

abbrev pub is_handed : String → Option User → Bool
is_handed m none = false
is_handed m (some user) = user.username == m

-- each account stands under its name
abbrev pub Named : RedisUserPool → Type 0
Named p = (name : String) → (account name (lookup name p.accounts)).username ≡ name

module _ (S : SortedSets) (c : CookieJson) where
  open S use {Z}

  abbrev pub is_ready : String → Shared Z → Bool
  is_ready m t = is_some (score S m t.ready)

  -- What an answer on the account `name` makes of `m`, over the set `z` that lacks `name`.
  abbrev Settled : String → String → Z → Answer S c → Type 0
  Settled name m z a =
      is_ready m a.2 ≡ ((name == m || is_some (score S m z)) && not (is_handed m a.0))

  -- what `get` answers, by what ZPOPMIN gave it
  Exact : ℕ → String → RedisUserPool → Shared Z → Rows → Type 0
  Exact now m p t rs =
      let a = popped S c now rs p (record t { ready = (S.zpopmin 1 t.ready).1 }) in
      is_ready m a.2 ≡ (is_ready m t && not (is_handed m a.0))
