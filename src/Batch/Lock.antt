-- ===== src/Batch/Lock.antt =====
-- The master's lock of core/batch_monitor.py: one master for each namespace. Times are whole seconds.
use netspy.Base.{
  ℕ, ◌+◌, ◌*◌, ◌<◌, String, ◌≡◌, Bool, true, false, Option, none, some, List, [], ◌∷◌,
  if◌then◌else◌, max, ◌==◌, String_eq,
}

-- One key of Redis that holds a text and expires: SET NX EX, GET, EXPIRE and DEL at a time.
pub record LockKey : Type 1 where
  pub Cell : Type 0
  pub get : ℕ → Cell → Option String
  pub set_nx_ex : ℕ → String → ℕ → Cell → Bool × Cell
  pub expire : ℕ → ℕ → Cell → Cell
  pub del : Cell → Cell
  pub set_nx_taken :
      (now ttl : ℕ) (v w : String) (c : Cell)
      → get now c ≡ some w
      → set_nx_ex now v ttl c ≡ (false, c)
  pub set_nx_free :
      (now ttl later : ℕ) (v : String) (c : Cell)
      → get now c ≡ none
      → ((set_nx_ex now v ttl c).0 ≡ true)
        × (later < now + ttl → get later (set_nx_ex now v ttl c).1 ≡ some v)
  pub get-expire :
      (now ttl later : ℕ) (w : String) (c : Cell)
      → get now c ≡ some w
      → later < now + ttl
      → get later (expire now ttl c) ≡ some w

-- `_lock_ttl`, for a whole number of seconds between the rounds
unfoldable pub lock_ttl : ℕ → ℕ
lock_ttl monitor_interval = max 60 (monitor_interval * 3)

abbrev pub is_mine : String → Option String → Bool
is_mine node none = false
is_mine node (some v) = v == node

-- what the other nodes do, each at its time
pub data Attempt : Type 0 where
  holds renews releases : ℕ → String → Attempt

-- an attempt by another node before `end`
abbrev pub Foreign : String → ℕ → Attempt → Type 0
Foreign me end (holds now node) = ((me == node) ≡ false) × (now < end)
Foreign me end (renews now node) = ((me == node) ≡ false) × (now < end)
Foreign me end (releases now node) = ((me == node) ≡ false) × (now < end)

module _ (L : LockKey) (monitor_interval : ℕ) where
  open L use {Cell, get, set_nx_ex, expire, del}

  -- `_hold_lock`: `false` is its SpiderError
  unfoldable pub hold_lock : ℕ → String → Cell → Bool × Cell
  hold_lock now node c = set_nx_ex now node (lock_ttl monitor_interval) c

  -- `_renew_lock` and _RENEW_LUA: `false` is its SpiderError
  unfoldable pub renew_lock : ℕ → String → Cell → Bool × Cell
  renew_lock now node c =
      if is_mine node (get now c)
      then (true, expire now (lock_ttl monitor_interval) c)
      else (false, c)

  -- `_LockGuard.__exit__` and _RELEASE_LUA
  unfoldable pub release_lock : ℕ → String → Cell → Cell
  release_lock now node c = if is_mine node (get now c) then del c else c

  unfoldable pub attempt : Attempt → Cell → Cell
  attempt (holds now node) c = (hold_lock now node c).1
  attempt (renews now node) c = (renew_lock now node c).1
  attempt (releases now node) c = release_lock now node c

  unfoldable pub attempts : List Attempt → Cell → Cell
  attempts [] c = c
  attempts (a ∷ tries) c = attempts tries (attempt a c)

  -- The key names this node at every time before `end`.
  abbrev pub IsHeld : String → ℕ → Cell → Type 0
  IsHeld me end c = (later : ℕ) → later < end → get later c ≡ some me
