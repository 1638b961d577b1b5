-- ===== src/ProxyPool.antt =====
-- network/proxy_pool/api.py: the proxies that an HTTP interface listed, handed out in turn, each with a
-- cooldown after failures. Times are milliseconds on the monotonic clock, read once or more in each
-- locked section; a ban that PROXY_BAN_SECONDS=0 makes endless has no time of ending. The log is left
-- out, and the two locked sections of `_fetch` are two functions, the request to the interface between.
pub mod Banned
pub mod Handed
pub mod Turns
pub mod Pruned
use Prim.Native.String.{◌++◌ as append_text}
use netspy.Base.{
  ℕ, zero, suc, ◌+◌, ◌-◌, ◌*◌, ◌^◌, min, max, String, Bool, true, false, not, ◌&&◌, ◌||◌, Option,
  none, some, List, [], ◌∷◌, ◌++◌, map, select, any, length, Outcome, returned, raised,
  if◌then◌else◌, ltb, leb, nat_eq, is_some, ◌==◌, String_eq,
}
use netspy.Base.Dict.{Dict, lookup, lookup_or, insert, remove, has}
use netspy.Base.Text.{has_mark, last_part}

-- PROXY_BAN_SECONDS, PROXY_BAN_MAX_SECONDS, PROXY_MAX_USE_TIMES, PROXY_SUSPECT_BAN_AFTER,
-- PROXY_MIN_INTERVAL
pub record Settings : Type 0 where
  pub ban_seconds : ℕ
  pub ban_max_seconds : ℕ
  pub max_use_times : ℕ
  pub suspect_ban_after : ℕ
  pub min_interval : ℕ

pub record ApiProxyPool : Type 0 where
  pub pool : List String
  pub use_count : Dict String ℕ
  -- the time of release, none for a ban without end
  pub banned : Dict String (Option ℕ)
  -- failures in a row, and the time of the last
  pub fails : Dict String (ℕ × ℕ)
  pub suspects : Dict String (ℕ × ℕ)
  pub last_fetch : Option ℕ

-- `until <= now`
abbrev pub is_over : ℕ → Option ℕ → Bool
is_over now none = false
is_over now (some until) = leb until now

-- `until > now`, for the entry of a proxy
abbrev pub is_cooling : ℕ → Option (Option ℕ) → Bool
is_cooling now none = false
is_cooling now (some until) = not (is_over now until)

-- `now + seconds`
abbrev pub later : ℕ → Option ℕ → Option ℕ
later now none = none
later now (some seconds) = some (now + seconds)

unfoldable pub contains : String → List String → Bool
contains x xs = any (λ y. y == x) xs

-- `deque.remove`: the first that equals
unfoldable pub remove_first : String → List String → List String
remove_first x [] = []
remove_first x (y ∷ ys) = let rest = remove_first x ys in if y == x then ys else y ∷ rest

unfoldable pub is_stale : Settings → ℕ → String × (ℕ × ℕ) → Bool
is_stale s now e = ltb s.ban_max_seconds (now - e.1.1)

unfoldable pub prune : Settings → ℕ → ApiProxyPool → ApiProxyPool
unfolding is_stale contains
prune s now p =
    let cooling = select (λ e. not (is_over now e.1)) p.banned in
    record p {
      banned = cooling;
      fails = select (λ e. not (is_stale s now e)) p.fails;
      suspects = select (λ e. not (is_stale s now e)) p.suspects;
      use_count = select (λ e. contains e.0 p.pool || has e.0 cooling) p.use_count;
    }

-- the answer on the entry of the proxy, and the pool without the entry if its time is over
abbrev pub look : String → ℕ → Option (Option ℕ) → ApiProxyPool → Bool × ApiProxyPool
look proxy now none p = (false, p)
look proxy now (some until) p =
    if is_over now until then (false, record p { banned = remove proxy p.banned }) else (true, p)

unfoldable pub is_banned : String → ℕ → ApiProxyPool → Bool × ApiProxyPool
is_banned proxy now p = look proxy now (lookup proxy p.banned) p

abbrev pub too_soon : Settings → ℕ → Option ℕ → Bool
too_soon s now none = false
too_soon s now (some last) = ltb (now - last) s.min_interval

-- The first locked section of `_fetch`: whether the interface is asked, and the pool.
unfoldable pub begin_fetch : Settings → Bool → ℕ → ApiProxyPool → Bool × ApiProxyPool
begin_fetch s has_api now p =
    if not has_api || too_soon s now p.last_fetch
    then (false, p)
    else (true, prune s now (record p { last_fetch = some now }))

-- The second: the proxies that are neither banned nor in the pool are appended.
unfoldable pub refill : ℕ → List String → ApiProxyPool → ApiProxyPool
unfolding contains
refill now [] p = p
refill now (proxy ∷ rest) p =
    let (cooling, p') = is_banned proxy now p in
    refill now rest (
      if not cooling && not (contains proxy p'.pool)
      then record p' { pool = p'.pool ++ proxy ∷ [] }
      else p')

unfoldable pub drop : String → ApiProxyPool → ApiProxyPool
unfolding remove_first
drop proxy p = record p { pool = remove_first proxy p.pool }

unfoldable pub normalize : String → String
normalize proxy = if has_mark "://" proxy then proxy else append_text "http://" proxy

-- a use of the proxy: counted, and dropped from the pool when it is used up
unfoldable pub use_proxy : Settings → String → ApiProxyPool → ApiProxyPool
use_proxy s proxy p =
    let count = lookup_or 0 proxy p.use_count + 1 in
    let p' : ApiProxyPool = record p { use_count = insert proxy count p.use_count } in
    if leb s.max_use_times count then drop proxy p' else p'

-- one turn of the loop on the proxy at the head, by whether it is banned; `again` is the next turn
abbrev pub take_or_drop :
    Settings
    → (ApiProxyPool → Outcome (Option String) × ApiProxyPool)
    → String
    → Bool × ApiProxyPool
    → Outcome (Option String) × ApiProxyPool
take_or_drop s again proxy (true, p) = again (drop proxy p)
take_or_drop s again proxy (false, p) = (returned (some proxy), use_proxy s proxy p)

-- `self._pool[0]` raises on an empty pool; the head goes to the end
abbrev pub turn_at :
    Settings
    → ℕ
    → (ApiProxyPool → Outcome (Option String) × ApiProxyPool)
    → List String
    → ApiProxyPool
    → Outcome (Option String) × ApiProxyPool
turn_at s now again [] p = (raised, p)
turn_at s now again (proxy ∷ rest) p =
    take_or_drop s again proxy (is_banned proxy now (record p { pool = rest ++ proxy ∷ [] }))

-- The loop of `get_proxy` with `n` turns left, the clock read in each. The answer is the entry of the
-- pool.
unfoldable pub choose :
    Settings → (ℕ → ℕ) → ℕ → ApiProxyPool → Outcome (Option String) × ApiProxyPool
choose s clock zero p = (returned none, p)
choose s clock (suc n) p = turn_at s (clock n) (choose s clock n) p.pool p

-- the last locked section of `get_proxy`
unfoldable pub take_turn :
    Settings → (ℕ → ℕ) → ApiProxyPool → Outcome (Option String) × ApiProxyPool
take_turn s clock p = choose s clock (length p.pool) p

-- `fetched` is the pool after `_fetch`, which runs only on an empty pool
unfoldable pub get_proxy :
    Settings
    → (ApiProxyPool → ApiProxyPool)
    → (ℕ → ℕ)
    → ApiProxyPool
    → Outcome (Option String) × ApiProxyPool
get_proxy s fetch clock p =
    let (answer, p') = take_turn s clock (if nat_eq (length p.pool) 0 then fetch p else p) in
    elim answer [
      | raised ↦ (raised, p')
      | returned none ↦ (returned none, p')
      | returned (some proxy) ↦ (returned (some (normalize proxy)), p')
    ]

-- `_ban_seconds`
unfoldable pub ban_time : Settings → ℕ → Option ℕ
ban_time s fails =
    if leb s.ban_seconds 0
    then none
    else some (min (s.ban_seconds * 2 ^ (fails - 1)) s.ban_max_seconds)

unfoldable pub raw : String → String
raw proxy = last_part "://" proxy

unfoldable pub report_good : String → ApiProxyPool → ApiProxyPool
report_good proxy p =
    if not (has (raw proxy) p.fails) && not (has (raw proxy) p.suspects)
    then p
    else record p { fails = remove (raw proxy) p.fails; suspects = remove (raw proxy) p.suspects }

-- the failures in a row so far, none if the last lies too far back
unfoldable pub in_a_row : Settings → ℕ → String → Dict String (ℕ × ℕ) → ℕ
in_a_row s now key d =
    let (n, last) = lookup_or (0, 0) key d in
    if ltb 0 last && ltb s.ban_max_seconds (now - last) then 0 else n

unfoldable pub report_bad : Settings → ℕ → String → ApiProxyPool → ApiProxyPool
report_bad s now proxy p =
    let fails = in_a_row s now (raw proxy) p.fails + 1 in
    let until = later now (ban_time s fails) in
    drop (raw proxy) (record p {
      fails = insert (raw proxy) (fails, now) p.fails;
      suspects = remove (raw proxy) p.suspects;
      banned = insert proxy until (insert (raw proxy) until p.banned);
    })

-- The second reading of the clock is that of `report_bad`, a locked section of its own.
unfoldable pub report_suspect : Settings → ℕ → ℕ → String → ApiProxyPool → ApiProxyPool
report_suspect s now then_ proxy p =
    let n = in_a_row s now (raw proxy) p.suspects + 1 in
    if ltb n (max s.suspect_ban_after 1)
    then record p { suspects = insert (raw proxy) (n, now) p.suspects }
    else report_bad s then_ proxy (record p { suspects = remove (raw proxy) p.suspects })

unfoldable pub close : ApiProxyPool → ApiProxyPool
close p = record p { pool = [] }
