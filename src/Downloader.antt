-- ===== src/Downloader.antt =====
-- network/downloader/_common.py: what the downloaders share, on values. `setting` values are arguments; the
-- HTTP clients, SSL contexts and the log are left out.
pub mod Sessions
pub mod Capped
pub mod Proxies
pub mod Hidden
pub mod Shards
use netspy.Base.{
  ℕ, zero, suc, ◌+◌, ◌-◌, ◌/◌, max, String, Bool, true, false, not, ◌&&◌, ◌||◌, Option, none, some,
  List, [], ◌∷◌, ◌++◌, map, length, any, select, Outcome, returned, raised, if◌then◌else◌, ltb, leb,
  ◌==◌, Key, String_eq,
}
use netspy.Base.Dict.{Dict, lookup, insert, remove}

-- `set_effective_concurrency`: the largest of what the schedulers of the process told
unfoldable pub set_effective_concurrency : Option ℕ → Option ℕ → Option ℕ
set_effective_concurrency none told = none
set_effective_concurrency (some n) none = some (max n 1)
set_effective_concurrency (some n) (some told) = some (max told (max n 1))

abbrev pub or_setting : ℕ → Option ℕ → ℕ
or_setting d none = d
or_setting d (some n) = n

-- `effective_concurrency`; `threads` is SPIDER_THREAD_COUNT
unfoldable pub effective_concurrency : ℕ → Option ℕ → ℕ
effective_concurrency threads told = max (or_setting threads told) 1

-- `pool_limits`: the connections, and those that are kept alive
unfoldable pub pool_limits : ℕ → ℕ × ℕ
pool_limits concurrency = let n = max concurrency 1 in (max n 100, max n 20)

-- `shard_count`; `-(-n // per_shard)` rounds up
unfoldable pub shard_count : ℕ → ℕ → ℕ
shard_count concurrency zero = 1
shard_count concurrency (suc k) = max 1 ((max concurrency 1 + k) / suc k)

-- `check_size`, which raises where it answers false
unfoldable pub check_size : ℕ → ℕ → Bool
check_size limit size = not (ltb 0 limit && ltb limit size)

-- `read_capped` on chunks of bytes, from what is read so far; `int` is the declared length as a number
unfoldable pub read_chunks {ℓ} : {A : Type ℓ} → ℕ → List A → List (List A) → Outcome (List A)
read_chunks limit buf [] = returned buf
read_chunks limit buf (chunk ∷ chunks) =
    let rest = read_chunks limit (buf ++ chunk) chunks in
    if ltb limit (length (buf ++ chunk)) then raised else rest

abbrev pub exceeds : ℕ → Option ℕ → Bool
exceeds limit none = false
exceeds limit (some declared) = ltb limit declared

unfoldable pub join {ℓ} : {A : Type ℓ} → List (List A) → List A
join [] = []
join (chunk ∷ chunks) = chunk ++ join chunks

unfoldable pub read_capped {ℓ} : {A : Type ℓ} → ℕ → Option ℕ → List (List A) → Outcome (List A)
read_capped limit declared chunks =
    if leb limit 0
    then returned (join chunks)
    else if exceeds limit declared
    then raised
    else read_chunks limit [] chunks

-- `check_content_type`, on the type before ";", stripped and in lower case; `starts` is `str.startswith`
unfoldable pub check_content_type : (String → String → Bool) → List String → String → Bool
check_content_type starts allowed ctype =
    if leb (length allowed) 0
    then true
    else if ctype == ""
    then true
    else any (λ prefix. starts ctype prefix) allowed

-- `ProxyClientCache`: an OrderedDict, the oldest first
module _ {ℓ} {K : Type ℓ} {C : Type 0} ⦃e : Key K⦄ where
  -- `popitem(last=False)` while there are more than `limit`: what is left, and the evicted
  unfoldable pub evict : ℕ → Dict K C → Dict K C × List C
  evict limit [] = ([], [])
  evict limit (item ∷ items) =
      let (left, evicted) = evict limit items in
      if ltb limit (length (item ∷ items)) then (left, item.1 ∷ evicted) else (item ∷ items, [])

  -- the client, those that the caller has to close, and the cache; `client` is what the factory makes
  abbrev pub cached_or_new : K → C → ℕ → Option C → Dict K C → C × List C × Dict K C
  cached_or_new proxy client capacity (some old) items =
      (old, [], remove proxy items ++ (proxy, old) ∷ [])
  cached_or_new proxy client capacity none items =
      let (left, evicted) = evict (max capacity 1) (items ++ (proxy, client) ∷ []) in
      (client, evicted, left)

  unfoldable pub get_or_create : K → C → ℕ → Dict K C → C × List C × Dict K C
  get_or_create proxy client capacity items =
      cached_or_new proxy client capacity (lookup proxy items) items

  unfoldable pub drain : Dict K C → List C × Dict K C
  drain items = (map (λ item. item.1) items, [])
