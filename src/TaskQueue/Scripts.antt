-- ===== src/TaskQueue/Scripts.antt =====
-- The three Lua scripts of core/task_queue.py, over the two sorted sets of a queue. A script is
-- atomic. Deadlines are milliseconds (the code writes them in seconds with three decimals).
use netspy.Base.{ℕ, ◌+◌, ltb, String, List, [], ◌∷◌, if◌then◌else◌}
use netspy.Redis.Rows.{members}
use netspy.Redis.SortedSet.{SortedSets}

-- `{name}:z_requests` and `{name}:z_inflight`
pub record Tables (Z : Type 0) : Type 0 where
  pub queue : Z
  pub inflight : Z

module _ (S : SortedSets) where
  open S use {Z, zadd, zadd_xx_ch, zrem, zpopmin, zrange_by_score}

  -- `for i = 1, #out do redis.call('ZADD', inflight, ARGV[2], out[i]) end`
  unfoldable pub lease_all : ℕ → List String → Z → Z
  lease_all deadline [] z = z
  lease_all deadline (m ∷ ms) z = lease_all deadline ms (zadd deadline m z)

  -- _TAKE_LUA: `count` members from the front of the queue, leased until `deadline` if that is
  -- positive. Both shapes of the ZPOPMIN reply list the members with their scores.
  unfoldable pub take_script : ℕ → ℕ → Tables Z → List String × Tables Z
  take_script count deadline t =
      let (rows, rest) = zpopmin count t.queue in
      let out = members rows in
      (
        out,
        record t {
          queue = rest;
          inflight = if ltb 0 deadline then lease_all deadline out t.inflight else t.inflight;
        },
      )

  -- the loop of _RECLAIM_LUA: each member leaves the in-flight set and heads the queue
  unfoldable pub put_back : List String → Tables Z → Tables Z
  put_back [] t = t
  put_back (m ∷ ms) t =
      put_back ms (record t { inflight = zrem m t.inflight; queue = zadd 0 m t.queue })

  -- `#expired`
  unfoldable pub count_members : List String → ℕ
  count_members [] = 0
  count_members (m ∷ ms) = 1 + count_members ms

  -- _RECLAIM_LUA
  unfoldable pub reclaim_script : ℕ → ℕ → Tables Z → ℕ × Tables Z
  reclaim_script now limit t =
      let expired = zrange_by_score now limit t.inflight in
      (count_members expired, put_back expired t)

  -- _RENEW_LUA: only members that are present get the new deadline
  unfoldable pub renew_script : ℕ → List String → Z → ℕ × Z
  renew_script deadline [] z = (0, z)
  renew_script deadline (m ∷ ms) z =
      let (changed, z') = zadd_xx_ch deadline m z in
      let (renewed, z'') = renew_script deadline ms z' in (changed + renewed, z'')
