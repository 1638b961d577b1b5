-- ===== src/Downloader/Shards.antt =====
-- How many connection pools a proxy gets.
use netspy.Base.{ℕ, zero, suc, ◌+◌, ◌-◌, ◌*◌, ◌/◌, ◌≤◌, ◌<◌, max, arith}
use native.Mathlib.Nat.{div-mul-le_self, lt-div-mul-add}
use netspy.Downloader.{shard_count}

shard_bounds :
    (n k q : ℕ)
    → 1 ≤ n
    → q * suc k ≤ n + k
    → n + k < q * suc k + suc k
    → (n ≤ max 1 q * suc k) × ((max 1 q - 1) * suc k < n)
shard_bounds n k zero h l u = (omega (arith, u), omega (arith, h))
shard_bounds n k (suc q) h l u = (grind (arith, u), grind (arith, l))

-- With a positive SESSION_SHARD_THREADS, the pools are enough for the threads, that many to each at most, and one
-- pool fewer would not be.
pub shard_count-bounds :
    (concurrency per_shard : ℕ)
    → 0 < per_shard
    → (max concurrency 1 ≤ shard_count concurrency per_shard * per_shard)
      × ((shard_count concurrency per_shard - 1) * per_shard < max concurrency 1)
unfolding shard_count
shard_count-bounds concurrency (suc k) h =
    let n = max concurrency 1 in
    let q = (n + k) / suc k in
    shard_bounds n k q (omega arith) (div-mul-le_self (n + k) (suc k))
      (lt-div-mul-add (omega arith))
shard_count-bounds concurrency zero h = absurd (omega arith)
