-- ===== src/TaskQueue/Keys.antt =====
-- What the scripts of core/task_queue.py leave under each member of the two sorted sets.
use netspy.Base.{
  ℕ, String, ◌≡◌, refl, Option, none, some, List, [], ◌∷◌, arith, if◌then◌else◌, ◌==◌, ==_iff,
  String_eq,
}
use netspy.Base.Dict.{lookup, has-lookup}
use netspy.Redis.Rows.{contains}
use netspy.Redis.SortedSet.{SortedSets}
use netspy.TaskQueue.Scripts.{Tables, lease_all, put_back, renew_script}

module _ (S : SortedSets) where
  open S use {
    Z, rows, zadd, zrem, zpopmin, lookup-zadd, lookup-zrem, lookup-zadd_xx, zpopmin_popped,
    zpopmin_left, zrange_lem, Distinct-rows,
  }

  -- The deadline or score under a member.
  unfoldable pub score : String → Z → Option ℕ
  score m z = lookup m (rows z)

  pub score-zadd :
      (s : ℕ) (m j : String) (z : Z) → score j (zadd s m z) ≡ (if m == j then some s else score j z)
  unfolding score
  score-zadd s m j z = lookup-zadd s m j z

  pub score-zrem :
      (m j : String) (z : Z) → score j (zrem m z) ≡ (if m == j then none else score j z)
  unfolding score
  score-zrem m j z = lookup-zrem m j z

  pub score-lease_all :
      (deadline : ℕ) (ms : List String) (z : Z) (j : String)
      → score j (lease_all S deadline ms z) ≡ (if contains j ms then some deadline else score j z)
  unfolding lease_all contains
  score-lease_all deadline [] z j = refl
  score-lease_all deadline (m ∷ ms) z j =
      ground (arith, score-lease_all deadline ms (zadd deadline m z) j, score-zadd deadline m j z)

  pub inflight-put_back :
      (ms : List String) (t : Tables Z) (j : String)
      → score j (put_back S ms t).inflight ≡ (if contains j ms then none else score j t.inflight)
  unfolding put_back contains
  inflight-put_back [] t j = refl
  inflight-put_back (m ∷ ms) t j = ground (
    arith,
    inflight-put_back ms (record t { inflight = zrem m t.inflight; queue = zadd 0 m t.queue }) j,
    score-zrem m j t.inflight,
  )

  pub queue-put_back :
      (ms : List String) (t : Tables Z) (j : String)
      → score j (put_back S ms t).queue ≡ (if contains j ms then some 0 else score j t.queue)
  unfolding put_back contains
  queue-put_back [] t j = refl
  queue-put_back (m ∷ ms) t j = ground (
    arith,
    queue-put_back ms (record t { inflight = zrem m t.inflight; queue = zadd 0 m t.queue }) j,
    score-zadd 0 m j t.queue,
  )

  score-zadd_xx :
      (s : ℕ) (m j : String) (z : Z)
      → score j (S.zadd_xx_ch s m z).1
        ≡ (elim (score j z) [ none ↦ none | some d ↦ if m == j then some s else some d ])
  unfolding score
  score-zadd_xx s m j z = ground (arith, lookup-zadd_xx s m j z, has-lookup m (rows z), ==_iff m j)

  pub score-renew_script :
      (deadline : ℕ) (ms : List String) (z : Z) (j : String)
      → score j (renew_script S deadline ms z).1 ≡ (elim (score j z) [
        | none ↦ none
        | some d ↦ if contains j ms then some deadline else some d
      ])
  unfolding renew_script contains
  score-renew_script deadline [] z j = ground arith
  score-renew_script deadline (m ∷ ms) z j = ground (
    arith,
    score-renew_script deadline ms (S.zadd_xx_ch deadline m z).1 j,
    score-zadd_xx deadline m j z,
  )
