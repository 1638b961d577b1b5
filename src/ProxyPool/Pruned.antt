-- ===== src/ProxyPool/Pruned.antt =====
-- What `_prune` forgets: bans and failures that count no more, and the use counts of proxies that are gone.
use netspy.Base.{
  ◌||◌, is_some, ℕ, ◌-◌, ◌≤◌, ◌<◌, ◌≡◌, refl, String, Bool, not, ◌&&◌, Option, none, some, select,
  arith, if◌then◌else◌, ltb, String_eq, sym, ap, ◌∙◌, subst,
}
use netspy.Base.Dict.{
  has, has-lookup, Dict, Unique, passing, or_else, lookup, lookup_or, lookup_or-lookup,
  lookup-select,
}
use netspy.ProxyPool.{
  contains, Settings, ApiProxyPool, is_over, is_stale, prune, is_banned, look, in_a_row,
}

-- no dictionary has a key twice, and no failure was at time 0
pub record IsPool (p : ApiProxyPool) : Type 0 where
  pub unique_bans : Unique p.banned
  pub unique_fails : Unique p.fails
  pub unique_suspects : Unique p.suspects
  pub unique_counts : Unique p.use_count

look_pruned :
    (now later : ℕ) (k : String) (o : Option (Option ℕ)) (p q : ApiProxyPool)
    → now ≤ later
    → (look k later (passing (λ e. not (is_over now e.1)) k o) q).0 ≡ (look k later o p).0
look_pruned now later k none p q h = refl
look_pruned now later k (some none) p q h = refl
look_pruned now later k (some (some u)) p q h = ground (arith, h)

-- the count behind `in_a_row`
abbrev counted : Settings → ℕ → ℕ × ℕ → ℕ
counted s now (n, last) = if ltb 0 last && ltb s.ban_max_seconds (now - last) then 0 else n

row_pruned :
    (s : Settings) (now later : ℕ) (k : String) (o : Option (ℕ × ℕ))
    → now ≤ later
    → 0 < (or_else (0, 1) o).1
    → counted s later (or_else (0, 0) (passing (λ e. not (is_stale s now e)) k o))
      ≡ counted s later (or_else (0, 0) o)
unfolding is_stale
row_pruned s now later k none h t = refl
row_pruned s now later k (some (n, last)) h t = ground (arith, h, t)

in_a_row-select :
    (s : Settings) (now later : ℕ) (k : String) (d : Dict String (ℕ × ℕ))
    → now ≤ later
    → Unique d
    → 0 < (lookup_or (0, 1) k d).1
    → in_a_row s later k (select (λ e. not (is_stale s now e)) d) ≡ in_a_row s later k d
unfolding in_a_row
in_a_row-select s now later k d h u t =
    let p : String × (ℕ × ℕ) → Bool = λ e. not (is_stale s now e) in
    ap (counted s later)
      (lookup_or-lookup (0, 0) k (select p d) ∙ ap (or_else (0, 0)) (lookup-select p k d u))
    ∙ row_pruned s now later k (lookup k d) h
        (subst (λ (e : ℕ × ℕ). 0 < e.1) (lookup_or-lookup (0, 1) k d) t)
    ∙ ap (counted s later) (sym (lookup_or-lookup (0, 0) k d))

is_banned-prune :
    (s : Settings) (now later : ℕ) (k : String) (p : ApiProxyPool)
    → now ≤ later
    → Unique p.banned
    → (is_banned k later (prune s now p)).0 ≡ (is_banned k later p).0
unfolding is_banned prune
is_banned-prune s now later k p h u =
    let keep : String × Option ℕ → Bool = λ e. not (is_over now e.1) in
    ap (λ o. (look k later o (prune s now p)).0) (lookup-select keep k p.banned u)
    ∙ look_pruned now later k (lookup k p.banned) p (prune s now p) h

cooling-passing :
    (now : ℕ) (k : String) (o : Option (Option ℕ)) (p : ApiProxyPool)
    → is_some (passing (λ e. not (is_over now e.1)) k o) ≡ (look k now o p).0
cooling-passing now k none p = refl
cooling-passing now k (some until) p = ground arith

has_cooling :
    (now : ℕ) (k : String) (p : ApiProxyPool)
    → Unique p.banned
    → has k (select (λ e. not (is_over now e.1)) p.banned) ≡ (is_banned k now p).0
unfolding is_banned
has_cooling now k p u =
    let keep : String × Option ℕ → Bool = λ e. not (is_over now e.1) in
    has-lookup k (select keep p.banned)
    ∙ ap is_some (lookup-select keep k p.banned u)
    ∙ cooling-passing now k (lookup k p.banned) p

count_passing :
    (test : String × ℕ → Bool) (k : String) (o : Option ℕ) (b : Bool)
    → ((n : ℕ) → test (k, n) ≡ b)
    → or_else 0 (passing test k o) ≡ (if b then or_else 0 o else 0)
count_passing test k none b h = ground arith
count_passing test k (some n) b h = ground (arith, h n)

use_count-prune :
    (s : Settings) (now : ℕ) (k : String) (p : ApiProxyPool)
    → Unique p.banned
    → Unique p.use_count
    → lookup_or 0 k (prune s now p).use_count
      ≡ (if contains k p.pool || (is_banned k now p).0 then lookup_or 0 k p.use_count else 0)
unfolding prune
use_count-prune s now k p ub uc =
    let cooling = select (λ (e : String × Option ℕ). not (is_over now e.1)) p.banned in
    let keep : String × ℕ → Bool = λ e. contains e.0 p.pool || has e.0 cooling in
    lookup_or-lookup 0 k (select keep p.use_count)
    ∙ ap (or_else 0) (lookup-select keep k p.use_count uc)
    ∙ count_passing keep k (lookup k p.use_count) (contains k p.pool || (is_banned k now p).0)
        (λ n. ap (λ b. contains k p.pool || b) (has_cooling now k p ub))
    ∙ ap (λ n. if contains k p.pool || (is_banned k now p).0 then n else 0)
        (sym (lookup_or-lookup 0 k p.use_count))

decisions-prune :
    (s : Settings) (now later : ℕ) (k : String) (p : ApiProxyPool)
    → now ≤ later
    → IsPool p
    → 0 < (lookup_or (0, 1) k p.fails).1
    → 0 < (lookup_or (0, 1) k p.suspects).1
    → ((is_banned k later (prune s now p)).0 ≡ (is_banned k later p).0)
      × (in_a_row s later k (prune s now p).fails ≡ in_a_row s later k p.fails)
      × (in_a_row s later k (prune s now p).suspects ≡ in_a_row s later k p.suspects)
unfolding prune
decisions-prune s now later k p h u tf ts = (
  is_banned-prune s now later k p h u.unique_bans,
  in_a_row-select s now later k p.fails h u.unique_fails tf,
  in_a_row-select s now later k p.suspects h u.unique_suspects ts,
)

-- In a pool whose dictionaries have no key twice, for a proxy whose last failures were not at time 0:
-- at any time from the pruning on, whether the proxy is banned, and how many failures and suspect
-- failures in a row a report counts for it, are the same with and without the pruning; and its use count is
-- kept if it is in the pool or cooling when the pool is pruned, and is 0 else.
pub prune_lem :
    (s : Settings) (now later : ℕ) (k : String) (p : ApiProxyPool)
    → now ≤ later
    → IsPool p
    → 0 < (lookup_or (0, 1) k p.fails).1
    → 0 < (lookup_or (0, 1) k p.suspects).1
    → ((is_banned k later (prune s now p)).0 ≡ (is_banned k later p).0)
      × (in_a_row s later k (prune s now p).fails ≡ in_a_row s later k p.fails)
      × (in_a_row s later k (prune s now p).suspects ≡ in_a_row s later k p.suspects)
      × (lookup_or 0 k (prune s now p).use_count
          ≡ (if contains k p.pool || (is_banned k now p).0 then lookup_or 0 k p.use_count else 0))
prune_lem s now later k p h u tf ts =
    let kept = decisions-prune s now later k p h u tf ts in
    (kept.0, kept.1, kept.2, use_count-prune s now k p u.unique_bans u.unique_counts)
