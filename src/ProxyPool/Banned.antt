-- ===== src/ProxyPool/Banned.antt =====
-- How long a reported proxy stays out of circulation, whatever calls come between.
use netspy.Base.{
  ℕ, zero, suc, ◌+◌, ◌≤◌, ◌<◌, ◌≡◌, refl, min, String, Bool, true, false, not, ◌||◌, ◌&&◌, Option,
  none, some, List, [], ◌∷◌, ◌++◌, select, Outcome, returned, raised, arith, if◌then◌else◌, leb,
  ◌==◌, ==_sound, sym, subst, ap, ◌∙◌, String_eq, All, Bool-cases, inl, inr,
}
use netspy.Base.Dict.{Dict, lookup, lookup-remove}
use netspy.ProxyPool.{
  Settings, ApiProxyPool, is_over, prune, is_banned, look, begin_fetch, refill, choose,
  take_or_drop, turn_at, take_turn, use_proxy, drop, report_good, report_bad, report_suspect, close,
  contains,
}

-- a ban that lasts until `x` at least
abbrev pub lasts : ℕ → Option (Option ℕ) → Bool
lasts x none = false
lasts x (some none) = true
lasts x (some (some until)) = leb x until

unfoldable pub is_out : ℕ → String → ApiProxyPool → Bool
is_out x k p = lasts x (lookup k p.banned)

-- whether the first ban reaches from `start` to `x`
unfoldable pub covers : Settings → ℕ → ℕ → Bool
covers s start x = leb s.ban_seconds 0 || leb x (start + min s.ban_seconds s.ban_max_seconds)

-- the locked sections, each with the clock's readings
pub data Call : Type 0 where
  turn : (ℕ → ℕ) → Call
  begins : Bool → ℕ → Call
  refills : ℕ → List String → Call
  good : String → Call
  bad : ℕ → String → Call
  suspect : ℕ → ℕ → String → Call
  closes : Call

unfoldable pub after : Settings → Call → ApiProxyPool → ApiProxyPool
after s (turn clock) p = (take_turn s clock p).1
after s (begins has_api now) p = (begin_fetch s has_api now p).1
after s (refills now proxies) p = refill now proxies p
after s (good proxy) p = report_good proxy p
after s (bad now proxy) p = report_bad s now proxy p
after s (suspect now then_ proxy) p = report_suspect s now then_ proxy p
after s closes p = close p

abbrev pub given : Outcome (Option String) → List String
given (returned (some proxy)) = proxy ∷ []
given (returned none) = []
given raised = []

abbrev pub answer : Settings → Call → ApiProxyPool → List String
answer s (turn clock) p = given (take_turn s clock p).0
answer s (begins has_api now) p = []
answer s (refills now proxies) p = []
answer s (good proxy) p = []
answer s (bad now proxy) p = []
answer s (suspect now then_ proxy) p = []
answer s closes p = []

-- the entries of the pool that the calls hand out
unfoldable pub handed : Settings → List Call → ApiProxyPool → List String
unfolding after
handed s [] p = []
handed s (c ∷ cs) p = answer s c p ++ handed s cs (after s c p)

-- Every reading lies from `lo` on and before `hi`.
abbrev pub Within : ℕ → ℕ → Call → Type 0
Within lo hi (turn clock) = (n : ℕ) → (lo ≤ clock n) × (clock n < hi)
Within lo hi (begins has_api now) = (lo ≤ now) × (now < hi)
Within lo hi (refills now proxies) = (lo ≤ now) × (now < hi)
Within lo hi (good proxy) = Unit {0}
Within lo hi (bad now proxy) = (lo ≤ now) × (now < hi)
Within lo hi (suspect now then_ proxy) = (lo ≤ then_) × (then_ < hi)
Within lo hi closes = Unit {0}

lasts-over : (x now : ℕ) (o : Option ℕ) → now < x → lasts x (some o) ≡ true → is_over now o ≡ false
lasts-over x now none h e = refl
lasts-over x now (some u) h e = ground (arith, h, e)

lookup-unexpired :
    (x now : ℕ) (k : String) (d : Dict String (Option ℕ))
    → now < x
    → lasts x (lookup k d) ≡ true
    → lasts x (lookup k (select (λ e. not (is_over now e.1)) d)) ≡ true
unfolding lookup
lookup-unexpired x now k [] h e = e
lookup-unexpired x now k ((j, none) ∷ d) h e = elim (Bool-cases (j == k)) [
  | inl t ↦ rw t refl
  | inr t ↦ ground (arith, t, e, lookup-unexpired x now k d h)
]
lookup-unexpired x now k ((j, some u) ∷ d) h e = elim (Bool-cases (j == k)) [
  | inl t ↦ ground (arith, t, e, h)
  | inr t ↦ ground (arith, t, e, lookup-unexpired x now k d h)
]

pub is_out-prune :
    (s : Settings) (x now : ℕ) (k : String) (p : ApiProxyPool)
    → now < x
    → is_out x k p ≡ true
    → is_out x k (prune s now p) ≡ true
unfolding is_out prune
is_out-prune s x now k p h e = lookup-unexpired x now k p.banned h e

out_is_over :
    (x now : ℕ) (k q : String) (o : Option ℕ) (p : ApiProxyPool)
    → now < x
    → lookup q p.banned ≡ some o
    → lasts x (lookup k p.banned) ≡ true
    → is_over now o ≡ true
    → (q == k) ≡ true
    → lasts x (lookup k (look q now (some o) p).1.banned) ≡ true
out_is_over x now k q o p h l e t m =
    let eq : q ≡ k = ==_sound q k m in
    let held : lasts x (some o) ≡ true =
      subst (λ v. lasts x v ≡ true) (ap (λ j. lookup j p.banned) (sym eq) ∙ l) e in
    cc (lasts-over x now o h held, t)

-- One look at an entry: the proxy that is out is seen to be, and stays out whichever is looked at.
is_out-look :
    (x now : ℕ) (k q : String) (o : Option (Option ℕ)) (p : ApiProxyPool)
    → now < x
    → lookup q p.banned ≡ o
    → is_out x k p ≡ true
    → is_out x k (look q now o p).1 ≡ true
unfolding is_out
is_out-look x now k q none p h l e = e
is_out-look x now k q (some o) p h l e = elim (Bool-cases (is_over now o)) [
  | inr t ↦ rw t e
  | inl t ↦ elim (Bool-cases (q == k)) [
    | inl m ↦ out_is_over x now k q o p h l e t m
    | inr m ↦ rw t (rw (lookup-remove q k p.banned) (rw m e))
  ]
]

is_out-is_banned :
    (x now : ℕ) (k q : String) (p : ApiProxyPool)
    → now < x
    → is_out x k p ≡ true
    → is_out x k (is_banned q now p).1 ≡ true
unfolding is_banned
is_out-is_banned x now k q p h e = is_out-look x now k q (lookup q p.banned) p h refl e

out_cools :
    (x now : ℕ) (o : Option (Option ℕ)) (k : String) (p : ApiProxyPool)
    → now < x
    → lasts x o ≡ true
    → (look k now o p).0 ≡ true
out_cools x now none k p h e = cc
out_cools x now (some o) k p h e = rw (lasts-over x now o h e) refl

is_banned_out :
    (x now : ℕ) (k q : String) (p : ApiProxyPool)
    → now < x
    → is_out x k p ≡ true
    → (q == k) ≡ true
    → (is_banned q now p).0 ≡ true
unfolding is_out is_banned
is_banned_out x now k q p h e m =
    out_cools x now (lookup q p.banned) q p h
      (subst (λ j. lasts x (lookup j p.banned) ≡ true) (sym (==_sound q k m)) e)

is_out-use_proxy :
    (s : Settings) (x : ℕ) (k q : String) (p : ApiProxyPool)
    → is_out x k (use_proxy s q p) ≡ is_out x k p
unfolding is_out use_proxy drop
is_out-use_proxy s x k q p = ground arith

pub is_out-drop : (x : ℕ) (k q : String) (p : ApiProxyPool) → is_out x k (drop q p) ≡ is_out x k p
unfolding is_out drop
is_out-drop x k q p = refl

pub is_out-same :
    (x : ℕ) (k : String) (p p' : ApiProxyPool) → p'.banned ≡ p.banned → is_out x k p' ≡ is_out x k p
unfolding is_out
is_out-same x k p p' e = ap (λ d. lasts x (lookup k d)) e

-- What one call gives: an answer without `k`, and a pool in which `k` is still out.
unfoldable pub OutAfter : ℕ → String → Outcome (Option String) × ApiProxyPool → Type 0
OutAfter x k r = All (λ q. (q == k) ≡ false) (given r.0) × (is_out x k r.1 ≡ true)

out_take_or_drop :
    (s : Settings) (x : ℕ) (k q : String)
    (again : ApiProxyPool → Outcome (Option String) × ApiProxyPool) (b : Bool) (p : ApiProxyPool)
    → ((p : ApiProxyPool) → is_out x k p ≡ true → OutAfter x k (again p))
    → is_out x k p ≡ true
    → ((q == k) ≡ true → b ≡ true)
    → OutAfter x k (take_or_drop s again q (b, p))
out_take_or_drop s x k q again true p f e m = f (drop q p) (is_out-drop x k q p ∙ e)
out_take_or_drop s x k q again false p f e m =
    unfold OutAfter in ((ground (arith, m), tt), is_out-use_proxy s x k q p ∙ e)

out_turn_at :
    (s : Settings) (x now : ℕ) (k : String)
    (again : ApiProxyPool → Outcome (Option String) × ApiProxyPool) (qs : List String)
    (p : ApiProxyPool)
    → ((p : ApiProxyPool) → is_out x k p ≡ true → OutAfter x k (again p))
    → now < x
    → is_out x k p ≡ true
    → OutAfter x k (turn_at s now again qs p)
out_turn_at s x now k again [] p f h e = unfold OutAfter in (tt, e)
out_turn_at s x now k again (q ∷ qs) p f h e =
    let p' : ApiProxyPool = record p { pool = qs ++ q ∷ [] } in
    out_take_or_drop s x k q again (is_banned q now p').0 (is_banned q now p').1 f
      (is_out-is_banned x now k q p' h (is_out-same x k p p' refl ∙ e))
      (is_banned_out x now k q p' h (is_out-same x k p p' refl ∙ e))

pub out_choose :
    (s : Settings) (x : ℕ) (k : String) (clock : ℕ → ℕ) (n : ℕ) (p : ApiProxyPool)
    → ((i : ℕ) → clock i < x)
    → is_out x k p ≡ true
    → OutAfter x k (choose s clock n p)
unfolding OutAfter choose
out_choose s x k clock zero p h e = (tt, e)
out_choose s x k clock (suc n) p h e =
    out_turn_at s x (clock n) k (choose s clock n) p.pool p (λ q. out_choose s x k clock n q h)
      (h n) e

is_out-append :
    (x : ℕ) (k q : String) (b : Bool) (p : ApiProxyPool)
    → is_out x k (if b then record p { pool = p.pool ++ q ∷ [] } else p) ≡ is_out x k p
unfolding is_out
is_out-append x k q true p = refl
is_out-append x k q false p = refl

pub is_out-refill :
    (x now : ℕ) (k : String) (qs : List String) (p : ApiProxyPool)
    → now < x
    → is_out x k p ≡ true
    → is_out x k (refill now qs p) ≡ true
unfolding refill
is_out-refill x now k [] p h e = e
is_out-refill x now k (q ∷ qs) p h e =
    let (cooling, p') = is_banned q now p in
    is_out-refill x now k qs _ h (
      is_out-append x k q (not cooling && not (contains q p'.pool)) p'
      ∙ is_out-is_banned x now k q p h e)
