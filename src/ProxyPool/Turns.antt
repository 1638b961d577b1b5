-- ===== src/ProxyPool/Turns.antt =====
-- Which proxy `get_proxy` hands out.
use netspy.Base.{
  ℕ, ◌≡◌, refl, String, Bool, true, false, Option, none, some, List, [], ◌∷◌, ◌++◌, length, Outcome,
  returned, arith, if◌then◌else◌, ==_refl, String_eq, Bool-cases, inl, inr, ap, ◌∙◌,
}
use netspy.Base.Dict.{Dict, lookup}
use netspy.ProxyPool.{
  Settings, ApiProxyPool, is_cooling, contains, remove_first, drop, is_banned, look, take_or_drop,
  choose, take_turn,
}

-- no entry twice, as `_fetch` sees to
abbrev pub NoTwice : List String → Type 0
NoTwice [] = Unit {0}
NoTwice (q ∷ qs) = (contains q qs ≡ false) × NoTwice qs

-- The specification: the first entry that is not cooling.
unfoldable pub first_ready : ℕ → Dict String (Option ℕ) → List String → Option String
first_ready now bans [] = none
first_ready now bans (q ∷ qs) =
    let rest = first_ready now bans qs in if is_cooling now (lookup q bans) then rest else some q

remove_first-last :
    (q : String) (qs : List String) → contains q qs ≡ false → remove_first q (qs ++ q ∷ []) ≡ qs
unfolding remove_first contains
remove_first-last q [] h = ground (arith, ==_refl q)
remove_first-last q (r ∷ qs) h = ground (arith, h, remove_first-last q qs)

look_cooling :
    (now : ℕ) (q : String) (o : Option (Option ℕ)) (p : ApiProxyPool)
    → is_cooling now o ≡ true
    → look q now o p ≡ (true, p)
look_cooling now q none p h = cc
look_cooling now q (some o) p h = ground (arith, h)

look_ready :
    (now : ℕ) (q : String) (o : Option (Option ℕ)) (p : ApiProxyPool)
    → is_cooling now o ≡ false
    → (look q now o p).0 ≡ false
look_ready now q none p h = refl
look_ready now q (some o) p h = ground (arith, h)

is_banned_cooling :
    (now : ℕ) (q : String) (p : ApiProxyPool)
    → is_cooling now (lookup q p.banned) ≡ true
    → is_banned q now p ≡ (true, p)
unfolding is_banned
is_banned_cooling now q p h = look_cooling now q (lookup q p.banned) p h

is_banned_ready :
    (now : ℕ) (q : String) (p : ApiProxyPool)
    → is_cooling now (lookup q p.banned) ≡ false
    → (is_banned q now p).0 ≡ false
unfolding is_banned
is_banned_ready now q p h = look_ready now q (lookup q p.banned) p h

handed_out :
    (s : Settings) (again : ApiProxyPool → Outcome (Option String) × ApiProxyPool) (q : String)
    (r : Bool × ApiProxyPool)
    → r.0 ≡ false
    → (take_or_drop s again q r).0 ≡ returned (some q)
handed_out s again q (true, p) h = cc
handed_out s again q (false, p) h = refl

choose-first :
    (s : Settings) (now : ℕ) (qs : List String) (p : ApiProxyPool)
    → NoTwice qs
    → (choose s (λ n. now) (length qs) (record p { pool = qs })).0
      ≡ returned (first_ready now p.banned qs)
unfolding choose first_ready drop
choose-first s now [] p h = refl
choose-first s now (q ∷ qs) p h =
    let turned : ApiProxyPool = record p { pool = qs ++ q ∷ [] } in
    let again = choose s (λ (n : ℕ). now) (length qs) in
    elim (Bool-cases (is_cooling now (lookup q p.banned))) [
      | inl t ↦ rw t (
          ap (λ r. (take_or_drop s again q r).0) (is_banned_cooling now q turned t)
          ∙ ap (λ l. (again (record p { pool = l })).0) (remove_first-last q qs h.0)
          ∙ choose-first s now qs p h.1)
      | inr t ↦
          rw t (handed_out s again q (is_banned q now turned) (is_banned_ready now q turned t))
    ]

-- In a pool without an entry twice, at one clock reading: `get_proxy` raises nothing and takes the
-- first entry of the pool that is not cooling, and none only if all are.
pub take_turn-first :
    (s : Settings) (now : ℕ) (p : ApiProxyPool)
    → NoTwice p.pool
    → (take_turn s (λ n. now) p).0 ≡ returned (first_ready now p.banned p.pool)
unfolding take_turn
take_turn-first s now p h = choose-first s now p.pool p h
