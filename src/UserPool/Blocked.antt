-- ===== src/UserPool/Blocked.antt =====
-- What the pools of one process hand out.
use netspy.Base.{
  ℕ, zero, suc, ◌+◌, ◌%◌, ◌<◌, ◌≡◌, refl, String, false, Option, none, some, length, get_elem?,
  Outcome, returned, raised, arith, ◌==◌, String_eq, Bool-cases, inl, inr, subst, ap, ==_sound,
}
use netspy.Base.Dict.{Dict, lookup_or, lookup_or-insert}
use netspy.UserPool.{
  User, LocalUserPool, Login, is_blocked, after_login, try_user, is_empty_dict, settle, turn_at,
  turns, get,
}

-- the end of a user's block
unfoldable pub block_end : String → LocalUserPool → ℕ
block_end name p = lookup_or 0 name p.blocked

-- What a call gives of a user whose block reaches beyond `now`: it is not handed out, and its block still reaches beyond `now`.
abbrev pub Kept : ℕ → String → Outcome (Option User) × LocalUserPool → Type 0
Kept now name (raised, p) = now < block_end name p
Kept now name (returned none, p) = now < block_end name p
Kept now name (returned (some u), p) = ((u.username == name) ≡ false) × (now < block_end name p)

unnamed :
    (now : ℕ) (name : String) (p : LocalUserPool) (user : User)
    → now < block_end name p
    → is_blocked now p user ≡ false
    → (user.username == name) ≡ false
unfolding is_blocked block_end
unnamed now name p user h b = elim (Bool-cases (user.username == name)) [
  | inr t ↦ t
  | inl t ↦
      absurd
        (ground (arith, h, b, ap (λ n. lookup_or 0 n p.blocked) (==_sound user.username name t)))
]

Kept-login :
    (now later i : ℕ) (name : String)
    (again : LocalUserPool → Outcome (Option User) × LocalUserPool) (user : User)
    (o : Option (Dict String String)) (p : LocalUserPool)
    → ((q : LocalUserPool) → now < block_end name q → Kept now name (again q))
    → (user.username == name) ≡ false
    → now < block_end name p
    → Kept now name (settle again (after_login later i user o p))
unfolding block_end
Kept-login now later i name again user (some cookies) p f u h = (u, h)
Kept-login now later i name again user none p f u h =
    f _ (ground (arith, u, h, lookup_or-insert 0 user.username name (later + 300000) p.blocked))

Kept-try :
    (login : Login) (now later i : ℕ) (name : String)
    (again : LocalUserPool → Outcome (Option User) × LocalUserPool) (user : User)
    (p : LocalUserPool)
    → ((q : LocalUserPool) → now < block_end name q → Kept now name (again q))
    → (user.username == name) ≡ false
    → now < block_end name p
    → Kept now name (settle again (try_user login later i user p))
Kept-try none now later i name again user p f u h = (u, h)
Kept-try (some login) now later i name again user p f u h =
    elim (Bool-cases (is_empty_dict user.cookies)) [
      | inl t ↦ rw t (Kept-login now later i name again user (login user) p f u h)
      | inr t ↦ rw t (u, h)
    ]

Kept-turn :
    (login : Login) (now later i : ℕ) (name : String)
    (again : LocalUserPool → Outcome (Option User) × LocalUserPool) (o : Option User)
    (p : LocalUserPool)
    → ((q : LocalUserPool) → now < block_end name q → Kept now name (again q))
    → now < block_end name p
    → Kept now name (turn_at login now later again i o p)
Kept-turn login now later i name again none p f h = h
Kept-turn login now later i name again (some user) p f h =
    elim (Bool-cases (is_blocked now p user)) [
      | inl t ↦ rw t (f p h)
      | inr t ↦
          rw t (Kept-try login now later i name again user p f (unnamed now name p user h t) h)
    ]

same_end :
    (name : String) (p q : LocalUserPool)
    → p.blocked ≡ q.blocked
    → block_end name p ≡ block_end name q
unfolding block_end
same_end name p q e = ap (λ d. lookup_or 0 name d) e

Kept-turns :
    (login : Login) (now later total n : ℕ) (name : String) (p : LocalUserPool)
    → now < block_end name p
    → Kept now name (turns login now later total n p)
unfolding turns
Kept-turns login now later total zero name p h = h
Kept-turns login now later total (suc n) name p h =
    let p' : LocalUserPool = record p { idx = p.idx + 1 } in
    Kept-turn login now later (p.idx % total) name (turns login now later total n)
      (get_elem? p.users (p.idx % total)) p' (Kept-turns login now later total n name)
      (subst (λ x. now < x) (same_end name p p' refl) h)

-- `get` hands out no user whose block runs beyond the time of the call, and that block still runs beyond it afterwards,
-- whatever users log in or fail to on the way.
pub get-Kept :
    (login : Login) (now later : ℕ) (name : String) (p : LocalUserPool)
    → now < block_end name p
    → Kept now name (get login now later p)
unfolding get
get-Kept login now later name p h =
    Kept-turns login now later (length p.users) (length p.users) name p h
