-- ===== src/Alert/Spaced.antt =====
-- When an alert is sent again.
use netspy.Base.{
  ℕ, ◌+◌, ◌≤◌, ◌<◌, ◌≡◌, refl, String, Bool, true, false, Option, none, some, List, [], ◌∷◌, arith,
  if◌then◌else◌, leb, ◌==◌, ==_refl, ==_sound, String_eq, All, Bool-cases, inl, inr, sym, subst,
}
use netspy.Base.Dict.{lookup, lookup-insert}
use netspy.Alert.{AlertManager, fire, sent_lately}

-- the times at which an alert is sent, over calls of `_fire` for any alerts, each at its clock reading
unfoldable pub sent : ℕ → String → List (String × ℕ) → AlertManager → List ℕ
sent interval key [] m = []
sent interval key ((k, now) ∷ calls) m =
    let (goes, m') = fire interval k now m in
    let rest = sent interval key calls m' in
    if k == key then (if goes then now ∷ rest else rest) else rest

-- the alert was last sent at `t` or later
abbrev since : ℕ → Option ℕ → Bool
since t none = false
since t (some last) = leb t last

-- a call of `_fire` for the alert that is sent comes the interval later
due_later :
    (interval t now : ℕ) (o : Option ℕ)
    → 0 < interval
    → since t o ≡ true
    → sent_lately interval now o ≡ false
    → t + interval ≤ now
due_later interval t now none p h e = cc
due_later interval t now (some last) p h e = ground (arith, p, h, e)

-- The alert stays sent since `t`, and a call for it that is sent comes the interval after `t`.
since-fire :
    (interval t now : ℕ) (k key : String) (m : AlertManager) (o : Option ℕ)
    → 0 < interval
    → lookup k m.last_sent ≡ o
    → ((k == key) ≡ true → since t o ≡ true)
    → since t (lookup key m.last_sent) ≡ true
    → (since t (lookup key (fire interval k now m).1.last_sent) ≡ true)
      × ((k == key) ≡ true → (fire interval k now m).0 ≡ true → t + interval ≤ now)
unfolding fire
since-fire interval t now k key m o p l own h = elim (Bool-cases (sent_lately interval now o)) [
  | inl e ↦ rw (l, e) (h, λ i f. cc)
  | inr e ↦
      rw (l, e)
        (
          ground (
            arith,
            p,
            h,
            own,
            e,
            due_later interval t now o,
            lookup-insert k key now m.last_sent,
          ),
          λ i f. due_later interval t now o p (own i) e,
        )
]

spaced_call :
    (interval t : ℕ) (key k : String) (now : ℕ) (goes : Bool) (rest : List ℕ)
    → ((k == key) ≡ true → goes ≡ true → t + interval ≤ now)
    → All (λ u. t + interval ≤ u) rest
    → All (λ u. t + interval ≤ u) (if k == key then (if goes then now ∷ rest else rest) else rest)
spaced_call interval t key k now false rest f r = elim (Bool-cases (k == key)) [
  | inl e ↦ rw e r
  | inr e ↦ rw e r
]
spaced_call interval t key k now true rest f r = elim (Bool-cases (k == key)) [
  | inl e ↦ rw e (f e refl, r)
  | inr e ↦ rw e r
]

fired :
    (interval t : ℕ) (key : String) (m : AlertManager)
    → (fire interval key t m).0 ≡ true
    → since t (lookup key (fire interval key t m).1.last_sent) ≡ true
unfolding fire
fired interval t key m h = elim (Bool-cases (sent_lately interval t (lookup key m.last_sent))) [
  | inl e ↦ cc (rw e at h)
  | inr e ↦ rw e (ground (arith, lookup-insert key key t m.last_sent, ==_refl key))
]

spaced :
    (interval t : ℕ) (key : String) (calls : List (String × ℕ)) (m : AlertManager)
    → 0 < interval
    → since t (lookup key m.last_sent) ≡ true
    → All (λ u. t + interval ≤ u) (sent interval key calls m)
unfolding sent
spaced interval t key [] m p h = tt
spaced interval t key ((k, now) ∷ calls) m p h =
    let own : (k == key) ≡ true → since t (lookup k m.last_sent) ≡ true =
      λ i. subst (λ j. since t (lookup j m.last_sent) ≡ true) (sym (==_sound k key i)) h in
    let now_ = since-fire interval t now k key m (lookup k m.last_sent) p refl own h in
    spaced_call interval t key k now (fire interval k now m).0
      (sent interval key calls (fire interval k now m).1) now_.1
      (spaced interval t key calls (fire interval k now m).1 p now_.0)

-- With a positive WARNING_INTERVAL: after an alert has been sent, it is sent again only the interval later or
-- after that, through any calls for this and other alerts.
pub sent-fire :
    (interval t : ℕ) (key : String) (calls : List (String × ℕ)) (m : AlertManager)
    → 0 < interval
    → (fire interval key t m).0 ≡ true
    → All (λ u. t + interval ≤ u) (sent interval key calls (fire interval key t m).1)
sent-fire interval t key calls m p h =
    spaced interval t key calls (fire interval key t m).1 p (fired interval t key m h)
