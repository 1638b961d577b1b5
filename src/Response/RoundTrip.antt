-- ===== src/Response/RoundTrip.antt =====
-- A response that is stored and read back.
use netspy.Base.{
  ℕ, String, ◌≡◌, refl, sym, ◌∙◌, false, none, some, List, [], ◌∷◌, ◌++◌, append-nil, append_assoc,
  arith, All, ◌==◌, ==_iff, String_eq, Bool-cases, inl, inr, subst, ==_sound,
}
use netspy.Base.Dict.{Dict, has, insert, Unique}
use netspy.Response.{
  Response, Texts, init, or_empty, add_lower, to_dict, from_dict, body, Arguments,
}

-- What the constructor establishes: the names of the headers are in lower case and stand once.
pub record IsWellFormed (lower : String → String) (r : Response) : Type 0 where
  pub lower_names : All (λ e. lower e.0 ≡ e.0) r.headers
  pub unique_names : Unique r.headers

insert-new :
    (k v : String) (d : Dict String String) → has k d ≡ false → insert k v d ≡ d ++ (k, v) ∷ []
unfolding insert has
insert-new k v [] h = refl
insert-new k v ((j, w) ∷ d) h = ground (arith, h, insert-new k v d)

has-append :
    (k j v : String) (d : Dict String String)
    → has k d ≡ false
    → (j == k) ≡ false
    → has k (d ++ (j, v) ∷ []) ≡ false
unfolding has
has-append k j v [] h n = ground (arith, n)
has-append k j v ((i, w) ∷ d) h n = ground (arith, h, n, has-append k j v d)

abbrev Fresh : Dict String String → Dict String String → Type 0
Fresh d = All (λ e. has e.0 d ≡ false)

Fresh-append :
    (k v : String) (d rest : Dict String String)
    → has k rest ≡ false
    → Fresh d rest
    → Fresh (d ++ (k, v) ∷ []) rest
unfolding has
Fresh-append k v d [] h f = tt
Fresh-append k v d ((i, w) ∷ rest) h f = (
  has-append i k v d f.0 (ground (arith, h, ==_iff i k, ==_iff k i)),
  Fresh-append k v d rest (ground (arith, h)) f.1,
)

add_lower-kept :
    (lower : String → String) (rest d : Dict String String)
    → All (λ e. lower e.0 ≡ e.0) rest
    → Unique rest
    → Fresh d rest
    → add_lower lower rest d ≡ d ++ rest
unfolding add_lower
add_lower-kept lower [] d l u f = sym (append-nil d)
add_lower-kept lower ((k, v) ∷ rest) d l u f =
    rw (l.0, insert-new k v d f.0)
      (add_lower-kept lower rest (d ++ (k, v) ∷ []) l.1 u.1 (Fresh-append k v d rest u.0 f.1)
        ∙ append_assoc d ((k, v) ∷ []) rest)

Fresh-nil : (rest : Dict String String) → Fresh [] rest
unfolding has
Fresh-nil [] = tt
Fresh-nil (e ∷ rest) = (refl, Fresh-nil rest)

has-insert :
    (i k v : String) (d : Dict String String)
    → (k == i) ≡ false
    → has i d ≡ false
    → has i (insert k v d) ≡ false
unfolding has insert
has-insert i k v [] n h = ground (arith, n)
has-insert i k v ((j, w) ∷ d) n h = ground (arith, n, h, has-insert i k v d)

Unique-insert : (k v : String) (d : Dict String String) → Unique d → Unique (insert k v d)
unfolding insert has
Unique-insert k v [] u = (refl, tt)
Unique-insert k v ((j, w) ∷ d) u = elim (Bool-cases (j == k)) [
  | inl e ↦ rw e (subst (λ i. has i d ≡ false) (==_sound j k e) u.0, u.1)
  | inr e ↦
      rw e (
        has-insert j k v d (ground (arith, e, ==_iff j k, ==_iff k j)) u.0,
        Unique-insert k v d u.1,
      )
]

lower_names-insert :
    (lower : String → String) (k v : String) (d : Dict String String)
    → lower k ≡ k
    → All (λ e. lower e.0 ≡ e.0) d
    → All (λ e. lower e.0 ≡ e.0) (insert k v d)
unfolding insert
lower_names-insert lower k v [] l a = (l, tt)
lower_names-insert lower k v ((j, w) ∷ d) l a = elim (Bool-cases (j == k)) [
  | inl e ↦ rw e (l, a.1)
  | inr e ↦ rw e (a.0, lower_names-insert lower k v d l a.1)
]

module _ (lower : String → String) (idem : (s : String) → lower (lower s) ≡ lower s) where
  Unique-add_lower : (rest d : Dict String String) → Unique d → Unique (add_lower lower rest d)
  unfolding add_lower
  Unique-add_lower [] d u = u
  Unique-add_lower ((k, v) ∷ rest) d u =
      Unique-add_lower rest (insert (lower k) v d) (Unique-insert (lower k) v d u)

  lower_names-add_lower :
      (rest d : Dict String String)
      → All (λ e. lower e.0 ≡ e.0) d
      → All (λ e. lower e.0 ≡ e.0) (add_lower lower rest d)
  unfolding add_lower
  lower_names-add_lower [] d a = a
  lower_names-add_lower ((k, v) ∷ rest) d a =
      lower_names-add_lower rest (insert (lower k) v d)
        (lower_names-insert lower (lower k) v d (idem k) a)

  -- The constructor establishes it, where `str.lower` changes nothing the second time.
  pub init-IsWellFormed : (a : Arguments) → IsWellFormed lower (init lower a)
  unfolding init
  init-IsWellFormed a = record {
    lower_names = lower_names-add_lower (or_empty a.headers) [] tt;
    unique_names = Unique-add_lower (or_empty a.headers) [] tt;
  }

module _ {S : Type 0} (x : Texts S) (law : (c : List ℕ) → x.b64decode (x.b64encode c) ≡ some c)
    (r : Response) (w : IsWellFormed x.lower r) where
  -- Where base64 reads back what it writes, a response whose header names are in lower case and stand once is read back as it was, without its
  -- request.
  pub from_dict-to_dict : from_dict x (to_dict x r) ≡ some (record r { request = none })
  unfolding from_dict to_dict init or_empty body
  from_dict-to_dict =
      rw
        (
          law r.content,
          add_lower-kept x.lower r.headers [] w.lower_names w.unique_names (Fresh-nil r.headers),
        )
        refl
