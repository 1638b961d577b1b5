-- ===== src/Request/RoundTrip.antt =====
-- What a request keeps when it is stored and read back, and when it is copied.
use netspy.Base.{
  eq_iff, String, ◌≡◌, refl, ap, true, false, Option, none, some, [], ◌∷◌, ◌++◌, arith, ◌||◌, any,
  All, String_eq,
}
use netspy.Base.Dict.{Dict, has}
use netspy.Request.{
  Request, Callback, named, callable, Arguments, init, http_part, custom_part, is_http_key,
}
use netspy.Request.Codec.{
  to_dict, from_dict, known, copy, restore, callback_name, clash, is_reserved, kept_callback,
  as_callback,
}

abbrev HttpOnly : Dict String String → Type 0
HttpOnly = All (λ e. is_http_key e.0 ≡ true)

abbrev CustomOnly : Dict String String → Type 0
CustomOnly = All (λ e. is_http_key e.0 ≡ false)

-- What the constructor establishes: the keyword arguments are split by `_HTTP_KEYS`, no name is
-- given twice, and the method is in upper case.
pub record IsWellFormed (upper : String → String) (r : Request) : Type 0 where
  pub http_only : HttpOnly r.requests_kwargs
  pub custom_only : CustomOnly r.custom
  pub no_clash : clash r.requests_kwargs r.custom ≡ false
  pub upper_method : upper r.method ≡ r.method

http_part-append :
    (xs ys : Dict String String) → HttpOnly xs → CustomOnly ys → http_part (xs ++ ys) ≡ xs
unfolding http_part
http_part-append [] [] hx hy = refl
http_part-append [] ((k, v) ∷ ys) hx hy = rw hy.0 (http_part-append [] ys hx hy.1)
http_part-append ((k, v) ∷ xs) ys hx hy = rw hx.0 (ap (◌∷◌ (k, v)) (http_part-append xs ys hx.1 hy))

custom_part-append :
    (xs ys : Dict String String) → HttpOnly xs → CustomOnly ys → custom_part (xs ++ ys) ≡ ys
unfolding custom_part
custom_part-append [] [] hx hy = refl
custom_part-append [] ((k, v) ∷ ys) hx hy =
    rw hy.0 (ap (◌∷◌ (k, v)) (custom_part-append [] ys hx hy.1))
custom_part-append ((k, v) ∷ xs) ys hx hy = rw hx.0 (custom_part-append xs ys hx.1 hy)

HttpOnly-http_part : (kw : Dict String String) → HttpOnly (http_part kw)
unfolding http_part
HttpOnly-http_part [] = tt
HttpOnly-http_part ((k, v) ∷ kw) = ground (arith, HttpOnly-http_part kw)

CustomOnly-custom_part : (kw : Dict String String) → CustomOnly (custom_part kw)
unfolding custom_part
CustomOnly-custom_part [] = tt
CustomOnly-custom_part ((k, v) ∷ kw) = ground (arith, CustomOnly-custom_part kw)

-- What is lost on the way: the lease token, the script object, and a callback's object.
abbrev pub stored_view : Request → Request
stored_view r = record r {
  callback = as_callback (callback_name r.callback);
  lease_token = none;
  render_script = none;
}

kept_callback_lem : (c : Option Callback) → kept_callback c (as_callback (callback_name c)) ≡ c
unfolding callback_name
kept_callback_lem none = refl
kept_callback_lem (some (named s)) = refl
kept_callback_lem (some (callable f name)) = refl

module _ (upper : String → String) (r : Request) (w : IsWellFormed upper r) where
  -- A well-formed request that is stored and read back keeps every field but the lease token and the
  -- render script, which are gone, and the callback, which is down to its name.
  pub from_dict-to_dict : from_dict upper (to_dict r) ≡ some (stored_view r)
  unfolding from_dict to_dict known init
  from_dict-to_dict = rw (
    w.no_clash,
    w.upper_method,
    http_part-append r.requests_kwargs r.custom w.http_only w.custom_only,
    custom_part-append r.requests_kwargs r.custom w.http_only w.custom_only,
  )

  -- A copy of a well-formed request is the request itself without its lease token.
  pub copy_lem : copy upper r ≡ some (record r { lease_token = none })
  unfolding copy restore
  copy_lem = rw from_dict-to_dict (
      ap (λ c. some (record r { lease_token = none; callback = c })) (kept_callback_lem r.callback))

has-custom_part :
    (k : String) (kw : Dict String String) → is_http_key k ≡ true → has k (custom_part kw) ≡ false
unfolding custom_part has
has-custom_part k [] h = refl
has-custom_part k ((j, v) ∷ kw) h = ground (arith, has-custom_part k kw, eq_iff j k)

any_http :
    (own kw : Dict String String)
    → any (λ e. is_reserved e.0) kw ≡ false
    → any (λ e. is_reserved e.0 || has e.0 (custom_part own)) (http_part kw) ≡ false
unfolding http_part
any_http own [] h = refl
any_http own ((k, v) ∷ kw) h = ground (arith, any_http own kw, has-custom_part k own)

any_custom :
    (kw : Dict String String)
    → any (λ e. is_reserved e.0) kw ≡ false
    → any (λ e. is_reserved e.0) (custom_part kw) ≡ false
unfolding custom_part
any_custom [] h = refl
any_custom ((k, v) ∷ kw) h = ground (arith, any_custom kw)

clash-parts :
    (kw : Dict String String)
    → any (λ e. is_reserved e.0) kw ≡ false
    → clash (http_part kw) (custom_part kw) ≡ false
unfolding clash
clash-parts kw h = ground (arith, any_http kw kw h, any_custom kw h)

-- Every request that the constructor makes, from keyword arguments that are none of its own names,
-- is well formed, `upper` being idempotent.
pub init-IsWellFormed :
    (upper : String → String) (url method : String) (a : Arguments) (kw : Dict String String)
    → upper (upper method) ≡ upper method
    → any (λ e. is_reserved e.0) kw ≡ false
    → IsWellFormed upper (init upper url method a kw)
unfolding init
init-IsWellFormed upper url method a kw idempotent h = record {
  http_only = HttpOnly-http_part kw;
  custom_only = CustomOnly-custom_part kw;
  no_clash = clash-parts kw h;
  upper_method = idempotent;
}
