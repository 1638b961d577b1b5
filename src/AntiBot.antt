-- ===== src/AntiBot.antt =====
-- network/antibot.py: the rules that tell a challenge page from a response. Bytes are natural numbers.
use netspy.Base.{
  ℕ, String, Bool, true, false, not, ◌&&◌, ◌||◌, Option, none, some, List, [], ◌∷◌, if◌then◌else◌,
  nat_eq, ltb, any, take, length, ◌==◌, String_eq,
}
use netspy.Base.Dict.{lookup}
use netspy.Response.{Response}

-- The standard library's `bytes.lower` and `str.encode`, and the searches of the two regular expressions.
pub record Bytes : Type 0 where
  pub lower : List ℕ → List ℕ
  pub encode : String → List ℕ
  pub has_text : List ℕ → Bool
  pub js_redirect : List ℕ → Bool

-- body.startswith(mark)
unfoldable pub begins : List ℕ → List ℕ → Bool
begins [] body = true
begins (b ∷ mark) [] = false
begins (b ∷ mark) (c ∷ body) = nat_eq b c && begins mark body

-- mark in body
unfoldable pub occurs : List ℕ → List ℕ → Bool
occurs mark [] = begins mark []
occurs mark (c ∷ body) = begins mark (c ∷ body) || occurs mark body

abbrev pub tiny_body : ℕ
tiny_body = 2048

abbrev pub cf_markers : List String
cf_markers = "__cf_chl_" ∷ "/cdn-cgi/challenge-platform/" ∷ "cf-browser-verification" ∷ []

abbrev pub akamai_markers : List String
akamai_markers = "_abck" ∷ "bm-verify" ∷ "/_sec/cp_challenge/" ∷ []

unfoldable pub is_set : Option String → Bool
is_set none = false
is_set (some value) = not (value == "")

module _ (x : Bytes) where
  -- `any(m.encode() in body for m in markers)`, on the start of the body in lower case
  unfoldable pub has_marker : List String → Response → Bool
  has_marker markers r =
      let start = x.lower (take tiny_body r.content) in any (λ m. occurs (x.encode m) start) markers

  unfoldable pub looks_like_cloudflare : Response → Bool
  looks_like_cloudflare r =
      if is_set (lookup "cf-mitigated" r.headers)
      then true
      else if not (any (λ c. nat_eq c r.status_code) (403 ∷ 503 ∷ 429 ∷ []))
      then false
      else has_marker cf_markers r

  unfoldable pub looks_like_akamai : Response → Bool
  looks_like_akamai r =
      if not (any (λ c. nat_eq c r.status_code) (403 ∷ 428 ∷ []))
      then false
      else has_marker akamai_markers r

  unfoldable pub looks_like_js_redirect : Response → Bool
  looks_like_js_redirect r =
      if not (nat_eq r.status_code 200) || ltb tiny_body (length r.content)
      then false
      else if x.has_text r.content
      then false
      else x.js_redirect r.content

  -- `detect`: the name of the first rule of `_RULES` that holds
  unfoldable pub detect : Response → Option String
  detect r =
      if looks_like_cloudflare r
      then some "cloudflare"
      else if looks_like_akamai r
      then some "akamai"
      else if looks_like_js_redirect r
      then some "js_redirect"
      else none
