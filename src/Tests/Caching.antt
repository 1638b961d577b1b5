-- ===== src/Tests/Caching.antt =====
-- Runs of the response cache.
use netspy.Base.{
  Bool-cases, ℕ, suc, ◌≡◌, refl, String, true, false, none, some, List, [], ◌∷◌, ◌⊎◌, inl, inr,
  if◌then◌else◌, ◌==◌, String_eq,
}
use netspy.Base.Dict.{lookup, has}
use netspy.Exceptions.{Exception, other}
use netspy.Request.{Request, init}
use netspy.Request.Examples.{get_request}
use netspy.Response.{Response, Stored, Texts, seen}
use netspy.Status.{classify}
use netspy.AntiBot.{
  Bytes, detect, looks_like_cloudflare, looks_like_akamai, looks_like_js_redirect, is_set,
}
use netspy.Cache.{Files, Json, Settings, is_cacheable, is_expired, is_ok_verdict, load, read_entry}
use netspy.Cache.Clean.{Clean, Clean-calls, Whole}
use netspy.Cache.Replayed.{Call, call, calls, download_request-replayed}

abbrev lower : String → String
lower s = if s == "Server" then "server" else s

abbrev texts : Texts (List ℕ)
texts = record { b64encode = λ c. c; b64decode = some; lower = lower }

abbrev json : Json (List ℕ) (Stored (List ℕ))
json = record { dumps = λ d. d; loads = some }

abbrev bytes : Bytes
bytes = record { lower = λ c. c; encode = λ m. []; has_text = λ c. false; js_redirect = λ c. false }

abbrev settings : Settings
settings = record {
  cache_enable = true;
  cache_expire = 1000;
  antibot_detect = true;
  policy = record {
    check_status_code = true;
    accept_status_codes = [];
    retry_status_codes = [];
    retry_after_max = 0;
    retry_backoff = 0;
    retry_interval = 0;
  };
}

abbrev page : Response
page = record {
  url = "http://a/";
  status_code = 200;
  content = 60 ∷ 62 ∷ [];
  headers = ("server", "x") ∷ [];
  cookies = [];
  request = none;
  forced_encoding = none;
  elapsed = none;
  history = [];
}

-- the site gives one page, and the network fails on the others; a download is counted
abbrev download : Request → ℕ → (Response ⊎ Exception) × ℕ
download q n = ((if q.url == "http://a/" then inl page else inr other), suc n)

abbrev first : Call
first = record { request = get_request "http://a/"; writes = true; now = 10; later = 20 }

abbrev elsewhere : Call
elsewhere = record { request = get_request "http://b/"; writes = true; now = 30; later = 40 }

abbrev again : Call
again = record { request = get_request "http://a/"; writes = true; now = 900; later = 950 }

abbrev no_files : Files (Stored (List ℕ))
no_files = []

download_request-replayed_example :
    let later =
      calls texts json (λ q. q.url) settings bytes download (first ∷ elsewhere ∷ []) no_files 0 in
    call texts json (λ q. q.url) settings bytes download again later.0 later.1
    ≡ (inl (record page { request = some (get_request "http://a/") }), later.0, later.1)
unfolding is_cacheable load read_entry lookup is_ok_verdict classify seen detect
    looks_like_cloudflare looks_like_akamai looks_like_js_redirect is_set is_expired has init
download_request-replayed_example =
    download_request-replayed texts json (λ q. q.url) settings (λ c. refl) (λ d. refl) bytes
      download first again (elsewhere ∷ []) page no_files 0 1
      (record { lower_names = (refl, tt); unique_names = (refl, tt) }) refl refl refl refl refl refl
      refl (refl, (refl, tt)) refl refl

abbrev challenge : Response
challenge = record page { headers = ("cf-mitigated", "challenge") ∷ [] }

-- the same site behind a challenge, but for one page
abbrev guarded : Request → ℕ → (Response ⊎ Exception) × ℕ
guarded q n = ((if q.url == "http://a/" then inl page else inl challenge), suc n)

guarded-Whole : (q : Request) (n : ℕ) → Whole lower (guarded q n).0
unfolding has
guarded-Whole q n = elim (Bool-cases (q.url == "http://a/")) [
  | inl e ↦ rw e (record { lower_names = (refl, tt); unique_names = (refl, tt) })
  | inr e ↦ rw e (record { lower_names = (refl, tt); unique_names = (refl, tt) })
]

Clean-calls_example :
    Clean texts json settings bytes
      (calls texts json (λ q. q.url) settings bytes guarded (first ∷ elsewhere ∷ []) no_files 0).0
Clean-calls_example =
    Clean-calls texts json settings bytes (λ q. q.url) (λ c. refl) (λ d. refl) guarded guarded-Whole
      (first ∷ elsewhere ∷ []) no_files 0 refl tt
