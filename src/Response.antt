-- ===== src/Response.antt =====
-- network/response.py: what a download gives, its constructor, and the dictionary in which it is stored. A
-- body is the list of its bytes, `S` the type of base64 texts. Decoding to text and the selectors are calls
-- of libraries and left out; so are the constructors from the HTTP clients' objects.
pub mod RoundTrip
use netspy.Base.{ℕ, String, Option, none, some, List, [], ◌∷◌, Bool, ◌&&◌, leb, ltb, String_eq}
use netspy.Base.Dict.{Dict, insert}
use netspy.Request.{Request}
use netspy.Exceptions

pub record Response : Type 0 where
  pub url : String
  pub status_code : ℕ
  pub content : List ℕ
  pub headers : Dict String String
  pub cookies : Dict String String
  pub request : Option Request
  pub forced_encoding : Option String
  pub elapsed : Option ℕ
  pub history : List String

-- the keyword arguments of the constructor
pub record Arguments : Type 0 where
  pub url : String
  pub status_code : ℕ
  pub content : List ℕ
  pub headers : Option (Dict String String)
  pub cookies : Option (Dict String String)
  pub request : Option Request
  pub encoding : Option String
  pub elapsed : Option ℕ
  pub history : Option (List String)

infixl 20 ◌>>=◌
-- the rest of the code, which an exception of the first part leaves
abbrev pub ◌>>=◌ {ℓ κ} : {A : Type ℓ} {B : Type κ} → Option A → (A → Option B) → Option B
none >>= next = none
some a >>= next = next a

-- `xs or []`, `xs or {}`
unfoldable pub or_empty {ℓ} : {A : Type ℓ} → Option (List A) → List A
or_empty none = []
or_empty (some xs) = xs

-- `{k.lower(): v for k, v in ...}`, after what is there
unfoldable pub add_lower :
    (String → String) → Dict String String → Dict String String → Dict String String
add_lower lower [] d = d
add_lower lower ((k, v) ∷ rest) d = add_lower lower rest (insert (lower k) v d)

unfoldable pub init : (String → String) → Arguments → Response
init lower a = record {
  url = a.url;
  status_code = a.status_code;
  content = a.content;
  headers = add_lower lower (or_empty a.headers) [];
  cookies = or_empty a.cookies;
  request = a.request;
  forced_encoding = a.encoding;
  elapsed = a.elapsed;
  history = or_empty a.history;
}

-- `ok`
unfoldable pub is_ok : Response → Bool
is_ok r = leb 200 r.status_code && ltb r.status_code 300

-- what the policies on status codes read
unfoldable pub seen : Response → netspy.Exceptions.Response
seen r = record { status_code = r.status_code; url = r.url; headers = r.headers }

-- The object of `to_dict`: `url` and `status_code` are read with no default.
pub record Stored (S : Type 0) : Type 0 where
  pub url : Option String
  pub status_code : Option ℕ
  pub headers : Option (Dict String String)
  pub cookies : Option (Dict String String)
  pub encoding : Option String
  pub elapsed : Option ℕ
  pub history : Option (List String)
  pub content_b64 : Option S

-- The standard library's base64, none where it raises, and `str.lower`.
pub record Texts (S : Type 0) : Type 0 where
  pub b64encode : List ℕ → S
  pub b64decode : S → Option (List ℕ)
  pub lower : String → String

module _ {S : Type 0} (x : Texts S) where
  unfoldable pub to_dict : Response → Stored S
  to_dict r = record {
    url = some r.url;
    status_code = some r.status_code;
    headers = some r.headers;
    cookies = some r.cookies;
    encoding = r.forced_encoding;
    elapsed = r.elapsed;
    history = some r.history;
    content_b64 = some (x.b64encode r.content);
  }

  -- the body; an absent one is the decoded empty text
  unfoldable pub body : Option S → Option (List ℕ)
  body none = some []
  body (some s) = x.b64decode s

  -- none where it raises
  unfoldable pub from_dict : Stored S → Option Response
  from_dict d = do
    url ← d.url
    status_code ← d.status_code
    content ← body d.content_b64
    some (
        init x.lower (record {
          url = url;
          status_code = status_code;
          content = content;
          headers = d.headers;
          cookies = d.cookies;
          request = none;
          encoding = d.encoding;
          elapsed = d.elapsed;
          history = d.history;
        }))
