-- ===== src/Request.antt =====
-- network/request.py: a request, its constructor's split of the keyword arguments, and the
-- dictionary that the queue stores. A value of a dictionary is its JSON text; priorities and
-- `render_time` (milliseconds) are natural numbers. `callback` is the name of a parser's method or a
-- function object, which only its name survives; `render_script` is an object that is never stored.
pub mod Codec
pub mod RoundTrip
pub mod Examples
use netspy.Base.{
  ℕ, suc, String, ◌≡◌, Bool, true, false, Option, none, some, List, [], ◌∷◌, if◌then◌else◌, ◌==◌,
  String_eq, any,
}
use netspy.Base.Dict.{Dict}

pub data Callback : Type 0 where
  named : String → Callback
  -- a callable object, and its `__name__` if that is a text
  callable : ℕ → Option String → Callback

pub record Request : Type 0 where
  pub url : String
  pub method : String
  pub callback : Option Callback
  -- the payload under which the task was leased
  pub lease_token : Option String
  pub priority : ℕ
  pub retry_times : ℕ
  pub filter_repeat : Bool
  pub auto_request : Bool
  pub use_session : Option Bool
  pub random_user_agent : Option Bool
  pub impersonate : Option String
  pub render : Bool
  pub render_time : Option ℕ
  pub wait_for : Option String
  pub render_script : Option ℕ
  pub download_midware : Option String
  pub parser_name : Option String
  pub cb_kwargs : Dict String String
  pub requests_kwargs : Dict String String
  pub custom : Dict String String

abbrev pub http_keys : List String
http_keys =
    "params" ∷ "headers" ∷ "cookies" ∷ "data" ∷ "json" ∷ "content" ∷ "files" ∷ "auth" ∷ "timeout"
    ∷ "follow_redirects" ∷ "allow_redirects" ∷ "verify" ∷ "proxy" ∷ "proxies" ∷ "cert" ∷ []

unfoldable pub is_http_key : String → Bool
is_http_key key = any (λ k. k == key) http_keys

-- `**kwargs`, in the caller's order: the part for the HTTP client, and the rest
unfoldable pub http_part : Dict String String → Dict String String
http_part [] = []
http_part ((key, value) ∷ rest) =
    let tail = http_part rest in if is_http_key key then (key, value) ∷ tail else tail

unfoldable pub custom_part : Dict String String → Dict String String
custom_part [] = []
custom_part ((key, value) ∷ rest) =
    let tail = custom_part rest in if is_http_key key then tail else (key, value) ∷ tail

-- The named arguments of the constructor after `url` and `method`, each with its default.
pub record Arguments : Type 0 where
  pub callback : Option Callback
  pub priority : ℕ
  pub retry_times : ℕ
  pub filter_repeat : Bool
  pub auto_request : Bool
  pub use_session : Option Bool
  pub random_user_agent : Option Bool
  pub impersonate : Option String
  pub render : Bool
  pub render_time : Option ℕ
  pub wait_for : Option String
  pub render_script : Option ℕ
  pub download_midware : Option String
  pub parser_name : Option String
  pub cb_kwargs : Dict String String

abbrev pub defaults : Arguments
defaults = record {
  callback = none;
  priority = 300;
  retry_times = 0;
  filter_repeat = true;
  auto_request = true;
  use_session = none;
  random_user_agent = none;
  impersonate = none;
  render = false;
  render_time = none;
  wait_for = none;
  render_script = none;
  download_midware = none;
  parser_name = none;
  cb_kwargs = [];
}

-- Request.__init__; `upper` is `str.upper`
unfoldable pub init : (String → String) → String → String → Arguments → Dict String String → Request
init upper url method a kwargs = record {
  url = url;
  method = upper method;
  callback = a.callback;
  lease_token = none;
  priority = a.priority;
  retry_times = a.retry_times;
  filter_repeat = a.filter_repeat;
  auto_request = a.auto_request;
  use_session = a.use_session;
  random_user_agent = a.random_user_agent;
  impersonate = a.impersonate;
  render = a.render;
  render_time = a.render_time;
  wait_for = a.wait_for;
  render_script = a.render_script;
  download_midware = a.download_midware;
  parser_name = a.parser_name;
  cb_kwargs = a.cb_kwargs;
  requests_kwargs = http_part kwargs;
  custom = custom_part kwargs;
}
