-- ===== src/Request/Codec.antt =====
-- `to_dict`, `from_dict` and `copy` of network/request.py. The dictionary is a record of optional
-- entries, an absent one being a key that the stored text does not have.
use netspy.Base.{
  ℕ, String, Bool, Option, none, some, List, [], ◌∷◌, ◌++◌, if◌then◌else◌, ◌||◌, any, ◌==◌,
  String_eq,
}
use netspy.Base.Dict.{Dict, has}
use mathlib.Core.Option
use netspy.Request.{Request, Callback, named, callable, Arguments, defaults, init}

-- The object of `to_dict`; `url` is read with no default.
pub record Stored : Type 0 where
  pub url : Option String
  pub method : Option String
  pub callback : Option (Option String)
  pub priority : Option ℕ
  pub retry_times : Option ℕ
  pub filter_repeat : Option Bool
  pub auto_request : Option Bool
  pub use_session : Option (Option Bool)
  pub random_user_agent : Option (Option Bool)
  pub impersonate : Option (Option String)
  pub render : Option Bool
  pub render_time : Option (Option ℕ)
  pub wait_for : Option (Option String)
  pub download_midware : Option (Option String)
  pub parser_name : Option (Option String)
  pub cb_kwargs : Option (Dict String String)
  pub requests_kwargs : Option (Dict String String)
  pub custom : Option (Dict String String)

unfoldable pub callback_name : Option Callback → Option String
callback_name none = none
callback_name (some (named s)) = some s
callback_name (some (callable f name)) = name

unfoldable pub to_dict : Request → Stored
to_dict r = record {
  url = some r.url;
  method = some r.method;
  callback = some (callback_name r.callback);
  priority = some r.priority;
  retry_times = some r.retry_times;
  filter_repeat = some r.filter_repeat;
  auto_request = some r.auto_request;
  use_session = some r.use_session;
  random_user_agent = some r.random_user_agent;
  impersonate = some r.impersonate;
  render = some r.render;
  render_time = some r.render_time;
  wait_for = some r.wait_for;
  download_midware = some r.download_midware;
  parser_name = some r.parser_name;
  cb_kwargs = some r.cb_kwargs;
  requests_kwargs = some r.requests_kwargs;
  custom = some r.custom;
}

abbrev or_default {ℓ} : {A : Type ℓ} → A → Option A → A
or_default d none = d
or_default d (some a) = a

abbrev pub as_callback : Option String → Option Callback
as_callback none = none
as_callback (some s) = some (named s)

-- The keyword arguments that the dictionary has, the constructor's defaults for the others.
unfoldable pub known : Stored → Arguments
known d = record {
  callback = as_callback (or_default none d.callback);
  priority = or_default defaults.priority d.priority;
  retry_times = or_default defaults.retry_times d.retry_times;
  filter_repeat = or_default defaults.filter_repeat d.filter_repeat;
  auto_request = or_default defaults.auto_request d.auto_request;
  use_session = or_default none d.use_session;
  random_user_agent = or_default none d.random_user_agent;
  impersonate = or_default none d.impersonate;
  render = or_default defaults.render d.render;
  render_time = or_default none d.render_time;
  wait_for = or_default none d.wait_for;
  render_script = none;
  download_midware = or_default none d.download_midware;
  parser_name = or_default none d.parser_name;
  cb_kwargs = or_default [] d.cb_kwargs;
}

-- Keyword names that the constructor takes itself: passing one twice is a TypeError.
abbrev reserved : List String
reserved =
    "self" ∷ "url" ∷ "method" ∷ "callback" ∷ "priority" ∷ "retry_times" ∷ "filter_repeat"
    ∷ "auto_request" ∷ "use_session" ∷ "random_user_agent" ∷ "impersonate" ∷ "render"
    ∷ "render_time" ∷ "wait_for" ∷ "render_script" ∷ "download_midware" ∷ "parser_name"
    ∷ "cb_kwargs" ∷ []

unfoldable pub is_reserved : String → Bool
is_reserved key = any (λ k. k == key) reserved

-- `cls(..., **requests_kwargs, **custom)` raises
unfoldable pub clash : Dict String String → Dict String String → Bool
clash http own = any (λ e. is_reserved e.0 || has e.0 own) http || any (λ e. is_reserved e.0) own

-- `if callable(self.callback): new.callback = self.callback`
abbrev pub kept_callback : Option Callback → Option Callback → Option Callback
kept_callback none other = other
kept_callback (some (named s)) other = other
kept_callback (some (callable f name)) other = some (callable f name)

unfoldable pub restore : Request → Request → Request
restore r new = record new {
  callback = kept_callback r.callback new.callback;
  render_script = r.render_script;
}

module _ (upper : String → String) where
  -- `none` is an exception: the KeyError of `data.pop("url")`, or a keyword given twice
  unfoldable pub from_dict : Stored → Option Request
  from_dict d = elim d.url [
    | none ↦ none
    | some url ↦
        let http = or_default [] d.requests_kwargs in
        let own = or_default [] d.custom in
        if clash http own
        then none
        else some (init upper url (or_default "GET" d.method) (known d) (http ++ own))
  ]

  -- Request.copy
  unfoldable pub copy : Request → Option Request
  copy r = Option.map (restore r) (from_dict (to_dict r))
