-- ===== src/Exceptions.antt =====
-- exceptions.py, as far as the program tells exceptions apart, and the response of network/response.py
-- as far as the policies read it.
use netspy.Base.{ℕ, String, Bool, true, false}
use netspy.Base.Dict.{Dict}

pub data Exception : Type 0 where
  request_error too_large antibot proxy_unavailable user_unavailable : Exception
  http_status : ℕ → Exception
  content_type_rejected validation not_retry spider_error other : Exception

-- isinstance(exc, RequestError)
unfoldable pub is_request_error : Exception → Bool
is_request_error request_error = true
is_request_error too_large = true
is_request_error antibot = true
is_request_error proxy_unavailable = true
is_request_error user_unavailable = true
is_request_error (http_status code) = true
is_request_error content_type_rejected = false
is_request_error validation = false
is_request_error not_retry = false
is_request_error spider_error = false
is_request_error other = false

pub record Response : Type 0 where
  pub status_code : ℕ
  pub url : String
  pub headers : Dict String String
