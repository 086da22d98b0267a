-- ===== src/Neis/Web.antt =====
-- What server/neis_api.c uses of libcurl and json-c. A value of `Json` is a pointer, NULL included.
use school_meals.Base.{ℕ, String, Bool, Option}
use school_meals.CString.{Bytes}

pub record Web : Type 1 where
  -- curl_easy_escape
  pub escape : Bytes → Bytes
  -- The whole body that WriteMemoryCallback collects, or `none` for an error of curl
  pub perform_curl_request : Bytes → Option Bytes
  pub Json : Type 0
  pub is_null : Json → Bool
  pub json_tokener_parse : Bytes → Json
  -- json_object_object_get_ex: `none` for false, as on NULL and on what is no object
  pub get_ex : Json → String → Option Json
  pub is_array : Json → Bool
  pub array_length : Json → ℕ
  -- json_object_array_get_idx: NULL past the end and on NULL
  pub array_get_idx : Json → ℕ → Json
  -- json_object_get_string: `none` for NULL
  pub get_string : Json → Option Bytes
