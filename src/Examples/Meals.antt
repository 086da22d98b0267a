-- ===== src/Examples/Meals.antt =====
-- A meal service whose answers lead to the same code everywhere.
use school_meals.Base.{ℕ, suc, true, some, [], ◌==◌}
use school_meals.CString.{Bytes, bytes}
use school_meals.Neis.Web.{Web}
use school_meals.Examples.Data.{b10}

-- A pointer is a number; 0 is NULL.
abbrev web : Web
web = record {
  escape = λ s. s;
  perform_curl_request = λ url. some [];
  Json = ℕ;
  is_null = λ j. j == 0;
  json_tokener_parse = λ body. 1;
  get_ex = λ j key. some (suc j);
  is_array = λ j. true;
  array_length = λ j. 0;
  array_get_idx = λ j i. suc j;
  get_string = λ j. some b10;
}

abbrev title : Bytes
title = bytes "\n🍱 기간별 급식 메뉴\n\n"

abbrev june_20 : Bytes
june_20 = bytes "20240620"

abbrev june_21 : Bytes
june_21 = bytes "20240621"
