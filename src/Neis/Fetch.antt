-- ===== src/Neis/Fetch.antt =====
-- server/neis_api.c: the queries of the meal service, over libcurl and json-c.
pub mod Codes
use school_meals.Base.{Option, none, some, [], ◌∷◌, ◌++◌, ◌-◌, ◌>>=◌, ltb, if◌then◌else◌, length}
use school_meals.CString.{Bytes, bytes, printed, snprintf, strncpy, strncpy_raw}
use school_meals.Protocol.{max_meal_len}
use school_meals.Neis.{MealService, Lookup, missing, codes, unterminated}
use school_meals.Neis.Menu.{formatted_date, add_menu}
use school_meals.Neis.Period.{is_too_long, period_text}
use school_meals.Neis.Web.{Web}

abbrev neis_api_key : Bytes
neis_api_key = bytes "53ea0d0873e048e188a0b13834667795"

abbrev neis_api_url : Bytes
neis_api_url = bytes "https://open.neis.go.kr/hub/mealServiceDietInfo"

module _ (web : Web) where
  open web use {
    Json, escape, perform_curl_request, is_null, json_tokener_parse, get_ex, is_array,
    array_get_idx, get_string,
  }

  -- A pointer that is not NULL
  abbrev non_null : Json → Option Json
  non_null j = if is_null j then none else some j

  abbrev array_only : Json → Option Json
  array_only j = if is_array j then some j else none

  -- encoded_school[256] is not zeroed: 255 bytes or more of it leave no terminator.
  abbrev pub school_url : Bytes → Option Bytes
  school_url school_name = do
    encoded_school ← strncpy_raw 255 (escape school_name)
    some (
        snprintf 1024 (
          printed (
            bytes "https://open.neis.go.kr/hub/schoolInfo?KEY="
            ∷ neis_api_key
            ∷ bytes "&Type=json&SCHUL_NM="
            ∷ encoded_school
            ∷ [])))

  -- The row of schoolInfo[1], where the answer has it
  unfoldable pub school_row : Bytes → Option Json
  school_row url = do
    body ← perform_curl_request url
    json ← non_null (json_tokener_parse body)
    school_info ← get_ex json "schoolInfo"
    obj ← non_null (array_get_idx school_info 1)
    row ← get_ex obj "row"
    array_only row

  abbrev pub copied_codes : Option Bytes → Option Bytes → Lookup
  copied_codes (some edu_code) (some school_code) =
      if ltb (length edu_code) 10
      then (if ltb (length school_code) 20 then codes edu_code school_code else unterminated)
      else unterminated
  copied_codes edu_code school_code = unterminated

  abbrev pub codes_of : Option Json → Option Json → Lookup
  codes_of (some edu_code_obj) (some school_code_obj) =
      copied_codes (get_string edu_code_obj) (get_string school_code_obj)
  codes_of edu_code_obj school_code_obj = missing

  -- The codes of the first school of the row
  unfoldable pub school_codes_in : Option Json → Lookup
  school_codes_in none = missing
  school_codes_in (some row) =
      let school = array_get_idx row 0 in
      if is_null school
      then missing
      else codes_of (get_ex school "ATPT_OFCDC_SC_CODE") (get_ex school "SD_SCHUL_CODE")

  -- get_school_codes; strncpy into edu_code[10] and school_code[20]
  unfoldable pub get_school_codes : Bytes → Lookup
  unfolding school_row school_codes_in
  get_school_codes school_name = elim (school_url school_name) [
    | none ↦ unterminated
    | some url ↦ school_codes_in (school_row url)
  ]

  unfoldable pub meal_url : Bytes → Bytes → Bytes → Bytes
  meal_url edu_office school_code date = snprintf 1024 (
      printed (
        neis_api_url
        ∷ bytes "?KEY="
        ∷ neis_api_key
        ∷ bytes "&Type=json&ATPT_OFCDC_SC_CODE="
        ∷ edu_office
        ∷ bytes "&SD_SCHUL_CODE="
        ∷ school_code
        ∷ bytes "&MLSV_YMD="
        ∷ date
        ∷ []))

  unfoldable pub period_url : Bytes → Bytes → Bytes → Bytes → Bytes
  period_url edu_office school_code start_date end_date = snprintf 1024 (
      printed (
        neis_api_url
        ∷ bytes "?KEY="
        ∷ neis_api_key
        ∷ bytes "&Type=json&ATPT_OFCDC_SC_CODE="
        ∷ edu_office
        ∷ bytes "&SD_SCHUL_CODE="
        ∷ school_code
        ∷ bytes "&MLSV_FROM_YMD="
        ∷ start_date
        ∷ bytes "&MLSV_TO_YMD="
        ∷ end_date
        ∷ []))

  -- The row of mealServiceDietInfo[1], where the answer has it. The single-day query does not test
  -- the second element for NULL; get_ex is false on it.
  unfoldable pub meal_row : Bytes → Option Json
  meal_row url = do
    body ← perform_curl_request url
    json ← non_null (json_tokener_parse body)
    meal_service ← get_ex json "mealServiceDietInfo"
    meal_service_array ← array_only meal_service
    row ← get_ex (array_get_idx meal_service_array 1) "row"
    array_only row

  -- The title, the date and the lines of the menu, in a buffer of MAX_MEAL_LEN bytes, copied with
  -- strncpy
  unfoldable pub meal_text : Bytes → Bytes → Option Bytes
  meal_text date menu = do
    day ← formatted_date date
    let title = bytes "\n🍱 오늘의 급식 메뉴\n\n" ++ bytes "📅 " ++ day ++ bytes "\n\n"
    text ← add_menu max_meal_len title menu
    some (strncpy (max_meal_len - 1) text)

  abbrev pub menu_of : Json → Option Json
  menu_of first_meal = if is_null first_meal then none else get_ex first_meal "DDISH_NM"

  -- As in MealService: the outer `none` is undefined behaviour, the inner one is false.
  abbrev pub meal_from : Bytes → Option Json → Option (Option Bytes)
  meal_from date none = some none
  meal_from date (some menu) = do
    menu ← get_string menu
    text ← meal_text date menu
    some (some text)

  unfoldable pub get_meal_from_neis : Bytes → Bytes → Bytes → Option (Option Bytes)
  unfolding meal_row meal_url meal_text
  get_meal_from_neis edu_office school_code date =
      meal_from date
        (meal_row (meal_url edu_office school_code date) >>= λ row. menu_of (array_get_idx row 0))

  abbrev pub meals_from : Option Json → Option (Option Bytes)
  meals_from none = some none
  meals_from (some row) = do
    buffer ← period_text web row
    some (some (strncpy (max_meal_len - 1) buffer))

  unfoldable pub get_meals_period_from_neis : Bytes → Bytes → Bytes → Bytes → Option (Option Bytes)
  unfolding is_too_long meal_row period_url
  get_meals_period_from_neis edu_office school_code start_date end_date =
      if is_too_long start_date end_date
      then some none
      else meals_from (meal_row (period_url edu_office school_code start_date end_date))

  -- The meal service that server.c is linked with.
  abbrev pub neis : MealService
  neis = record {
    resolve_school_code = get_school_codes;
    get_meal_from_neis = get_meal_from_neis;
    get_meals_period_from_neis = get_meals_period_from_neis;
  }
