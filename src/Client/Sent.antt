-- ===== src/Client/Sent.antt =====
-- The requests that the menus of the client send (client/menu.c and client/menu_general.c).
pub mod Plain
use school_meals.Base.{Option, none, some, length, ◌<◌}
use school_meals.CString.{Bytes}
use school_meals.Protocol.Requests.{
  meal_request, multi_meal_request, login_request, register_request, update_request, delete_request,
}
use school_meals.Input.Accepted.{IsStorable}

-- Only the two requests for an account come from prompts that check their texts.
pub data IsSent : Bytes → Type 0 where
  sends_login : (id pw : Bytes) → IsSent (login_request id pw)
  sends_register :
      (id pw edu_office school_name : Bytes)
      → IsStorable id
      → IsStorable pw
      → IsSent (register_request id pw edu_office school_name)
  sends_update :
      (id pw edu_office school_name : Bytes) → IsSent (update_request id pw edu_office school_name)
  sends_delete : (id : Bytes) → IsSent (delete_request id)
  sends_meal :
      (edu_office school_name date : Bytes) → IsSent (meal_request edu_office school_name date)
  sends_multi_meal :
      (edu_office school_name start_date end_date : Bytes)
      → IsSent (multi_meal_request edu_office school_name start_date end_date)

abbrev pub Sent : Option Bytes → Type 0
Sent none = Unit
Sent (some request) = IsSent request
