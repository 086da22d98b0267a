-- ===== src/Protocol/Requests.antt =====
-- The request texts that client/handlers.c prints into its buffers.
use school_meals.Base.{[], ◌∷◌, List}
use school_meals.CString.{Bytes, bytes, snprintf, printed}
use school_meals.Protocol.{buffer_size, cmd_delimiter}

-- The fields with the delimiter between them.
abbrev pub joined : List Bytes → Bytes
joined [] = []
joined (f ∷ []) = f
joined (f ∷ g ∷ fs) = printed (f ∷ cmd_delimiter ∷ joined (g ∷ fs) ∷ [])

unfoldable pub login_request : Bytes → Bytes → Bytes
login_request id pw = snprintf buffer_size (joined (bytes "LOGIN" ∷ id ∷ pw ∷ []))

unfoldable pub register_request : Bytes → Bytes → Bytes → Bytes → Bytes
register_request id pw edu_office school_name =
    snprintf buffer_size
      (joined (bytes "REGISTER_GENERAL" ∷ id ∷ pw ∷ edu_office ∷ school_name ∷ []))

unfoldable pub update_request : Bytes → Bytes → Bytes → Bytes → Bytes
update_request id pw edu_office school_name =
    snprintf buffer_size (joined (bytes "UPDATE" ∷ id ∷ pw ∷ edu_office ∷ school_name ∷ []))

unfoldable pub delete_request : Bytes → Bytes
delete_request id = snprintf buffer_size (joined (bytes "DELETE" ∷ id ∷ []))

unfoldable pub meal_request : Bytes → Bytes → Bytes → Bytes
meal_request edu_office school_name date =
    snprintf buffer_size (joined (bytes "GET_MEAL" ∷ edu_office ∷ school_name ∷ date ∷ []))

unfoldable pub multi_meal_request : Bytes → Bytes → Bytes → Bytes → Bytes
multi_meal_request edu_office school_name start_date end_date = snprintf buffer_size (
    joined (
      bytes "GET_MULTI_MEAL"
      ∷ edu_office
      ∷ school_name
      ∷ printed (start_date ∷ (b'-' ∷ []) ∷ end_date ∷ [])
      ∷ []))

unfoldable pub child_meal_request : Bytes → Bytes → Bytes → Bytes
child_meal_request parent_id child_id date =
    snprintf buffer_size (joined (bytes "CHILD_MEAL" ∷ parent_id ∷ child_id ∷ date ∷ []))

unfoldable pub child_multi_meal_request : Bytes → Bytes → Bytes → Bytes → Bytes
child_multi_meal_request parent_id child_id start_date end_date =
    snprintf buffer_size
      (joined (bytes "CHILD_MULTI_MEAL" ∷ parent_id ∷ child_id ∷ start_date ∷ end_date ∷ []))
