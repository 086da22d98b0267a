-- ===== src/Examples/Texts.antt =====
-- Requests, dates, menus and answers of the server.
use school_meals.Base.{
  ◌+◌, ◌≡◌, ◌↔◌, refl, true, false, ◌&&◌, none, some, [], ◌∷◌, ◌++◌, map, length, every, arith, leb,
  replicate, if◌then◌else◌,
}
use school_meals.CString.{Bytes, bytes, isdigit, strcat}
use school_meals.CString.Tokens.{Lacks, Lacks-of_test}
use school_meals.Protocol.{response, cmd_delimiter}
use school_meals.Protocol.Requests.{register_request}
use school_meals.Input.{
  is_valid_id, is_valid_password, validate_date_format, date_of, check_date, check_period,
}
use school_meals.Input.Dates.{IsCalendarDate, validate_date_format_iff}
use school_meals.Input.Limits.{check_period_same_month, check_period_new_year}
use school_meals.Input.Prompts.{ask, get_id_input, get_password_input}
use school_meals.Neis.Period.{is_too_long}
use school_meals.Neis.Menu.{
  br, add_menu, add_items, add_item, clean_item, trim_end, drop_trailing, skip_blanks, cut_paren,
}
use school_meals.Neis.Menu.Lines.{menu_lines, add_menu-eq}
use school_meals.Neis.Menu.Letters.{add_menu-Lacks}
use school_meals.Server.Request.{parse_request}
use school_meals.Server.Wire.{account_params, parse-register_request}
use school_meals.Server.Clients.{max_clients, accepted, started, next, accept_client, end_client}
use school_meals.Server.Clients.Slots.{end_client-accept_client}
use school_meals.Server.Clients.Distinct.{DistinctSockets, Reachable-DistinctSockets}
use school_meals.Client.Network.{
  sent, send_data, received, has_delimiter, receive_response, answered,
}
use school_meals.Client.Handlers.{handle_login, handle_logout, with_id}
use school_meals.Client.Login.{
  login_ok, login_message, value_and_session, session_of, handle_login-response,
  handle_login_empty_office,
}
use school_meals.Client.Received.{total, send_data-total}
use school_meals.Client.Pieces.{receive_response_pieces}
use school_meals.Examples.Data.{
  user123, pin, office, school, b10, school_code, user123-IsParam, pin-IsParam, office-IsParam,
  school-IsParam, b10-IsParam, school_code-IsParam,
}

parse-register_request_example :
    parse_request (register_request user123 pin office school)
    ≡ some (account_params (bytes "REGISTER_GENERAL") user123 pin office school)
parse-register_request_example =
    parse-register_request user123 pin office school user123-IsParam pin-IsParam office-IsParam
      school-IsParam (omega arith)

abbrev may_25 : Bytes
may_25 = bytes "20240525"

abbrev june_1 : Bytes
june_1 = bytes "20240601"

may_25-accepted : validate_date_format may_25 ≡ true
unfolding validate_date_format check_date
may_25-accepted = refl

validate_date_format_iff_example : (validate_date_format (bytes "20240229") ≡ true) ↔ (
    (length (bytes "20240229") ≡ 8)
    × (every isdigit (bytes "20240229") ≡ true)
    × IsCalendarDate (date_of (bytes "20240229")))
validate_date_format_iff_example = validate_date_format_iff (bytes "20240229")

abbrev may_31 : Bytes
may_31 = bytes "20240531"

may_31-accepted : validate_date_format may_31 ≡ true
unfolding validate_date_format check_date
may_31-accepted = refl

check_period_same_month_example :
    (check_period may_25 may_31 ≡ (
      leb (date_of may_25).day (date_of may_31).day
      && leb (date_of may_31).day ((date_of may_25).day + 6)))
    × (check_period may_25 may_31 ≡ true → is_too_long may_25 may_31 ≡ false)
check_period_same_month_example =
    check_period_same_month may_25 may_31 may_25-accepted may_31-accepted refl refl

abbrev december_30 : Bytes
december_30 = bytes "20231230"

abbrev january_3 : Bytes
january_3 = bytes "20240103"

december_30-accepted : validate_date_format december_30 ≡ true
unfolding validate_date_format check_date
december_30-accepted = refl

january_3-accepted : validate_date_format january_3 ≡ true
unfolding validate_date_format check_date
january_3-accepted = refl

check_period_new_year_example :
    (check_period december_30 january_3 ≡ false) × (is_too_long december_30 january_3 ≡ false)
check_period_new_year_example =
    check_period_new_year december_30 january_3 december_30-accepted january_3-accepted refl refl
      refl (omega arith) (omega arith)

typed_id : get_id_input (bytes "me" ∷ user123 ∷ []) ≡ some (user123, [])
unfolding get_id_input ask is_valid_id
typed_id = refl

typed_pin : get_password_input (bytes "12345" ∷ pin ∷ []) ≡ some (pin, [])
unfolding get_password_input ask is_valid_password
typed_pin = refl

abbrev menu : Bytes
menu = bytes "rice (1.2)<br/> kimchi "

add_menu-eq_example :
    add_menu 512 (bytes "menu\n") menu ≡ strcat 512 (bytes "menu\n") (menu_lines menu)
add_menu-eq_example = add_menu-eq 512 (bytes "menu\n") menu (omega arith)

menu_text : add_menu 512 (bytes "menu\n") menu ≡ some (bytes "menu\n• ice\n• kimchi\n")
unfolding add_menu add_items add_item clean_item trim_end drop_trailing skip_blanks cut_paren
menu_text = refl

add_menu-Lacks_example :
    (lines : Bytes) × (bytes "menu\n• ice\n• kimchi\n" ≡ bytes "menu\n" ++ lines) × Lacks br lines
add_menu-Lacks_example =
    add_menu-Lacks 512 (bytes "menu\n") menu (bytes "menu\n• ice\n• kimchi\n") (omega arith)
      menu_text

handle_login-response_example :
    value_and_session (
      handle_login
        (handle_logout (session_of [] [] [] []))
        user123
        (answered (response 1 login_ok (login_message b10 school_code (bytes "GENERAL")))))
    ≡ (true, session_of user123 b10 school_code (bytes "GENERAL"))
handle_login-response_example =
    handle_login-response (handle_logout (session_of [] [] [] [])) user123 b10 school_code
      (bytes "GENERAL") b10-IsParam.field school_code-IsParam.field
      ((λ h. cc), Lacks-of_test cmd_delimiter (bytes "GENERAL") refl) (omega arith)

handle_login_empty_office_example :
    value_and_session (
      handle_login
        (handle_logout (session_of [] [] [] []))
        user123
        (answered (response 1 login_ok (login_message [] school_code (bytes "GENERAL")))))
    ≡ (false, with_id (handle_logout (session_of [] [] [] [])) user123)
handle_login_empty_office_example =
    handle_login_empty_office (handle_logout (session_of [] [] [] [])) user123 school_code
      (bytes "GENERAL") school_code-IsParam.field
      ((λ h. cc), Lacks-of_test cmd_delimiter (bytes "GENERAL") refl) (omega arith)

send_data-total_example :
    send_data (map sent (3 ∷ 4 ∷ [])) 7 ≡ (if leb 7 (total (3 ∷ 4 ∷ [])) then some true else none)
send_data-total_example = send_data-total (3 ∷ 4 ∷ []) 7

no_delimiter_yet : has_delimiter (bytes "1/") ≡ false
unfolding has_delimiter
no_delimiter_yet = refl

delimiter_there : has_delimiter (bytes "1//ok") ≡ true
unfolding has_delimiter
delimiter_there = refl

receive_response_pieces_example :
    receive_response true
      (received (bytes "1/") ∷ received (bytes "/ok") ∷ received (bytes "//B10") ∷ [])
    ≡ some (true, bytes "1//ok")
receive_response_pieces_example =
    receive_response_pieces (bytes "1/" ∷ []) (bytes "/ok") (received (bytes "//B10") ∷ [])
      ((omega arith, ((λ h. absurd (omega arith)), ((λ h. absurd (omega arith)), tt))), tt)
      (
        omega arith,
        (
          (λ h. absurd (omega arith)),
          ((λ h. absurd (omega arith)), ((λ h. absurd (omega arith)), tt)),
        ),
      )
      (omega arith) no_delimiter_yet delimiter_there

end_client-accept_client_example :
    end_client 5 (accept_client 5 true (7 ∷ 0 ∷ 0 ∷ [])) ≡ 7 ∷ 0 ∷ 0 ∷ []
end_client-accept_client_example = end_client-accept_client 5 true (7 ∷ 0 ∷ 0 ∷ []) refl

Reachable-DistinctSockets_example :
    (length (accept_client 5 true (replicate max_clients 0)) ≡ max_clients)
    × DistinctSockets (accept_client 5 true (replicate max_clients 0))
Reachable-DistinctSockets_example =
    Reachable-DistinctSockets (next started (accepted 5 true (λ h. absurd (omega arith)) refl))
