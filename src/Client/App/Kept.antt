-- ===== src/Client/App/Kept.antt =====
-- The menus of the client that leave the session as it was.
use school_meals.Base.{
  ℕ, ◌≡◌, refl, ap, subst, Bool, true, false, Option, none, some, List, ◌>>=◌, if◌then◌else◌, ◌==◌,
}
use school_meals.CString.{Bytes}
use school_meals.Protocol.{max_edu_office_len, max_school_name_len}
use school_meals.Protocol.Requests.{
  meal_request, multi_meal_request, register_request, update_request,
}
use school_meals.Input.Prompts.{
  Typed, get_id_input, get_password_input, get_edu_office_input, get_school_input, get_date_input,
  get_period_input,
}
use school_meals.Client.Network.{Outcome}
use school_meals.Client.Handlers.{Session, handle_register}
use school_meals.Client.Menu.{
  fgets, eight_bytes, Turn, dated, for_period, account_prompts, own_school_menu, other_school_menu,
  user_menu, handle_general_menu,
}
use school_meals.Input.Accepted.{IsStorable, get_id_input-IsStorable, get_password_input-IsStorable}
use school_meals.Client.Sent.{
  IsSent, sends_register, sends_update, sends_delete, sends_meal, sends_multi_meal, Sent,
}
use school_meals.Client.LoginMenu.{register_prompts, register_account, handle_login_menu_input}
use school_meals.Client.LoginMenu.Accepted.{register_prompts-IsStorable}

-- A menu that, if it returns, leaves the session as it was, and has sent one of the client's
-- requests or none.
pub record Keeps (session : Session) (result : Typed Turn) : Type 0 where
  pub at :
      (session' : Session) (request : Option Bytes) (lines : List Bytes)
      → result ≡ some ((session', request), lines)
      → (session' ≡ session) × Sent request

abbrev turn_request : Typed Turn → Option Bytes
turn_request none = none
turn_request (some ((session, request), lines)) = request

pub Keeps-some :
    (session : Session) (request : Option Bytes) (lines : List Bytes)
    → Sent request
    → Keeps session (some ((session, request), lines))
Keeps-some session request lines sent = record {
  at = λ session' request' lines' h. (cc, subst Sent (ap turn_request h) sent);
}

Keeps-if :
    (session : Session) (b : Bool) (r r' : Typed Turn)
    → Keeps session r
    → Keeps session r'
    → Keeps session (if b then r else r')
Keeps-if session true r r' h h' = h
Keeps-if session false r r' h h' = h'

Keeps-bind :
    {A : Type 0} (session : Session) (o : Option A) (f : A → Typed Turn)
    → ((a : A) → o ≡ some a → Keeps session (f a))
    → Keeps session (o >>= f)
Keeps-bind session none f h = record { at = λ session' request lines e. cc }
Keeps-bind session (some a) f h = h a refl

dated-Keeps :
    (session : Session) (request : Bytes → Bytes)
    → ((date : Bytes) → IsSent (request date))
    → (r : Option Bytes × List Bytes) → Keeps session (dated session request r)
dated-Keeps session request sent (none, lines) = Keeps-some session none lines tt
dated-Keeps session request sent (some date, lines) = Keeps-some session _ lines (sent date)

for_period-Keeps :
    (session : Session) (request : Bytes → Bytes → Bytes)
    → ((start_date end_date : Bytes) → IsSent (request start_date end_date))
    → (r : Option (Bytes × Bytes) × List Bytes) → Keeps session (for_period session request r)
for_period-Keeps session request sent (none, lines) = Keeps-some session none lines tt
for_period-Keeps session request sent (some (start_date, end_date), lines) =
    Keeps-some session _ lines (sent start_date end_date)

own_school_menu-Keeps :
    (session : Session) (sub_choice : ℕ) (lines : List Bytes)
    → Keeps session (own_school_menu session sub_choice lines)
unfolding own_school_menu
own_school_menu-Keeps session sub_choice lines =
    Keeps-if session (sub_choice == 1) _ _
      (Keeps-bind session (get_date_input 9 lines) _
        (λ r _. dated-Keeps session _ (sends_meal _ _) r))
      (Keeps-if session (sub_choice == 2) _ _
        (Keeps-bind session (get_period_input 9 lines) _
          (λ r _. for_period-Keeps session _ (sends_multi_meal _ _) r))
        (Keeps-some session none lines tt))

other_school_menu-Keeps :
    (session : Session) (sub_choice : ℕ) (lines : List Bytes)
    → Keeps session (other_school_menu session sub_choice lines)
unfolding other_school_menu
other_school_menu-Keeps session sub_choice lines =
    Keeps-bind session (fgets max_edu_office_len lines) _ (λ (office, l1) _.
      Keeps-bind session (fgets max_school_name_len l1) _ (λ (school, l2) _.
        Keeps-if session (sub_choice == 1) _ _
          (Keeps-bind session (eight_bytes l2) _
            (λ r _. dated-Keeps session (meal_request office school) (sends_meal office school) r))
          (Keeps-if session (sub_choice == 2) _ _
            (Keeps-bind session (get_period_input 9 l2) _ (λ r _.
              for_period-Keeps session (multi_meal_request office school)
                (sends_multi_meal office school) r))
            (Keeps-some session none l2 tt))))

account_prompts-Keeps :
    (session : Session) (request : Bytes → Bytes → Bytes → Bytes → Bytes) (lines : List Bytes)
    → ((id pw edu_office school_name : Bytes)
        → IsStorable id
        → IsStorable pw
        → IsSent (request id pw edu_office school_name))
    → Keeps session (account_prompts session request lines)
account_prompts-Keeps session request lines sent =
    Keeps-bind session (get_id_input lines) _ (λ (id, l1) typed.
      Keeps-bind session (get_password_input l1) _ (λ (pw, l2) typed'.
        Keeps-bind session (get_edu_office_input l2) _ (λ (office, l3) _.
          Keeps-bind session (get_school_input l3) _ (λ (school, l4) _. Keeps-some session _ l4 (
            sent id pw office school (get_id_input-IsStorable lines id l1 typed)
              (get_password_input-IsStorable l1 pw l2 typed'))))))

user_menu-Keeps :
    (session : Session) (sub_choice : ℕ) (lines : List Bytes)
    → Keeps session (user_menu session sub_choice lines)
unfolding user_menu
user_menu-Keeps session sub_choice lines =
    Keeps-if session (sub_choice == 1) _ _
      (account_prompts-Keeps session register_request lines sends_register)
      (Keeps-if session (sub_choice == 2) _ _
        (account_prompts-Keeps session update_request lines
          (λ id pw office school _ _. sends_update id pw office school))
        (Keeps-if session (sub_choice == 3) _ _
          (Keeps-bind session (get_id_input lines) _
            (λ (id, l1) _. Keeps-some session _ l1 (sends_delete id)))
          (Keeps-some session none lines tt)))

pub handle_general_menu-Keeps :
    (session : Session) (choice sub_choice : ℕ) (lines : List Bytes)
    → (choice == 4) ≡ false
    → Keeps session (handle_general_menu session choice sub_choice lines)
unfolding handle_general_menu
handle_general_menu-Keeps session choice sub_choice lines h =
    Keeps-if session (choice == 1) _ _ (own_school_menu-Keeps session sub_choice lines) (
      Keeps-if session (choice == 2) _ _ (other_school_menu-Keeps session sub_choice lines) (
        Keeps-if session (choice == 3) _ _ (user_menu-Keeps session sub_choice lines)
          (rw h (Keeps-some session none lines tt))))

Sent-if : (b : Bool) (request : Bytes) → IsSent request → Sent (if b then some request else none)
Sent-if true request sent = sent
Sent-if false request sent = tt

register_account-Keeps :
    (answer : Bytes → Outcome) (session : Session) (lines : List Bytes)
    → Keeps session (register_prompts lines >>= register_account answer session)
unfolding register_prompts
register_account-Keeps answer session lines =
    Keeps-bind session (register_prompts lines) _ (λ (account, rest) typed.
      let (id, pw) = register_prompts-IsStorable lines account rest typed in
      Keeps-bind session (handle_register account.edu_office (answer _)) _ (λ shown _.
        Keeps-some session _ rest (
          Sent-if _ _
            (sends_register account.id account.pw account.edu_office account.school_name id pw))))

pub handle_login_menu_input-Keeps :
    (answer : Bytes → Outcome) (session : Session) (choice : ℕ) (lines : List Bytes)
    → (choice == 1) ≡ false
    → Keeps session (handle_login_menu_input answer session choice lines)
unfolding handle_login_menu_input
handle_login_menu_input-Keeps answer session choice lines h = rw h (
    Keeps-if session (choice == 2) _ _ (register_account-Keeps answer session lines)
      (Keeps-some session none lines tt))
