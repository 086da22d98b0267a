-- ===== src/Client/App.antt =====
-- client/client.c: the loop of main, and the dispatch of client/menu.c that it calls.
pub mod Kept
pub mod Start
pub mod Rounds
pub mod Fits
use school_meals.Base.{
  ℕ, ◌≡◌, Bool, true, false, Option, none, some, List, [], ◌∷◌, ◌>>=◌, ◌==◌, if◌then◌else◌, length,
}
use school_meals.CString.{Bytes, bytes, bytes_eq}
use school_meals.Protocol.{role_parent}
use school_meals.Input.Prompts.{Typed}
use school_meals.Client.Network.{Outcome}
use school_meals.Client.Handlers.{Session}
use school_meals.Client.Menu.{Turn, handle_general_menu}
use school_meals.Client.LoginMenu.{handle_login_menu_input}

-- What is typed in one round: the choice, the choice in the menu behind it, and the lines; and what
-- comes back for a request that is sent.
pub record Keys : Type 0 where
  pub choice : ℕ
  pub sub_choice : ℕ
  pub lines : List Bytes
  pub answer : Bytes → Outcome

pub data Screen : Type 0 where
  login_screen : Screen
  parent_screen : Screen
  general_screen : Screen

-- strlen(current_user_id) == 0, and strcmp(current_user_role, ROLE_PARENT) == 0
abbrev pub screen : Session → Screen
screen session =
    if length session.current_user_id == 0
    then login_screen
    else if bytes_eq session.current_user_role (bytes role_parent)
    then parent_screen
    else general_screen

-- The four globals at the start
abbrev pub no_session : Session
no_session = record {
  current_user_id = [];
  current_user_role = [];
  current_user_edu_office = [];
  current_user_school = [];
}

-- The parent's menu is switched off.
abbrev pub handle_parent_menu_input : Session → ℕ → List Bytes → Typed Turn
handle_parent_menu_input session choice lines = some ((session, none), lines)

-- One round of the loop: it leaves the loop, or goes on with a session, having sent a request or not.
pub data After : Type 0 where
  exited : After
  again : Session → Option Bytes → After

abbrev pub going_on : Turn × List Bytes → Option After
going_on ((session, request), lines) = some (again session request)

abbrev pub on_screen : Screen → Session → Keys → Option After
on_screen login_screen session keys =
    if keys.choice == 3
    then some exited
    else (handle_login_menu_input keys.answer session keys.choice keys.lines >>= going_on)
on_screen parent_screen session keys =
    if keys.choice == 5
    then some exited
    else (handle_parent_menu_input session keys.choice keys.lines >>= going_on)
on_screen general_screen session keys =
    if keys.choice == 5
    then some exited
    else (handle_general_menu session keys.choice keys.sub_choice keys.lines >>= going_on)

-- `none`: a prompt of the round has not returned, or its behaviour is not defined.
unfoldable pub client_round : Session → Keys → Option After
unfolding handle_login_menu_input handle_general_menu bytes_eq
client_round session keys = on_screen (screen session) session keys

abbrev pub then_run : (Session → Option After) → After → Option After
then_run run exited = some exited
then_run run (again session request) = run session

-- The loop, over the rounds for which something is typed
unfoldable pub client_main : Session → List Keys → Option After
unfolding client_round
client_main session [] = some (again session none)
client_main session (keys ∷ rounds) =
    client_round session keys >>= then_run (λ session'. client_main session' rounds)

-- The sessions that main comes to
pub data Reachable : Session → Type 0 where
  started : Reachable no_session
  next :
      {session session' : Session} (keys : Keys) (request : Option Bytes)
      → Reachable session
      → client_round session keys ≡ some (again session' request)
      → Reachable session'
