-- ===== src/Client/App/Rounds.antt =====
-- What the rounds of the loop of client/client.c do to the session, and how the loop ends.
use school_meals.Base.{
  ℕ, ◌≡◌, refl, Bool-cases, inl, inr, ◌⊎◌, Bool, Option, none, some, List, [], ◌∷◌, ◌>>=◌,
  if◌then◌else◌, bind-some, ==_iff, ◌==◌, any,
}
use school_meals.CString.{Bytes}
use school_meals.Protocol.Requests.{login_request}
use school_meals.Protocol.{max_id_len, max_pw_len}
use school_meals.Input.Prompts.{Typed}
use school_meals.Client.Network.{Outcome}
use school_meals.Client.Handlers.{Session, handle_login}
use school_meals.Client.Menu.{fgets, Turn, handle_general_menu}
use school_meals.Client.Sent.{sends_login, Sent}
use school_meals.Client.LoginMenu.{login_choice, handle_login_menu_input}
use school_meals.Client.App.{
  Keys, Screen, login_screen, parent_screen, general_screen, screen, exited, again, going_on,
  on_screen, client_round, client_main, no_session,
}
use school_meals.Client.App.Kept.{
  Keeps-some, handle_general_menu-Keeps, handle_login_menu_input-Keeps,
}

abbrev pub session_after : Bool × Bytes × Session → Session
session_after (ok, response, session) = session

going_on-again :
    (r : Typed Turn) (session' : Session) (request : Option Bytes)
    → (r >>= going_on) ≡ some (again session' request)
    → (lines : List Bytes) × (r ≡ some ((session', request), lines))
going_on-again none session' request h = cc
going_on-again (some ((s, q), lines)) session' request h = (lines, cc)

login_choice-session :
    (answer : Bytes → Outcome) (session session' : Session) (request : Option Bytes)
    (lines rest : List Bytes)
    → login_choice answer session lines ≡ some ((session', request), rest)
    → (id : Bytes) × (pw : Bytes) × (session'
        ≡ session_after (handle_login session id (answer (login_request id pw))))
      × Sent request
login_choice-session answer session session' request lines rest h =
    let ((id, l1), typed, h1) = bind-some (fgets max_id_len lines) _ _ h in
    let ((pw, l2), typed', h2) = bind-some (fgets max_pw_len l1) _ _ h1 in
    let (same, sent) = (Keeps-some _ _ l2 (sends_login id pw)).at session' request rest h2 in
    (id, pw, same, sent)

login_menu-session :
    (answer : Bytes → Outcome) (session session' : Session) (choice : ℕ) (request : Option Bytes)
    (lines rest : List Bytes)
    → handle_login_menu_input answer session choice lines ≡ some ((session', request), rest)
    → ((session' ≡ session)
        ⊎ ((choice ≡ 1)
            × (id : Bytes) × (pw : Bytes) × (session'
                ≡ session_after (handle_login session id (answer (login_request id pw))))))
      × Sent request
unfolding handle_login_menu_input
login_menu-session answer session session' choice request lines rest h =
    elim (Bool-cases (choice == 1)) [
      | inl log_in ↦
          let (id, pw, is_new, sent) =
            login_choice-session answer session session' request lines rest (rw log_in at h) in
          (inr (((==_iff choice 1).0 log_in, id, pw, is_new)), sent)
      | inr other ↦
          let (same, sent) =
            (handle_login_menu_input-Keeps answer session choice lines other).at session' request
              rest h in
          (inl same, sent)
    ]

logout_choice-session :
    (session session' : Session) (choice sub_choice : ℕ) (request : Option Bytes)
    (lines rest : List Bytes)
    → choice ≡ 4
    → handle_general_menu session choice sub_choice lines ≡ some ((session', request), rest)
    → (session' ≡ no_session) × Sent request
unfolding handle_general_menu
logout_choice-session session session' choice sub_choice request lines rest is h =
    (Keeps-some no_session none lines tt).at session' request rest (rw is at h)

general_menu-session :
    (session session' : Session) (choice sub_choice : ℕ) (request : Option Bytes)
    (lines rest : List Bytes)
    → handle_general_menu session choice sub_choice lines ≡ some ((session', request), rest)
    → ((session' ≡ session) ⊎ ((choice ≡ 4) × (session' ≡ no_session))) × Sent request
general_menu-session session session' choice sub_choice request lines rest h =
    elim (Bool-cases (choice == 4)) [
      | inl log_out ↦
          let is_4 = (==_iff choice 4).0 log_out in
          let (emptied, sent) =
            logout_choice-session session session' choice sub_choice request lines rest is_4 h in
          (inr ((is_4, emptied)), sent)
      | inr other ↦
          let (same, sent) =
            (handle_general_menu-Keeps session choice sub_choice lines other).at session' request
              rest h in
          (inl same, sent)
    ]

-- The two ways in which a round changes the session
abbrev pub IsLogin : Screen → Session → Keys → Session → Type 0
IsLogin on session keys session' =
    (on ≡ login_screen)
    × (keys.choice ≡ 1)
    × (id : Bytes) × (pw : Bytes) × (session'
        ≡ session_after (handle_login session id (keys.answer (login_request id pw))))

abbrev pub IsLogout : Screen → Keys → Session → Type 0
IsLogout on keys session' = (on ≡ general_screen) × (keys.choice ≡ 4) × (session' ≡ no_session)

on_screen-session :
    (on : Screen) (session session' : Session) (keys : Keys) (request : Option Bytes)
    → on_screen on session keys ≡ some (again session' request)
    → ((session' ≡ session) ⊎ (IsLogin on session keys session' ⊎ IsLogout on keys session'))
      × Sent request
on_screen-session login_screen session session' keys request h =
    elim (Bool-cases (keys.choice == 3)) [
      | inl left ↦ absurd (cc (rw left at h))
      | inr stays ↦
          let (lines, is) = going_on-again _ session' request (rw stays at h) in
          let (change, sent) =
            login_menu-session keys.answer session session' keys.choice request keys.lines lines
              is in
          elim change [
            | inl same ↦ (inl same, sent)
            | inr (log_in, id, pw, is_new) ↦ (inr (inl ((refl, log_in, id, pw, is_new))), sent)
          ]
    ]
on_screen-session parent_screen session session' keys request h =
    elim (Bool-cases (keys.choice == 5)) [
      | inl left ↦ absurd (cc (rw left at h))
      | inr stays ↦
          let (lines, is) = going_on-again _ session' request (rw stays at h) in
          let (same, sent) = (Keeps-some session none keys.lines tt).at session' request lines is in
          (inl same, sent)
    ]
on_screen-session general_screen session session' keys request h =
    elim (Bool-cases (keys.choice == 5)) [
      | inl left ↦ absurd (cc (rw left at h))
      | inr stays ↦
          let (lines, is) = going_on-again _ session' request (rw stays at h) in
          let (change, sent) =
            general_menu-session session session' keys.choice keys.sub_choice request keys.lines
              lines is in
          elim change [
            | inl same ↦ (inl same, sent)
            | inr (log_out, is_new) ↦ (inr (inr ((refl, log_out, is_new))), sent)
          ]
    ]

-- A round of the client that goes on leaves the session as it was, but for two: choice 1 before the
-- login, whose session is the one that handle_login makes of the server's answer, and choice 4 in
-- the general menu, which empties the four globals.
pub client_round-session :
    (session session' : Session) (keys : Keys) (request : Option Bytes)
    → client_round session keys ≡ some (again session' request)
    → (session' ≡ session)
      ⊎ (IsLogin (screen session) session keys session' ⊎ IsLogout (screen session) keys session')
unfolding client_round
client_round-session session session' keys request h =
    (on_screen-session (screen session) session session' keys request h).0

-- A round sends one of the six requests of the client, or none.
pub client_round-Sent :
    (session session' : Session) (keys : Keys) (request : Option Bytes)
    → client_round session keys ≡ some (again session' request)
    → Sent request
unfolding client_round
client_round-Sent session session' keys request h =
    (on_screen-session (screen session) session session' keys request h).1

-- A parent who is logged in keeps the session through whatever is typed, also through choice 4, the
-- logout of the menu: the only round that does anything is choice 5, which ends the program.
pub client_main-parent :
    (session : Session) (rounds : List Keys)
    → screen session ≡ parent_screen
    → client_main session rounds
      ≡ some (if any (λ keys. keys.choice == 5) rounds then exited else again session none)
unfolding client_main client_round
client_main-parent session [] h = refl
client_main-parent session (keys ∷ rounds) h = elim (Bool-cases (keys.choice == 5)) [
  | inl left ↦ rw (h, left) refl
  | inr stays ↦ rw (h, stays) (client_main-parent session rounds h)
]
