-- ===== src/Client/Menu/Sends.antt =====
-- What the requests of the general menu are, and what the server makes of them.
use school_meals.Base.{◌≡◌, refl, sym, ◌∙◌, bind-some, some, List}
use school_meals.CString.{Bytes}
use school_meals.Protocol.Requests.{register_request}
use school_meals.Input.Prompts.{
  Typed, get_id_input, get_password_input, get_edu_office_input, get_school_input,
}
use school_meals.Input.Accepted.{IsStorable, get_id_input-IsStorable, get_password_input-IsStorable}
use school_meals.Client.Handlers.{Session}
use school_meals.Client.Menu.{Turn, account_prompts, user_menu}

sent_parts :
    (s s' : Session) (a b : Bytes) (l l' : List Bytes)
    → ◌≡◌ {A = Typed Turn} (some ((s, some a), l)) (some ((s', some b), l'))
    → (b ≡ a) × (s' ≡ s)
sent_parts s s' a b l l' h = (cc, cc)

account_prompts-request :
    (session session' : Session) (ask : Bytes → Bytes → Bytes → Bytes → Bytes)
    (lines rest : List Bytes) (request : Bytes)
    → account_prompts session ask lines ≡ some ((session', some request), rest)
    → (id : Bytes) × (pw : Bytes) × (office : Bytes) × (school : Bytes) × (request
        ≡ ask id pw office school)
      × IsStorable id
      × IsStorable pw
      × (session' ≡ session)
account_prompts-request session session' ask lines rest request h =
    let ((id, l1), typed, h1) = bind-some (get_id_input lines) _ _ h in
    let ((pw, l2), typed', h2) = bind-some (get_password_input l1) _ _ h1 in
    let ((office, l3), _, h3) = bind-some (get_edu_office_input l2) _ _ h2 in
    let ((school, l4), _, h4) = bind-some (get_school_input l3) _ _ h3 in
    let (asked, same) = sent_parts session session' (ask id pw office school) request l4 rest h4 in
    (
      id,
      pw,
      office,
      school,
      asked,
      get_id_input-IsStorable lines id l1 typed,
      get_password_input-IsStorable l1 pw l2 typed',
      same,
    )

user_menu_add :
    (session : Session) (lines : List Bytes)
    → user_menu session 1 lines ≡ account_prompts session register_request lines
unfolding user_menu
user_menu_add session lines = refl

-- An account that is added in the menu is requested with an id and a password that are each one
-- parameter of a request, have no quote and are not cut to the fields of User, and the session stays
-- as it was.
pub user_menu-IsStorable :
    (session session' : Session) (lines rest : List Bytes) (request : Bytes)
    → user_menu session 1 lines ≡ some ((session', some request), rest)
    → (id : Bytes) × (pw : Bytes) × (office : Bytes) × (school : Bytes) × (request
        ≡ register_request id pw office school)
      × IsStorable id
      × IsStorable pw
      × (session' ≡ session)
user_menu-IsStorable session session' lines rest request h =
    account_prompts-request session session' register_request lines rest request
      (sym (user_menu_add session lines) ∙ h)
