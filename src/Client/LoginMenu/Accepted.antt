-- ===== src/Client/LoginMenu/Accepted.antt =====
-- What the prompts of the registration in client/menu.c return.
use school_meals.Base.{
  ℕ, zero, suc, ◌≡◌, subst, sym, ap, Bool, Bool-cases, inl, inr, true, none, some, List, bind-some,
}
use school_meals.CString.{Bytes}
use school_meals.Input.{is_valid_id, is_valid_password}
use school_meals.Input.Prompts.{Typed}
use school_meals.Input.Accepted.{IsStorable, is_valid_id-IsStorable, is_valid_password-IsStorable}
use school_meals.Client.Menu.{fgets}
use school_meals.Client.LoginMenu.{
  checked, ask_rounds, ask_again, Account, last_prompts, register_prompts,
}

checked-accepted :
    (accepted : Bytes → Bool) (more : List Bytes → Typed Bytes) (read : Typed Bytes) (text : Bytes)
    (rest : List Bytes)
    → ((lines : List Bytes) → more lines ≡ some (text, rest) → accepted text ≡ true)
    → checked accepted more read ≡ some (text, rest)
    → accepted text ≡ true
checked-accepted accepted more none text rest later h = cc
checked-accepted accepted more (some (line, lines)) text rest later h =
    elim (Bool-cases (accepted line)) [
      | inl taken ↦
          let same : line ≡ text = cc (rw taken at h) in subst (λ t. accepted t ≡ true) same taken
      | inr refused ↦ later lines (rw refused at h)
    ]

ask_rounds-accepted :
    (accepted : Bytes → Bool) (size fuel : ℕ) (lines : List Bytes) (text : Bytes)
    (rest : List Bytes)
    → ask_rounds accepted size fuel lines ≡ some (text, rest)
    → accepted text ≡ true
unfolding ask_rounds
ask_rounds-accepted accepted size zero lines text rest h = cc
ask_rounds-accepted accepted size (suc fuel) lines text rest h =
    checked-accepted accepted (ask_rounds accepted size fuel) (fgets size lines) text rest
      (λ lines'. ask_rounds-accepted accepted size fuel lines' text rest) h

ask_again-accepted :
    (accepted : Bytes → Bool) (size : ℕ) (lines : List Bytes) (text : Bytes) (rest : List Bytes)
    → ask_again accepted size lines ≡ some (text, rest)
    → accepted text ≡ true
unfolding ask_again
ask_again-accepted accepted size lines text rest h =
    ask_rounds-accepted accepted size _ lines text rest h

Account-of_some :
    (a b : Account) (l l' : List Bytes)
    → ◌≡◌ {A = Typed Account} (some (a, l)) (some (b, l'))
    → a ≡ b
Account-of_some a b l l' h = cc

last_prompts-account :
    (id pw : Bytes) (lines : List Bytes) (account : Account) (rest : List Bytes)
    → last_prompts id pw lines ≡ some (account, rest)
    → (account.id ≡ id) × (account.pw ≡ pw)
last_prompts-account id pw lines account rest h =
    let ((office, l1), typed, h1) = bind-some (fgets 50 lines) _ _ h in
    let ((school, l2), typed', h2) = bind-some (fgets 50 l1) _ _ h1 in
    let same = Account-of_some _ account l2 rest h2 in
    (ap (λ (a : Account). a.id) (sym same), ap (λ (a : Account). a.pw) (sym same))

-- An id and a password that the registration of the login menu accepts can be stored as they are.
pub register_prompts-IsStorable :
    (lines : List Bytes) (account : Account) (rest : List Bytes)
    → register_prompts lines ≡ some (account, rest)
    → IsStorable account.id × IsStorable account.pw
unfolding register_prompts
register_prompts-IsStorable lines account rest h =
    let ((id, l1), typed, h1) = bind-some (ask_again is_valid_id 20 lines) _ _ h in
    let ((pw, l2), typed', h2) = bind-some (ask_again is_valid_password 20 l1) _ _ h1 in
    let (same_id, same_pw) = last_prompts-account id pw l2 account rest h2 in
    (
      subst IsStorable (sym same_id)
          (is_valid_id-IsStorable id (ask_again-accepted is_valid_id 20 lines id l1 typed)),
      subst IsStorable (sym same_pw) (
          is_valid_password-IsStorable pw
            (ask_again-accepted is_valid_password 20 l1 pw l2 typed')),
    )
