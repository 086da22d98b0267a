-- ===== src/Client/App/Fits.antt =====
-- The four global buffers of client/client.c are never overrun.
use school_meals.Base.{
  ◌<◌, ◌≡◌, sym, subst, inl, inr, Bool-cases, Option, none, some, length, length-take-le, arith,
}
use school_meals.CString.{Bytes, strtok}
use school_meals.Protocol.{
  cmd_delimiter, resp_success, max_id_len, max_role_len, max_edu_office_len, max_school_name_len,
}
use school_meals.Client.Network.{Outcome, not_sent, not_received, answered}
use school_meals.Client.Handlers.{
  Session, status_is, with_id, fields_of, store_fields, stored, handle_login,
}
use school_meals.Client.App.{Keys, again, client_round, no_session, Reachable, started, next}
use school_meals.Client.App.Rounds.{session_after, client_round-session}

-- With the zero at the end
pub record Fits (session : Session) : Type 0 where
  pub id : length session.current_user_id < max_id_len
  pub role : length session.current_user_role < max_role_len
  pub edu_office : length session.current_user_edu_office < max_edu_office_len
  pub school : length session.current_user_school < max_school_name_len

with_id-Fits : (session : Session) (id : Bytes) → Fits session → Fits (with_id session id)
with_id-Fits session id h = record {
  id = omega (arith, length-take-le 19 id);
  role = h.role;
  edu_office = h.edu_office;
  school = h.school;
}

fields_of-Fits :
    (session : Session) (edu_office school_name role : Option Bytes)
    → Fits session
    → Fits (fields_of session edu_office school_name role).1
fields_of-Fits session none school_name role h = h
fields_of-Fits session (some o) none role h = h
fields_of-Fits session (some o) (some s) none h = h
fields_of-Fits session (some o) (some s) (some r) h = record {
  id = h.id;
  role = omega (arith, length-take-le 19 r);
  edu_office = omega (arith, length-take-le 49 o);
  school = omega (arith, length-take-le 49 s);
}

store_fields-Fits :
    (session : Session) (rest : Bytes) → Fits session → Fits (store_fields session rest).1
unfolding store_fields
store_fields-Fits session rest h = fields_of-Fits session _ _ _ h

stored-Fits :
    (session : Session) (id : Bytes) (status : Option Bytes × Bytes)
    → Fits session
    → Fits (stored session id status).1
stored-Fits session id (none, rest) h = h
stored-Fits session id (some status, rest) h = elim (Bool-cases (status_is status resp_success)) [
  | inl success ↦
      rw success (store_fields-Fits (with_id session id) rest (with_id-Fits session id h))
  | inr failure ↦ rw failure h
]

handle_login-Fits :
    (session : Session) (id : Bytes) (outcome : Outcome)
    → Fits session
    → Fits (session_after (handle_login session id outcome))
unfolding handle_login
handle_login-Fits session id not_sent h = h
handle_login-Fits session id (not_received text) h = h
handle_login-Fits session id (answered text) h =
    stored-Fits session id (strtok cmd_delimiter text) h

pub no_session-Fits : Fits no_session
no_session-Fits = record {
  id = omega arith;
  role = omega arith;
  edu_office = omega arith;
  school = omega arith;
}

-- A round that goes on keeps the four texts within their buffers.
pub client_round-Fits :
    (session session' : Session) (keys : Keys) (request : Option Bytes)
    → client_round session keys ≡ some (again session' request)
    → Fits session
    → Fits session'
client_round-Fits session session' keys request h fits =
    elim (client_round-session session session' keys request h) [
      | inl same ↦ subst Fits (sym same) fits
      | inr (inl (on, log_in, id, pw, is)) ↦
          subst Fits (sym is) (handle_login-Fits session id _ fits)
      | inr (inr (on, log_out, is)) ↦ subst Fits (sym is) no_session-Fits
    ]

-- Whatever is typed and whatever the server answers, the texts in the four globals of the client fit
-- their buffers.
pub Reachable-Fits : (session : Session) → Reachable session → Fits session
Reachable-Fits session started = no_session-Fits
Reachable-Fits session (next {session = before} keys request reach h) =
    client_round-Fits before session keys request h (Reachable-Fits before reach)
