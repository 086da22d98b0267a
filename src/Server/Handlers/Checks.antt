-- ===== src/Server/Handlers/Checks.antt =====
-- server/server_handler.c and client/input_util.c check ids and passwords in the same way.
use school_meals.Base.{◌≡◌, refl, ◌==◌, Bool-cases, inl, inr, length, take-eq_self, arith}
use school_meals.CString.{Bytes}
use school_meals.Input.{is_valid_id as typed_id, is_valid_password as typed_password}
use school_meals.Server.Handlers.{is_valid_id, is_valid_password}

-- The server's handlers accept the ids that the client accepts.
is_valid_id-eq : (id : Bytes) → is_valid_id id ≡ typed_id id
unfolding is_valid_id typed_id
is_valid_id-eq id = refl

-- They accept the passwords that the client accepts, though they look at four bytes only.
is_valid_password-eq : (pw : Bytes) → is_valid_password pw ≡ typed_password pw
unfolding is_valid_password typed_password
is_valid_password-eq pw = elim (Bool-cases (length pw == 4)) [
  | inl four ↦ rw (four, take-eq_self 4 pw (ground arith)) refl
  | inr other ↦ rw other refl
]
