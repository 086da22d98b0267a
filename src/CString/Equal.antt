-- ===== src/CString/Equal.antt =====
-- `strcmp(a, b) == 0` holds exactly of equal strings.
use school_meals.Base.{◌≡◌, refl, ◌↔◌, true, [], ◌∷◌, arith, ◌==◌, ==_iff, &&-eq-true}
use school_meals.CString.{Bytes, bytes_eq}

pub bytes_eq_sound : (a b : Bytes) → bytes_eq a b ≡ true → a ≡ b
unfolding bytes_eq
bytes_eq_sound [] [] h = refl
bytes_eq_sound [] (d ∷ b) h = cc
bytes_eq_sound (c ∷ a) [] h = cc
bytes_eq_sound (c ∷ a) (d ∷ b) h =
    let (p, q) = &&-eq-true (c == d) (bytes_eq a b) h in cc ((==_iff c d).0 p, bytes_eq_sound a b q)

pub bytes_eq_refl : (a : Bytes) → bytes_eq a a ≡ true
unfolding bytes_eq
bytes_eq_refl [] = refl
bytes_eq_refl (c ∷ a) = ground (arith, bytes_eq_refl a)

pub bytes_eq_iff : (a b : Bytes) → (bytes_eq a b ≡ true) ↔ (a ≡ b)
bytes_eq_iff a b = (bytes_eq_sound a b, λ e. bytes_eq_complete e)
  where
    bytes_eq_complete : a ≡ b → bytes_eq a b ≡ true
    bytes_eq_complete e = rw (← e) (bytes_eq_refl a)
