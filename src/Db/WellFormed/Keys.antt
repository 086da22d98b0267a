-- ===== src/Db/WellFormed/Keys.antt =====
-- How the tests on ids and on pairs fare when rows are added, changed and dropped.
use school_meals.Base.{
  ◌≡◌, refl, Bool, true, false, not, ◌||◌, List, [], ◌∷◌, ◌++◌, map, keep, any, All, arith,
  if◌then◌else◌,
}
use school_meals.CString.{Bytes, bytes_eq}
use school_meals.CString.Equal.{bytes_eq_iff}
use school_meals.Db.Tables.{UserRow, ChildRow, has_id, is_pair, updated}
use school_meals.Db.WellFormed.{Unique, UniquePairs}

module _ {ℓ} {A : Type ℓ} (p : A → Bool) where
  pub any-append : (xs ys : List A) → any p (xs ++ ys) ≡ (any p xs || any p ys)
  any-append [] ys = refl
  any-append (x ∷ xs) ys = ground (arith, any-append xs ys)

  pub any-keep-false : (q : A → Bool) (xs : List A) → any p xs ≡ false → any p (keep q xs) ≡ false
  any-keep-false q [] h = refl
  any-keep-false q (x ∷ xs) h = ground (arith, any-keep-false q xs)

module _ {ℓ κ} {A : Type ℓ} (P : A → Type κ) where
  All-if : (b : Bool) (x : A) (xs : List A) → P x → All P xs → All P (if b then x ∷ xs else xs)
  All-if true x xs px h = (px, h)
  All-if false x xs px h = h

  pub All-keep : (q : A → Bool) (xs : List A) → All P xs → All P (keep q xs)
  All-keep q [] h = tt
  All-keep q (x ∷ xs) (px, h) = All-if (q x) x (keep q xs) px (All-keep q xs h)

-- An update changes no id.
pub any-map-updated :
    (i pw edu_office school_name id : Bytes) (us : List UserRow)
    → any (has_id i) (map (updated pw edu_office school_name id) us) ≡ any (has_id i) us
any-map-updated i pw o s id [] = refl
any-map-updated i pw o s id (u ∷ us) = ground (arith, any-map-updated i pw o s id us)

-- Dropping the rows of one id loses no other id.
pub any-keep_other :
    (i id : Bytes) (us : List UserRow)
    → bytes_eq i id ≡ false
    → any (has_id i) (keep (λ u. not (has_id id u)) us) ≡ any (has_id i) us
any-keep_other i id [] h = refl
any-keep_other i id (u ∷ us) h =
    ground (
      arith,
      any-keep_other i id us h,
      bytes_eq_iff u.id id,
      bytes_eq_iff u.id i,
      bytes_eq_iff i id,
    )

pub bytes_eq_comm : (a b : Bytes) → bytes_eq a b ≡ bytes_eq b a
bytes_eq_comm a b = ground (arith, bytes_eq_iff a b, bytes_eq_iff b a)

pub Unique-append :
    (us : List UserRow) (u : UserRow)
    → Unique us
    → any (has_id u.id) us ≡ false
    → Unique (us ++ u ∷ [])
Unique-append [] u h new = (refl, tt)
Unique-append (v ∷ us) u (hv, h) new = (
  ground (arith, any-append {0} (has_id v.id) us (u ∷ []), bytes_eq_comm v.id u.id),
  Unique-append us u h (ground arith),
)

Unique-if :
    (b : Bool) (u : UserRow) (us : List UserRow)
    → any (has_id u.id) us ≡ false
    → Unique us
    → Unique (if b then u ∷ us else us)
Unique-if true u us hu h = (hu, h)
Unique-if false u us hu h = h

pub Unique-keep : (q : UserRow → Bool) (us : List UserRow) → Unique us → Unique (keep q us)
Unique-keep q [] h = tt
Unique-keep q (u ∷ us) (hu, h) =
    Unique-if (q u) u (keep q us) (any-keep-false (has_id u.id) q us hu) (Unique-keep q us h)

pub Unique-map :
    (pw edu_office school_name id : Bytes) (us : List UserRow)
    → Unique us
    → Unique (map (updated pw edu_office school_name id) us)
Unique-map pw o s id [] h = tt
Unique-map pw o s id (u ∷ us) (hu, h) =
    (ground (arith, any-map-updated u.id pw o s id us), Unique-map pw o s id us h)

pub UniquePairs-append :
    (cs : List ChildRow) (c : ChildRow)
    → UniquePairs cs
    → any (is_pair c.child_id c.parent_id) cs ≡ false
    → UniquePairs (cs ++ c ∷ [])
UniquePairs-append [] c h new = (refl, tt)
UniquePairs-append (d ∷ cs) c (hd, h) new = (
  ground (
    arith,
    any-append {0} (is_pair d.child_id d.parent_id) cs (c ∷ []),
    bytes_eq_comm c.child_id d.child_id,
    bytes_eq_comm c.parent_id d.parent_id,
  ),
  UniquePairs-append cs c h (ground arith),
)

UniquePairs-if :
    (b : Bool) (c : ChildRow) (cs : List ChildRow)
    → any (is_pair c.child_id c.parent_id) cs ≡ false
    → UniquePairs cs
    → UniquePairs (if b then c ∷ cs else cs)
UniquePairs-if true c cs hc h = (hc, h)
UniquePairs-if false c cs hc h = h

pub UniquePairs-keep :
    (q : ChildRow → Bool) (cs : List ChildRow) → UniquePairs cs → UniquePairs (keep q cs)
UniquePairs-keep q [] h = tt
UniquePairs-keep q (c ∷ cs) (hc, h) =
    UniquePairs-if (q c) c (keep q cs) (any-keep-false (is_pair c.child_id c.parent_id) q cs hc)
      (UniquePairs-keep q cs h)
