-- ===== src/Db/Children/Named.antt =====
-- get_children on the rows that the program writes, whose name is NULL.
use school_meals.Base.{
  ◌≡◌, refl, ap, ◌∙◌, Bool, Bool-cases, inl, inr, true, false, Option, none, some, List, [], ◌∷◌,
  ◌++◌, ◌>>=◌, map, keep, any, All, if◌then◌else◌,
}
use school_meals.CString.{Bytes, bytes, bytes_eq}
use school_meals.Db.{Row, Engine}
use school_meals.Db.Tables.{UserRow, ChildRow, Tables, has_id}
use school_meals.Db.WellFormed.{IsLinked, WellFormed}
use school_meals.Db.Children.{
  sql_children_users, ChildBuffer, child_of_row, child_buffers, children_json, get_children_raw,
  listed, get_children, child_columns, child_users, Joins,
}

abbrev pub is_child_of : Bytes → ChildRow → Bool
is_child_of parent_id c = bytes_eq c.parent_id parent_id

-- The program never writes the column name.
abbrev pub IsUnnamed : UserRow → Type 0
IsUnnamed u = u.name ≡ none

abbrev StartsUnnamed : List UserRow → Type 0
StartsUnnamed us = (u : UserRow) × (rest : List UserRow) × (us ≡ u ∷ rest) × IsUnnamed u

keep-StartsUnnamed :
    (p : UserRow → Bool) (us : List UserRow)
    → any p us ≡ true
    → All IsUnnamed us
    → StartsUnnamed (keep p us)
keep-StartsUnnamed p [] h named = cc
keep-StartsUnnamed p (u ∷ us) h (hu, hs) = elim (Bool-cases (p u)) [
  | inl yes_kept ↦ rw yes_kept ((u, keep p us, refl, hu))
  | inr dropped ↦ rw dropped (keep-StartsUnnamed p us (rw dropped at h) hs)
]

append-StartsUnnamed : (us vs : List UserRow) → StartsUnnamed us → StartsUnnamed (us ++ vs)
append-StartsUnnamed us vs (u, rest, same, hu) =
    (u, rest ++ vs, ap (λ (l : List UserRow). l ++ vs) same, hu)

child_users-StartsUnnamed :
    (parent_id : Bytes) (us : List UserRow) (cs : List ChildRow)
    → All IsUnnamed us
    → All (IsLinked us) cs
    → any (is_child_of parent_id) cs ≡ true
    → StartsUnnamed (child_users parent_id us cs)
child_users-StartsUnnamed p us [] hu hl h = cc
child_users-StartsUnnamed p us (c ∷ cs) hu (hc, hl) h = elim (Bool-cases (bytes_eq c.parent_id p)) [
  | inl own ↦ rw own (
      append-StartsUnnamed (keep (has_id c.child_id) us) _
        (keep-StartsUnnamed (has_id c.child_id) us hc.0 hu))
  | inr other ↦ rw other (child_users-StartsUnnamed p us cs hu hl (rw other at h))
]

child_users-empty :
    (parent_id : Bytes) (us : List UserRow) (cs : List ChildRow)
    → any (is_child_of parent_id) cs ≡ false
    → child_users parent_id us cs ≡ []
child_users-empty p us [] h = refl
child_users-empty p us (c ∷ cs) h = elim (Bool-cases (bytes_eq c.parent_id p)) [
  | inl own ↦ absurd (cc (rw own at h))
  | inr other ↦ rw other (child_users-empty p us cs (rw other at h))
]

child_of_row-unnamed : (u : UserRow) → IsUnnamed u → child_of_row (child_columns u) ≡ none
unfolding child_of_row
child_of_row-unnamed u h = rw h refl

child_buffers-unnamed :
    (u : UserRow) (rows : List Row) → IsUnnamed u → child_buffers 0 (child_columns u ∷ rows) ≡ none
unfolding child_buffers
child_buffers-unnamed u rows h = rw (child_of_row-unnamed u h) refl

module _ (e : Engine) (db : e.Db) (parent_id : Bytes) where
  get_children-of_buffers :
      (rows : List Row)
      → e.prepare db sql_children_users ≡ true
      → e.rows db sql_children_users (parent_id ∷ []) ≡ rows
      → get_children e db parent_id
        ≡ ((do children ← child_buffers 0 rows; some (some children)) >>= listed)
  unfolding get_children get_children_raw
  get_children-of_buffers rows prepared is = rw (prepared, is) refl

no_buffers : child_buffers 0 [] ≡ some []
unfolding child_buffers
no_buffers = refl

nobody : listed (some []) ≡ some (true, bytes "[]")
unfolding children_json
nobody = refl

module _ (e : Engine) (view : e.Db → Tables) (j : Joins e view) (db : e.Db) where
  -- In well-formed tables whose users have no name, as add_user leaves them, get_children gives the
  -- empty list for a parent without children, and reads a null pointer as the name of the first
  -- child where there is one.
  pub get_children_unnamed :
      (parent_id : Bytes)
      → WellFormed (view db)
      → All IsUnnamed (view db).users
      → get_children e db parent_id
        ≡ (if any (is_child_of parent_id) (view db).children then none else some (true, bytes "[]"))
  get_children_unnamed parent_id wf unnamed =
      elim (Bool-cases (any (is_child_of parent_id) (view db).children)) [
        | inl some_child ↦
            let (u, rest, same, hu) =
              child_users-StartsUnnamed parent_id _ _ unnamed wf.links some_child in
            rw some_child (
              get_children-of_buffers e db parent_id _ (j.prepares db)
                (j.rows_children_users db parent_id ∙ ap (map child_columns) same)
              ∙ rw (child_buffers-unnamed u (map child_columns rest) hu) refl)
        | inr no_child ↦ rw no_child (
            get_children-of_buffers e db parent_id _ (j.prepares db) (
              j.rows_children_users db parent_id
              ∙ ap (map child_columns) (child_users-empty parent_id _ _ no_child))
            ∙ ap
                (λ (o : Option (List ChildBuffer)).
                  (do children ← o; some (some children)) >>= listed)
                no_buffers
            ∙ nobody)
      ]
