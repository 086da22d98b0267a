-- ===== src/Db/WellFormed.antt =====
-- The invariant of the tables: the keys are keys, the foreign keys lead somewhere, and each column
-- that the server reads is there and fits the field that it is copied into.
pub mod Keys
pub mod Kept
use school_meals.Base.{
  ℕ, ◌<◌, ◌≡◌, Bool, true, false, Option, none, some, List, [], ◌∷◌, length, any, All,
}
use school_meals.CString.{Bytes}
use school_meals.Db.Tables.{UserRow, ChildRow, Tables, has_id, is_pair}

-- The text of a column that is not NULL is shorter than n bytes.
abbrev pub Fits : ℕ → Option Bytes → Type 0
Fits n none = ⊥
Fits n (some s) = length s < n

-- strncpy of at most size - 1 bytes leaves a terminator in a field that was not zeroed.
pub record IsRow (u : UserRow) : Type 0 where
  pub role : length u.role < 19
  pub edu_office : Fits 49 u.edu_office
  pub school_name : Fits 49 u.school_name

abbrev pub Unique : List UserRow → Type 0
Unique [] = Unit
Unique (u ∷ us) = (any (has_id u.id) us ≡ false) × Unique us

abbrev pub UniquePairs : List ChildRow → Type 0
UniquePairs [] = Unit
UniquePairs (c ∷ cs) = (any (is_pair c.child_id c.parent_id) cs ≡ false) × UniquePairs cs

abbrev pub IsLinked : List UserRow → ChildRow → Type 0
IsLinked us c = (any (has_id c.child_id) us ≡ true) × (any (has_id c.parent_id) us ≡ true)

pub record WellFormed (t : Tables) : Type 0 where
  pub ids : Unique t.users
  pub rows : All IsRow t.users
  pub links : All (IsLinked t.users) t.children
  pub pairs : UniquePairs t.children
