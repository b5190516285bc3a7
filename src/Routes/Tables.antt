-- ===== src/Routes/Tables.antt =====
-- A table whose rows have an id and belong to a user under a name, with a unique constraint on user
-- and name: the queries and changes that the routes of bridge/main.py make on such a table.
mod Filtered
pub mod Kept
use gpu_relay.Common.{
  String, str_eq, eq_iff, eq_refl, ◌≡◌, refl, sym, subst, ◌⊎◌, inl, inr, Bool, true, false, not,
  ◌&&◌, Option, none, some, List, [], ◌∷◌, filter, find, map, All, Result, ok, err, runtime_error,
  if◌then◌else◌, arith, Bool-cases,
}

-- `scalar_one_or_none()`: more than one row raises.
unfoldable pub scalar_one_or_none : {R : Type 0} → List R → Result (Option R)
scalar_one_or_none [] = ok none
scalar_one_or_none (r ∷ []) = ok (some r)
scalar_one_or_none (r ∷ s ∷ rows) = err runtime_error

-- The columns of the constraints.
pub record Columns (R : Type 0) : Type 0 where
  pub id_of : R → String
  pub user_of : R → String
  pub name_of : R → String

module _ {R : Type 0} (c : Columns R) where
  -- `where(Row.user_id == user, Row.<name> == name)`
  abbrev pub owned : String → String → R → Bool
  owned user name row = str_eq (c.user_of row) user && str_eq (c.name_of row) name

  abbrev pub has_id : String → R → Bool
  has_id id row = str_eq (c.id_of row) id

  -- The query for one row.
  unfoldable pub select_one : String → String → List R → Result (Option R)
  select_one user name rows = scalar_one_or_none (filter (owned user name) rows)

  -- A change of the object that a query has answered, which the session writes under its id.
  unfoldable pub change_row : String → (R → R) → List R → List R
  change_row id f rows = map (λ row. if has_id id row then f row else row) rows

  -- `session.delete(row)`
  unfoldable pub delete_row : String → List R → List R
  delete_row id rows = filter (λ row. not (has_id id row)) rows

  -- No two rows have the same id, or the same user and name.
  abbrev pub Keyed : List R → Type 0
  Keyed [] = Unit
  Keyed (row ∷ rows) =
      All (λ s. has_id (c.id_of row) s ≡ false) rows
      × All (λ s. owned (c.user_of row) (c.name_of row) s ≡ false) rows
      × Keyed rows
