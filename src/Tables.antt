-- ===== src/Tables.antt =====
-- A table of the state store (crates/pengu-mesh-state/src/lib.rs) whose primary key is a text column:
-- the list of its rows in the order of insertion, and the statements that the store makes on it.
pub mod Laws
pub mod Query
pub mod Newest
use pengu_mesh.Prelude.{
  Bool, Option, List, [], ◌∷◌, ◌++◌, map, if◌then◌else◌, Text, text_eq, exists, find_first,
}

module _ {A : Type 0} (key : A → Text) where
  -- `WHERE id = ?1`.
  unfoldable pub find_row : List A → Text → Option A
  find_row rows k = find_first (λ r. text_eq (key r) k) rows

  -- A row has the key: an `INSERT` violates the primary key.
  unfoldable pub key_taken : List A → Text → Bool
  key_taken rows k = exists (λ r. text_eq (key r) k) rows

  abbrev pub replaced : A → A → A
  replaced a r = if text_eq (key r) (key a) then a else r

  -- `UPDATE ... SET ... WHERE id = ?1`, with a value for each of the other columns.
  unfoldable pub update_row : List A → A → List A
  update_row rows a = map (replaced a) rows
