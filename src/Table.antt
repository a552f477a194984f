-- ===== src/Table.antt =====
-- A SQL table whose rows have a unique text key, as the list of its rows in the order of their
-- row ids. The statements of stardustlib/metadata_store.py are calls of these.
pub mod Laws
pub mod Fresh
use stardustfs.Prelude.{
  Text, Bool, true, false, Option, none, some, List, [], ◌∷◌, ◌++◌, ◌==◌, text_eq, is_some,
  if◌then◌else◌, ◌&&◌, not, Result, ok, err, unique_violation, ◌≡◌, filter,
}

module _ {R : Type 0} (key : R → Text) where
  -- SELECT ... WHERE key = ?, of which the program reads the first row.
  unfoldable pub find_row : Text → List R → Option R
  find_row p [] = none
  find_row p (r ∷ rows) = if key r == p then some r else find_row p rows

  -- UPDATE ... SET ... WHERE key = ?
  unfoldable pub update_rows : Text → (R → R) → List R → List R
  update_rows p f [] = []
  update_rows p f (r ∷ rows) = (if key r == p then f r else r) ∷ update_rows p f rows

  -- INSERT: a second row with the key violates the constraint UNIQUE.
  unfoldable pub insert_row : R → List R → Result (List R)
  insert_row r rows =
      if is_some (find_row (key r) rows) then err unique_violation else ok (rows ++ r ∷ [])

  -- UPDATE ... SET key = new WHERE key = old, where `f` gives a row the new key.
  unfoldable pub rekey_row : (R → R) → Text → Text → List R → Result (List R)
  rekey_row f old new rows =
      if is_some (find_row old rows) && not (old == new) && is_some (find_row new rows)
      then err unique_violation
      else ok (update_rows old f rows)

  -- No two rows have the same key.
  abbrev pub IsUnique : List R → Type 0
  IsUnique [] = Unit
  IsUnique (r ∷ rows) = (find_row (key r) rows ≡ none) × IsUnique rows
