-- ===== src/Table/Fresh.antt =====
-- The rows of a table without those of one key, for the searches of a key that is free.
use stardustfs.Prelude.{
  Text, none, List, [], ◌∷◌, ◌≤◌, ◌<◌, ◌≡◌, ◌≢◌, refl, arith, not, ◌==◌, text_eq, eq_iff, length,
  filter,
}
use stardustfs.Table.{find_row}

module _ {R : Type 0} (key : R → Text) (p : Text) where
  length-filter_ne : (rows : List R) → length (filter (λ r. not (key r == p)) rows) ≤ length rows
  length-filter_ne [] = omega arith
  length-filter_ne (r ∷ rows) = ground (arith, length-filter_ne rows)

  pub length-filter_found :
      (rows : List R)
      → find_row key p rows ≢ none
      → length (filter (λ r. not (key r == p)) rows) < length rows
  unfolding find_row
  length-filter_found [] h = absurd (h refl)
  length-filter_found (r ∷ rows) h = ground (arith, length-filter_ne rows, length-filter_found rows)

  pub find_row-filter_ne :
      (q : Text) (rows : List R)
      → p ≢ q
      → find_row key q (filter (λ r. not (key r == p)) rows) ≡ find_row key q rows
  unfolding find_row
  find_row-filter_ne q [] ne = refl
  find_row-filter_ne q (r ∷ rows) ne =
      ground (arith, eq_iff (key r) p, eq_iff (key r) q, find_row-filter_ne q rows ne)
