-- ===== src/Metadata/Directories/Moving.antt =====
-- The move of a subtree: which rows it changes, that it keeps the keys unique, and that its prefix
-- is read as a pattern.
use stardustfs.Prelude.{
  Text, true, none, some, List, [], ◌∷◌, ◌++◌, ◌≡◌, ◌≢◌, refl, arith, ◌==◌, text_eq, eq_iff,
  if◌then◌else◌, map, length, drop, append-nil, ok, Bool-cases, Result-cases, inl, inr,
  append_assoc, ◌∙◌, subst,
}
use stardustfs.Table.{find_row, IsUnique}
use stardustfs.Like.{like_prefix}
use stardustfs.Metadata.{Db, path_of, directory_of, with_path}
use stardustfs.Metadata.Directories.{move_prefix, moved_key, with_directory_path, rename_directory}

module _ {R : Type 0} (key : R → Text) where
  find_row-middle :
      (q : Text) (r : R) (xs ys : List R)
      → find_row key (key r) (xs ++ ys) ≡ none
      → find_row key q (xs ++ r ∷ ys) ≡ (if key r == q then some r else find_row key q (xs ++ ys))
  unfolding find_row
  find_row-middle q r [] ys h = refl
  find_row-middle q r (x ∷ xs) ys h =
      ground (
        arith,
        eq_iff (key x) q,
        eq_iff (key r) q,
        eq_iff (key x) (key r),
        find_row-middle q r xs ys,
      )

  IsUnique-middle :
      (r : R) (xs ys : List R)
      → find_row key (key r) (xs ++ ys) ≡ none
      → IsUnique key (xs ++ ys)
      → IsUnique key (xs ++ r ∷ ys)
  unfolding find_row
  IsUnique-middle r [] ys h u = (h, u)
  IsUnique-middle r (x ∷ xs) ys h u = ground (
    arith,
    eq_iff (key x) (key r),
    eq_iff (key r) (key x),
    find_row-middle (key x) r xs ys,
    IsUnique-middle r xs ys,
  )

  find_row-without :
      (q : Text) (r : R) (xs ys : List R)
      → find_row key q (xs ++ r ∷ ys) ≡ none
      → (find_row key q (xs ++ ys) ≡ none) × (key r ≢ q)
  unfolding find_row
  find_row-without q r [] ys h = ground (arith, eq_iff (key r) q)
  find_row-without q r (x ∷ xs) ys h = ground (arith, find_row-without q r xs ys)

  IsUnique-without :
      (r : R) (xs ys : List R) → IsUnique key (xs ++ r ∷ ys) → IsUnique key (xs ++ ys)
  IsUnique-without r [] ys u = u.1
  IsUnique-without r (x ∷ xs) ys u =
      ground (arith, find_row-without (key x) r xs ys u.0, IsUnique-without r xs ys u.1)

module _ {R : Type 0} (key : R → Text) (set_key : Text → R → R) (old new : Text) where
  -- The row with the new prefix, if LIKE takes its key for one with the old prefix.
  abbrev pub moved : R → R
  moved r = if like_prefix old (key r) then set_key (new ++ drop (length old) (key r)) r else r

  move_prefix-cons :
      (before rows out : List R) (r : R)
      → move_prefix key set_key old new before (r ∷ rows) ≡ ok out
      → (move_prefix key set_key old new (before ++ moved r ∷ []) rows ≡ ok out)
        × (like_prefix old (key r) ≡ true
            → find_row key (moved_key key set_key old new r) (before ++ rows) ≡ none)
  unfolding move_prefix
  move_prefix-cons before rows out r h = elim (Bool-cases (like_prefix old (key r))) [
    | inl here ↦ (ground arith, λ same. ground arith)
    | inr elsewhere ↦ (ground arith, λ same. cc)
  ]

  -- A move that is accepted changes exactly the rows that LIKE selects, all of them, in place.
  pub move_prefix-eq-map :
      (before rows out : List R)
      → move_prefix key set_key old new before rows ≡ ok out
      → out ≡ before ++ map moved rows
  unfolding move_prefix
  move_prefix-eq-map before [] out h = cc (append-nil before)
  move_prefix-eq-map before (r ∷ rows) out h =
      let (rest, free) = move_prefix-cons before rows out r h in
      move_prefix-eq-map (before ++ moved r ∷ []) rows out rest
      ∙ append_assoc before (moved r ∷ []) (map moved rows)

  IsUnique-moved :
      ((p : Text) (r : R) → key (set_key p r) ≡ p)
      → (before rows : List R) (r : R) → IsUnique key (before ++ r ∷ rows)
      → (like_prefix old (key r) ≡ true
          → find_row key (moved_key key set_key old new r) (before ++ rows) ≡ none)
      → IsUnique key (before ++ moved r ∷ rows)
  IsUnique-moved sets before rows r u free = elim (Bool-cases (like_prefix old (key r))) [
    | inl here ↦ rw here (
        IsUnique-middle key (set_key (moved_key key set_key old new r) r) before rows
          (rw sets (free here)) (IsUnique-without key r before rows u))
    | inr elsewhere ↦ rw elsewhere u
  ]

  pub move_prefix-IsUnique :
      ((p : Text) (r : R) → key (set_key p r) ≡ p)
      → (before rows out : List R) → IsUnique key (before ++ rows)
      → move_prefix key set_key old new before rows ≡ ok out
      → IsUnique key out
  unfolding move_prefix
  move_prefix-IsUnique sets before [] out u h =
      let e : before ++ [] ≡ out = cc (append-nil before) in subst (IsUnique key) e u
  move_prefix-IsUnique sets before (r ∷ rows) out u h =
      let (rest, free) = move_prefix-cons before rows out r h in
      move_prefix-IsUnique sets (before ++ moved r ∷ []) rows out
        (rw (append_assoc before (moved r ∷ []) rows) (IsUnique-moved sets before rows r u free))
        rest

-- Where both tables have unique keys, a move of a directory that returns has moved exactly the rows whose paths LIKE takes for paths
-- with the old prefix, of both tables and with all they hold, and has kept both tables' keys unique.
pub rename_directory_lem :
    (old new : Text) (db : Db)
    → IsUnique path_of db.files
    → IsUnique directory_of db.directories
    → (rename_directory old new db).0 ≡ ok tt
    → let db' = (rename_directory old new db).1 in
      (db'.files ≡ map (moved path_of with_path old new) db.files)
      × (db'.directories ≡ map (moved directory_of with_directory_path old new) db.directories)
      × IsUnique path_of db'.files
      × IsUnique directory_of db'.directories
unfolding rename_directory
rename_directory_lem old new db unique apart done =
    elim (Result-cases (move_prefix path_of with_path old new [] db.files)) [
      | inr (e, refused) ↦ ground arith
      | inl (files, e) ↦
          elim (Result-cases
            (move_prefix directory_of with_directory_path old new [] db.directories)) [
              | inr (e', refused) ↦ ground arith
              | inl (directories, e') ↦
                  rw (e, rename_directory)
                    (rw (e', rename_directory)
                      (
                        move_prefix-eq-map path_of with_path old new [] db.files files e,
                        move_prefix-eq-map directory_of with_directory_path old new []
                            db.directories directories e',
                        move_prefix-IsUnique path_of with_path old new (λ p r. refl) [] db.files
                            files unique e,
                        move_prefix-IsUnique directory_of with_directory_path old new (λ p r. refl)
                            [] db.directories directories apart e',
                      ))
            ]
    ]
