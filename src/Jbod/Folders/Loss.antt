-- ===== src/Jbod/Folders/Loss.antt =====
-- What a move of a directory does to the physical files below it.
use stardustfs.Prelude.{
  Text, Bool, true, false, none, some, List, [], ◌∷◌, ◌++◌, map, ◌&&◌, not, ◌==◌, text_eq, eq_iff,
  if◌then◌else◌, Result, ok, err, filter, ◌≡◌, refl, arith, sym, ap, ◌∙◌, subst, Bool-cases,
  Result-cases, inl, inr, append-nil,
}
use stardustfs.Paths.{slash, lstrip_slash, rstrip_slash}
use stardustfs.Like.{like_prefix}
use stardustfs.Like.Laws.{starts_with}
use stardustfs.Table.{find_row, rekey_row}
use stardustfs.Table.Laws.{find_row-map, map_option}
use stardustfs.Metadata.{Db, DirectoryRow, Row, path_of, directory_of, with_path}
use stardustfs.Metadata.Directories.{
  rename_directory, move_prefix, moved_key, with_directory_path, with_slash,
}
use stardustfs.Source.{
  Source, Fault, fine, denied, failed, Kind, directory, remote, loopback, deactivate,
  deactivated_by_fault, PhysicalFile, file_name, rmdir, Removal, emptied, stopped, without_below,
}
use stardustfs.Source.Folders.{mkdir}
use stardustfs.Jbod.{Jbod, id_of, is_usable, get_source_by_id}
use stardustfs.Jbod.Folders.{
  has_path, remove_if_there, move_in_source, move_directory, move_sources, with_directories,
  rename_both,
}

find_row-filter_out :
    (p : Text) (test : PhysicalFile → Bool) (files : List PhysicalFile)
    → ((f : PhysicalFile) → file_name f ≡ p → test f ≡ false)
    → find_row file_name p (filter test files) ≡ none
unfolding find_row
find_row-filter_out p test [] out = refl
find_row-filter_out p test (f ∷ files) out =
    ground (arith, out f, eq_iff (file_name f) p, find_row-filter_out p test files out)

-- A name below a path that is not there is not there.
find_row-has_path :
    (path p : Text) (files : List PhysicalFile)
    → starts_with (path ++ slash ∷ []) p ≡ true
    → has_path path files ≡ false
    → find_row file_name p files ≡ none
unfolding find_row has_path
find_row-has_path path p [] below missing = refl
find_row-has_path path p (f ∷ files) below missing = elim (Bool-cases (file_name f == p)) [
  | inl same ↦
      let e : file_name f ≡ p = ground (arith, eq_iff (file_name f) p) in
      let down : starts_with (path ++ slash ∷ []) (file_name f) ≡ true = rw e below in ground arith
  | inr other ↦ ground (arith, find_row-has_path path p files)
]

move_in_source_empties :
    (faults : Text → Fault) (removals : Text → Removal) (src p : Text) (s : Source)
    → is_usable s ≡ true
    → faults (id_of s) ≡ fine
    → removals (id_of s) ≡ emptied
    → starts_with (src ++ slash ∷ []) p ≡ true
    → find_row file_name p (move_in_source faults removals src s).files ≡ none
unfolding move_in_source mkdir rmdir
move_in_source_empties faults removals src p s usable quiet all_gone below =
    let active : s.is_active ≡ true = ground arith in
    let made : mkdir (faults (id_of s)) s ≡ (ok tt, s) = rw (quiet, mkdir) (ground arith) in
    let step : move_in_source faults removals src s
        ≡ (if has_path src s.files then (rmdir emptied src s).1 else s) =
      rw (move_in_source, usable, made, all_gone) refl in
    subst (λ t. find_row file_name p t.files ≡ none) (sym step)
      (elim (Bool-cases (has_path src s.files)) [
        | inl there ↦
            rw (there, rmdir, active)
              (find_row-filter_out p
                (λ f. not (starts_with (src ++ slash ∷ []) (file_name f) && true)) s.files
                (λ f same. rw same (ground arith)))
        | inr missing ↦ rw missing (find_row-has_path src p s.files below missing)
      ])

abbrev physical_paths : List Row → List Text
physical_paths rows = map (λ r. r.physical_path) rows

physical_paths-replace :
    (before rows : List Row) (r r' : Row)
    → r'.physical_path ≡ r.physical_path
    → physical_paths ((before ++ r' ∷ []) ++ rows) ≡ physical_paths (before ++ r ∷ rows)
physical_paths-replace [] rows r r' same = ap (λ t. t ∷ physical_paths rows) same
physical_paths-replace (x ∷ before) rows r r' same =
    ap (λ l. x.physical_path ∷ l) (physical_paths-replace before rows r r' same)

-- The move of a prefix leaves the physical paths as they are.
physical_paths-move_prefix :
    (old new : Text) (before rows rows' : List Row)
    → move_prefix path_of with_path old new before rows ≡ ok rows'
    → physical_paths rows' ≡ physical_paths (before ++ rows)
unfolding move_prefix
physical_paths-move_prefix old new before [] rows' h =
    let same : before ≡ rows' = ground arith in
    ap physical_paths (sym same ∙ sym (append-nil before))
physical_paths-move_prefix old new before (r ∷ rows) rows' h =
    let r' = with_path (moved_key path_of with_path old new r) r in
    elim (Bool-cases (like_prefix old (path_of r))) [
      | inr other ↦
          physical_paths-move_prefix old new (before ++ r ∷ []) rows rows' (ground arith)
          ∙ physical_paths-replace before rows r r refl
      | inl below ↦
          physical_paths-move_prefix old new (before ++ r' ∷ []) rows rows' (ground arith)
          ∙ physical_paths-replace before rows r r' refl
    ]

id_of-deactivated : (s : Source) → id_of (deactivated_by_fault s) ≡ id_of s
id_of-deactivated s = go s.kind
  where
    go : (k : Kind) → id_of (deactivated_by_fault (record s { kind = k })) ≡ id_of s
    go directory = unfold deactivate in refl
    go remote = refl
    go (loopback size) = refl

id_of-mkdir : (fault : Fault) (s : Source) → id_of (mkdir fault s).1 ≡ id_of s
unfolding mkdir
id_of-mkdir fine s = ground arith
id_of-mkdir denied s = ground (arith, id_of-deactivated s)
id_of-mkdir (failed part) s = ground (arith, id_of-deactivated s)

id_of-remove_if_there :
    (removal : Removal) (src : Text) (outcome : Result (Unit {0}) × Source)
    → id_of (remove_if_there removal src outcome) ≡ id_of outcome.1
unfolding rmdir
id_of-remove_if_there removal src (err e, s) = refl
id_of-remove_if_there emptied src (ok u, s) = ground arith
id_of-remove_if_there (stopped e gone) src (ok u, s) =
    ground (arith, id_of-deactivated (without_below src gone s))

id_of-move_in_source :
    (faults : Text → Fault) (removals : Text → Removal) (src : Text) (s : Source)
    → id_of (move_in_source faults removals src s) ≡ id_of s
unfolding move_in_source
id_of-move_in_source faults removals src s = elim (Bool-cases (is_usable s)) [
  | inl usable ↦
      rw (move_in_source, usable)
        (id_of-remove_if_there (removals (id_of s)) src (mkdir (faults (id_of s)) s)
          ∙ id_of-mkdir (faults (id_of s)) s)
  | inr unusable ↦ rw (move_in_source, unusable) refl
]

-- The metadata's physical paths after each of the two renames, also where it raises.
physical_paths-rename_directory :
    (old new : Text) (db : Db)
    → physical_paths (rename_directory old new db).1.files ≡ physical_paths db.files
unfolding rename_directory
physical_paths-rename_directory old new db =
    elim (Result-cases (move_prefix path_of with_path old new [] db.files)) [
      | inr (e, stops) ↦ rw (rename_directory, stops) refl
      | inl (files, moved) ↦
          let kept = physical_paths-move_prefix old new [] db.files files moved in
          elim (Result-cases
            (move_prefix directory_of with_directory_path old new [] db.directories)) [
              | inr (e, stops) ↦ rw (rename_directory, moved, stops) kept
              | inl (directories, renamed) ↦ rw (rename_directory, moved, renamed) kept
            ]
    ]

files-with_directories :
    (db : Db) (r : Result (List DirectoryRow)) → (with_directories db r).1.files ≡ db.files
files-with_directories db (err e) = refl
files-with_directories db (ok directories) = refl

files-rename_both :
    (src dst : Text) (outcome : Result (Unit {0}) × Db)
    → (rename_both src dst outcome).1.files ≡ outcome.1.files
files-rename_both src dst (err e, db) = refl
files-rename_both src dst (ok u, db) = files-with_directories db (
    rekey_row directory_of (with_directory_path (rstrip_slash dst)) (rstrip_slash src)
      (rstrip_slash dst) db.directories)

moved_state :
    (faults : Text → Fault) (removals : Text → Removal) (src : Text) (db : Db)
    (r : Result (Unit {0})) (j j' : Jbod)
    → move_sources faults removals src db r j ≡ (ok tt, j')
    → (map (move_in_source faults removals (lstrip_slash src)) j.sources ≡ j'.sources)
      × (db ≡ j'.metadata_store)
moved_state faults removals src db (err e) j j' done = ground arith
moved_state faults removals src db (ok u) j j' done =
    (ap (λ o. o.1.sources) done, ap (λ o. o.1.metadata_store) done)

-- A move of a directory that returns takes the physical files below it away: in every usable source
-- whose system makes the new directory and removes the old one no file is left whose physical path begins with the directory's,
-- although the physical paths in the metadata are the same as before.
pub move_directory_loses :
    (faults : Text → Fault) (removals : Text → Removal) (src dst id p : Text) (j j' : Jbod)
    (s : Source)
    → move_directory faults removals src dst j ≡ (ok tt, j')
    → get_source_by_id id j ≡ some s
    → is_usable s ≡ true
    → faults (id_of s) ≡ fine
    → removals (id_of s) ≡ emptied
    → starts_with (lstrip_slash src ++ slash ∷ []) p ≡ true
    → ((s' : Source) × (get_source_by_id id j' ≡ some s') × (find_row file_name p s'.files ≡ none))
      × (map (λ r. r.physical_path) j'.metadata_store.files
          ≡ map (λ r. r.physical_path) j.metadata_store.files)
unfolding move_directory
move_directory_loses faults removals src dst id p j j' s done there usable quiet all_gone below =
    let renamed = rename_directory (with_slash src) (with_slash dst) j.metadata_store in
    let outcome = rename_both src dst renamed in
    let (sources, db) = moved_state faults removals src outcome.1 outcome.0 j j' done in
    let path = lstrip_slash src in
    (
      (
        move_in_source faults removals path s,
        ap (find_row id_of id) (sym sources)
            ∙ find_row-map id_of id_of (move_in_source faults removals path) id j.sources
                (id_of-move_in_source faults removals path)
            ∙ ap (map_option (move_in_source faults removals path)) there,
        move_in_source_empties faults removals path p s usable quiet all_gone below,
      ),
      ap (λ d. physical_paths d.files) (sym db)
          ∙ ap physical_paths (files-rename_both src dst renamed)
          ∙ physical_paths-rename_directory (with_slash src) (with_slash dst) j.metadata_store,
    )
