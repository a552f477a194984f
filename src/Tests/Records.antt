-- ===== src/Tests/Records.antt =====
-- Tests of the metadata database, of the merge and of the conflict copies.
use stardustfs.Prelude.{
  Text, true, none, some, codes, ok, err, unique_violation, ◌≡◌, ◌≢◌, ◌⊎◌, refl, arith, ◌==◌,
  nat_eq, text_eq, if◌then◌else◌, text_beq, option_text_eq, any, map,
}
use stardustfs.Models.{sync_status_beq, pending}
use stardustfs.Table.{find_row, IsUnique}
use stardustfs.Like.{like, fold_case, some_suffix}
use stardustfs.Paths.{has_slash}
use stardustfs.Metadata.{
  Db, row_at, delete, mark, lookup, lookup_any, path_of, directory_of, with_path,
}
use stardustfs.Metadata.Status.{get_pending_files}
use stardustfs.Metadata.Invariant.{IsValid, Step-IsValid, deleting}
use stardustfs.Metadata.Lifecycle.{lookup-delete, buried, path_of_file}
use stardustfs.Metadata.Directories.{
  list_entries, move_prefix, rename_directory, with_directory_path,
}
use stardustfs.Metadata.Directories.Listing.{is_live_child, shows_file, shows_file-list_entries}
use stardustfs.Metadata.Directories.Moving.{moved, rename_directory_lem}
use stardustfs.Conflict.{generate_conflict_name, resolve_conflict}
use stardustfs.Conflict.Naming.{generate_conflict_name_total}
use stardustfs.Conflict.Resolution.{Copied, resolve_conflict_lem}
use stardustfs.Source.{fine}
use stardustfs.Sync.Merge.{merge_record, is_conflict}
use stardustfs.Sync.Merge.Idempotence.{merge_record_idempotent}
use stardustfs.Sync.Merge.Outcomes.{Split, merge_conflict_lem}
use stardustfs.Tests.{
  a_txt, local_file, server_file, local_row, local_db, synced_jbod, jbod, local_db-IsValid,
}

merge_conflict_lem_example :
    (copy : Text) × (lookup copy local_db ≡ none)
    × (Split copy server_file local_row local_db
          (merge_record (codes "pc") (codes "now") true fine server_file jbod).metadata_store
        ⊎ ((row_at copy local_db ≢ none)
            × ((merge_record (codes "pc") (codes "now") true fine server_file jbod).metadata_store
                ≡ mark a_txt pending local_db)))
unfolding find_row text_beq is_conflict sync_status_beq
merge_conflict_lem_example =
    merge_conflict_lem (codes "pc") (codes "now") true fine server_file jbod local_row
      local_db-IsValid refl refl refl (omega arith)

merge_record_idempotent_example :
    let j' = merge_record (codes "pc") (codes "now") true fine server_file synced_jbod in
    merge_record (codes "pc") (codes "now") true fine server_file j' ≡ j'
unfolding find_row text_beq is_conflict sync_status_beq
merge_record_idempotent_example =
    merge_record_idempotent (codes "pc") (codes "now") true fine server_file synced_jbod refl

resolve_conflict_lem_example :
    (copy : Text) × (lookup copy local_db ≡ none)
    × (((db' : Db) × (resolve_conflict (codes "pc") (codes "now") a_txt local_db ≡ (ok copy, db'))
          × Copied a_txt copy local_row local_db db')
        ⊎ ((row_at copy local_db ≢ none)
            × (resolve_conflict (codes "pc") (codes "now") a_txt local_db
                ≡ (err unique_violation, mark a_txt pending local_db))))
unfolding find_row text_beq
resolve_conflict_lem_example =
    resolve_conflict_lem (codes "pc") (codes "now") a_txt local_db local_row local_db-IsValid refl
      refl

generate_conflict_name_total_example :
    (p : Text) × (generate_conflict_name (codes "pc") (codes "now") a_txt local_db ≡ some p)
    × (lookup p local_db ≡ none)
generate_conflict_name_total_example =
    generate_conflict_name_total (codes "pc") (codes "now") a_txt local_db

Step-IsValid_example : IsValid (delete a_txt 9 local_db)
Step-IsValid_example = Step-IsValid local_db-IsValid (deleting a_txt 9 refl)

lookup-delete_example :
    ((q : Text)
      → lookup q (delete a_txt 9 local_db) ≡ (if a_txt == q then none else lookup q local_db))
    × (lookup_any a_txt (delete a_txt 9 local_db) ≡ some (buried 9 local_file))
    × (find_row path_of_file a_txt (get_pending_files (delete a_txt 9 local_db))
        ≡ some (buried 9 local_file))
unfolding find_row text_beq
lookup-delete_example = lookup-delete a_txt 9 local_db local_row local_db-IsValid refl

shows_file-list_entries_example :
    shows_file (codes "a.txt") (list_entries (codes "/") local_db)
    ≡ any (is_live_child (codes "/") (codes "a.txt")) local_db.files
unfolding has_slash
shows_file-list_entries_example =
    shows_file-list_entries (codes "/") (codes "a.txt") local_db (λ e. ground (arith, e)) refl

rename_directory_lem_example :
    let db' = (rename_directory (codes "/b/") (codes "/c/") local_db).1 in
    (db'.files ≡ map (moved path_of with_path (codes "/b/") (codes "/c/")) local_db.files)
    × (db'.directories
        ≡ map
            (moved directory_of with_directory_path (codes "/b/") (codes "/c/"))
            local_db.directories)
    × IsUnique path_of db'.files
    × IsUnique directory_of db'.directories
unfolding find_row rename_directory move_prefix like fold_case some_suffix text_beq
rename_directory_lem_example =
    rename_directory_lem (codes "/b/") (codes "/c/") local_db (refl, tt) (refl, tt) refl
