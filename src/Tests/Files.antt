-- ===== src/Tests/Files.antt =====
-- Tests of the sources and of the file operations.
use stardustfs.Prelude.{
  Text, any, ◌||◌, unique_violation, ◌⊎◌, ◌≢◌, true, none, [], ◌∷◌, codes, ok, err, os_error, ◌≡◌,
  ◌≤◌, ◌↔◌, ◌&&◌, refl, arith, ◌==◌, text_eq, if◌then◌else◌, text_beq, option_beq, not,
}
use stardustfs.Table.{find_row, update_rows}
use stardustfs.Paths.{has_slash}
use stardustfs.Metadata.{lookup, update}
use stardustfs.Source.{Source, write_through, deactivate, fine, failed, content_at, put_file, write}
use stardustfs.Source.Space.{IsSpaced, occupied, write-IsSpaced}
use stardustfs.Jbod.Orphans.Naming.{generate_physical_path_lem}
use stardustfs.Jbod.{generate_physical_path, strip_slash, Env}
use stardustfs.Jbod.Files.{move_file, with_db, overwrite, read_file, write_file, delete_file}
use stardustfs.Jbod.Atomicity.{write_file_atomic, delete_file_hides}
use stardustfs.Jbod.Renames.{Moved, move_file_lem}
use stardustfs.Metadata.{Db, row_at}
use stardustfs.Jbod.RoundTrip.{read_file-write_file}
use stardustfs.Jbod.Orphans.{is_managed, collect_source}
use stardustfs.Jbod.Orphans.Exactness.{is_named, names_file, collect_source_exact}
use stardustfs.Metadata.Status.{live_physical_paths_for_device}
use stardustfs.Tests.{
  local_row, local_db, local_db-IsValid, a_txt, disk, loop, jbod, env, same, opened,
}

broken : Env
broken = record env { write_fault = failed none }

-- The path /a.txt is overwritten.
read_file-write_file_example :
    (read_file same opened env a_txt (write_file same opened env a_txt (8 ∷ 9 ∷ []) jbod).1).0
    ≡ ok (8 ∷ 9 ∷ [])
unfolding write_file overwrite find_row update_rows text_beq option_beq lookup update write
    write_through put_file deactivate
read_file-write_file_example =
    read_file-write_file same opened env env a_txt (8 ∷ 9 ∷ []) jbod refl refl
      (λ anonymous m known. ground arith) (refl, tt) refl

write_file_atomic_example :
    (write_file same opened broken a_txt (8 ∷ 9 ∷ []) jbod).1.metadata_store ≡ jbod.metadata_store
unfolding broken write_file overwrite find_row update_rows text_beq option_beq lookup update write
    write_through put_file deactivate
write_file_atomic_example =
    write_file_atomic same opened broken a_txt (8 ∷ 9 ∷ []) jbod os_error refl

delete_file_hides_example :
    let o = delete_file same opened env a_txt jbod in
    lookup a_txt o.1.metadata_store ≡ (
      if a_txt == a_txt
      then (elim o.0 [ err e ↦ lookup a_txt jbod.metadata_store | ok u ↦ none ])
      else lookup a_txt jbod.metadata_store)
delete_file_hides_example = delete_file_hides same opened env a_txt a_txt jbod

abbrev managed : Text
managed = codes "0123456789abcdef0123456789abcdef_a"

-- The row names another file of the disk.
abbrev with_orphan : Source
with_orphan = record disk { files = record { name = managed; content = 4 ∷ [] } ∷ disk.files }

collect_source_exact_example :
    content_at managed
      (collect_source
        (live_physical_paths_for_device (codes "d") local_db)
        (λ n. fine)
        0
        with_orphan).1.files
    ≡ (if (not (has_slash managed) && is_named managed)
          && not (any (names_file (codes "d") with_orphan.source_id managed) local_db.files)
        then none
        else content_at managed with_orphan.files)
collect_source_exact_example = collect_source_exact (codes "d") local_db 0 with_orphan managed refl

loop-IsSpaced : IsSpaced 3 loop
unfolding find_row
loop-IsSpaced = record {
  of_size = refl;
  active = refl;
  unique = (refl, tt);
  exact = refl;
  within = omega arith;
}

write-IsSpaced_example :
    IsSpaced 3 (write fine (codes "q") (5 ∷ []) loop).1
    × (((write fine (codes "q") (5 ∷ []) loop).0 ≡ ok tt)
        ↔ (occupied (put_file (codes "q") (5 ∷ []) loop.files) ≤ 3))
write-IsSpaced_example = write-IsSpaced 3 (codes "q") (5 ∷ []) loop loop-IsSpaced

move_file_lem_example :
    ((db' : Db) × (move_file same opened env a_txt (codes "/b.txt") jbod
        ≡ (ok tt, with_db db' jbod))
      × Moved a_txt (codes "/b.txt") local_row local_db db')
    ⊎ ((row_at (codes "/b.txt") local_db ≢ none)
        × (move_file same opened env a_txt (codes "/b.txt") jbod ≡ (err unique_violation, jbod)))
unfolding find_row text_beq
move_file_lem_example =
    move_file_lem same opened env a_txt (codes "/b.txt") jbod local_row local_db-IsValid refl refl
      (λ e. ground (arith, e))

generate_physical_path_lem_example :
    (has_slash (generate_physical_path env.uuid_hex (codes "/d/b"))
      ≡ has_slash (strip_slash (codes "/d/b")))
    × (has_slash (strip_slash (codes "/d/b"))
          || is_managed (generate_physical_path env.uuid_hex (codes "/d/b"))
        ≡ true)
generate_physical_path_lem_example =
    generate_physical_path_lem env.uuid_hex (codes "/d/b") refl refl
