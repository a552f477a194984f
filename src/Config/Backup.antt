-- ===== src/Config/Backup.antt =====
-- The search for a backup path ends, and the migration loses no text of the configuration.
use stardustfs.Prelude.{
  ℕ, zero, suc, ◌+◌, Text, Option, none, some, List, [], ◌∷◌, ◌++◌, ◌==◌, text_eq, nat_eq, Result,
  length, codes, ◌≡◌, ◌≢◌, ◌⊎◌, inl, inr, refl, arith, ap, sym, ◌∙◌, eq_iff, Option-cases, ◌<◌, ◌≤◌,
  filter, not, eq_refl, Bool-cases,
}
use mathlib.Core.List.{append_cancel_left}
use stardustfs.Decimal.{decimal, decimal-injective}
use stardustfs.Table.{find_row}
use stardustfs.Table.Fresh.{length-filter_found, find_row-filter_ne}
use stardustfs.Json.{Fields}
use stardustfs.Config.Migration.{
  File, path_of, write_file, numbered_backup, next_backup, resolve_backup_path, migrate_to,
  migrate_v1_to_v2, migrated, written,
}

numbered_backup-injective :
    (base : Text) (i j : ℕ) → numbered_backup base i ≡ numbered_backup base j → i ≡ j
numbered_backup-injective base i j h = decimal-injective i j (
    append_cancel_left (codes ".") (decimal i) (decimal j)
      (append_cancel_left base (codes "." ++ decimal i) (codes "." ++ decimal j) h))

module _ (base : Text) (files : List File) where
  next_backup_total :
      (fuel n : ℕ) (rows : List File)
      → length rows < fuel
      → ((k : ℕ)
          → n ≤ k
          → find_row path_of (numbered_backup base k) files ≢ none
          → find_row path_of (numbered_backup base k) rows ≢ none)
      → (p : Text) × (next_backup fuel n base files ≡ some p) × (find_row path_of p files ≡ none)
  unfolding next_backup
  next_backup_total zero n rows h taken = elim h [ ]
  next_backup_total (suc fuel) n rows h taken =
      elim (Option-cases (find_row path_of (numbered_backup base n) files)) [
        | inl free ↦ (numbered_backup base n, rw free refl, free)
        | inr (f, e) ↦
            let cand = numbered_backup base n in
            let (p, found, free) =
              next_backup_total fuel (n + 1) (filter (λ r. not (path_of r == cand)) rows)
                (omega (
                  arith,
                  length-filter_found path_of cand rows (taken n (omega arith) (λ absent. cc)),
                ))
                (λ k later t.
                  rw
                    (find_row-filter_ne path_of cand (numbered_backup base k) rows
                      (λ same. absurd (omega (arith, numbered_backup-injective base n k same))))
                    (taken k (omega arith) t)) in
            (p, rw e found, free)
      ]

-- A backup path is found, and no file has it.
pub resolve_backup_path_total :
    (config_path : Text) (files : List File)
    → (p : Text) × (resolve_backup_path config_path files ≡ some p)
      × (find_row path_of p files ≡ none)
unfolding resolve_backup_path
resolve_backup_path_total config_path files =
    let base = config_path ++ codes ".v1.bak" in
    elim (Option-cases (find_row path_of base files)) [
      | inl free ↦ (base, rw free refl, free)
      | inr (f, e) ↦
          let (p, found, free) =
            next_backup_total base files (suc (length files)) 1 files (omega arith)
              (λ k later t. t) in
          (p, rw e found, free)
    ]

find_row-write_file :
    (path q content : Text) (files : List File)
    → (path ≢ q → find_row path_of q (write_file path content files) ≡ find_row path_of q files)
      × ((f : File) × (find_row path_of path (write_file path content files) ≡ some f)
          × (f.content ≡ content))
unfolding find_row write_file
find_row-write_file path q content [] = (
  λ ne. ground (arith, eq_iff path q),
  (record { path = path; content = content }, ground (arith, eq_refl path), refl),
)
find_row-write_file path q content (f ∷ files) =
    let (others, (g, found, same)) = find_row-write_file path q content files in
    elim (Bool-cases (f.path == path)) [
      | inl here ↦ (
        λ ne. ground (arith, eq_iff path q, eq_iff f.path path, eq_iff f.path q),
        (record { path = path; content = content }, rw here (ground (arith, eq_refl path)), refl),
      )
      | inr there ↦ (λ ne. ground (arith, eq_iff f.path q), (g, rw there (ground arith), same))
    ]

module _ (dumps : Fields → Text) (writing : Option Text) (backup config_path : Text)
    (config : Fields) (files : List File) (original : File)
    (found : find_row path_of config_path files ≡ some original) where
  migrate_to-copied :
      (migrate_to dumps none writing backup config_path config files).1
      ≡ write_file config_path
          (written (dumps (migrated config)) writing)
          (write_file backup original.content files)
  unfolding migrate_to migrated
  migrate_to-copied = rw (found, migrate_to) refl

  migrate_to_uncopied :
      (left : Text)
      → (migrate_to dumps (some left) writing backup config_path config files).1
        ≡ write_file backup left files
  unfolding migrate_to migrated
  migrate_to_uncopied left = rw (found, migrate_to) refl

  kept_by :
      (copying : Option Text)
      → backup ≢ config_path
      → (f : File) × ((find_row path_of config_path
              (migrate_to dumps copying writing backup config_path config files).1
            ≡ some f)
          ⊎ (find_row path_of backup
                (migrate_to dumps copying writing backup config_path config files).1
              ≡ some f))
        × (f.content ≡ original.content)
  kept_by none ne =
      let (others, (g, at, same)) = find_row-write_file backup backup original.content files in
      (
        g,
        inr (
            ap (find_row path_of backup) migrate_to-copied
            ∙ (find_row-write_file config_path backup (written (dumps (migrated config)) writing)
                  (write_file backup original.content files)).0
                (λ same'. ne (sym same'))
            ∙ at),
        same,
      )
  kept_by (some left) ne = (
    original,
    inl (
        ap (find_row path_of config_path) (migrate_to_uncopied left)
        ∙ (find_row-write_file backup config_path left files).0 ne
        ∙ found),
    refl,
  )

  migrate_to_others :
      (copying : Option Text) (q : Text)
      → q ≢ backup
      → q ≢ config_path
      → find_row path_of q (migrate_to dumps copying writing backup config_path config files).1
        ≡ find_row path_of q files
  migrate_to_others none q nb nc =
      ap (find_row path_of q) migrate_to-copied
      ∙ (find_row-write_file config_path q (written (dumps (migrated config)) writing)
            (write_file backup original.content files)).0
          (λ same. nc (sym same))
      ∙ (find_row-write_file backup q original.content files).0 (λ same. nb (sym same))
  migrate_to_others (some left) q nb nc =
      ap (find_row path_of q) (migrate_to_uncopied left)
      ∙ (find_row-write_file backup q left files).0 (λ same. nb (sym same))

-- Where the configuration has a file, the migration ends, whatever its copy and its write leave: the
-- backup path is one that no file had, every file besides these two is as before, and one of the two
-- has the text that the configuration had.
pub migrate_v1_to_v2_keeps :
    (dumps : Fields → Text) (copying writing : Option Text) (config_path : Text) (config : Fields)
    (files : List File) (original : File)
    → find_row path_of config_path files ≡ some original
    → (backup : Text) × (outcome : Result Fields) × (files' : List File) × (migrate_v1_to_v2 dumps
          copying writing config_path config files
        ≡ some (outcome, files'))
      × (find_row path_of backup files ≡ none)
      × ((q : Text)
          → q ≢ backup
          → q ≢ config_path
          → find_row path_of q files' ≡ find_row path_of q files)
      × ((f : File) × ((find_row path_of config_path files' ≡ some f)
            ⊎ (find_row path_of backup files' ≡ some f))
          × (f.content ≡ original.content))
unfolding migrate_v1_to_v2
migrate_v1_to_v2_keeps dumps copying writing config_path config files original found =
    let (backup, at, free) = resolve_backup_path_total config_path files in
    let distinct : backup ≢ config_path = λ same. cc in
    let after = migrate_to dumps copying writing backup config_path config files in
    (
      backup,
      after.0,
      after.1,
      rw (at, migrate_v1_to_v2) refl,
      free,
      λ q nb nc.
          migrate_to_others dumps writing backup config_path config files original found copying q
            nb nc,
      kept_by dumps writing backup config_path config files original found copying
          (λ same. distinct same),
    )
