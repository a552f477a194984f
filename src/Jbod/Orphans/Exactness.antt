-- ===== src/Jbod/Orphans/Exactness.antt =====
-- The orphan collection removes exactly the managed files of the data root that no live row names.
use stardustfs.Prelude.{
  ℕ, zero, suc, Text, Bool, true, none, some, length, take, drop, all, nat_eq, Option, List, [],
  ◌∷◌, ◌≡◌, refl, arith, ◌&&◌, not, ◌==◌, text_eq, eq_iff, is_some, if◌then◌else◌, any, map, filter,
  Bool-cases, Option-cases, inl, inr,
}
use stardustfs.Paths.{has_slash}
use stardustfs.Table.{find_row}
use stardustfs.Source.{
  PhysicalFile, file_name, Source, fine, content_at, remove_file, delete, delete_through,
  list_physical_files,
}
use stardustfs.Jbod.{is_usable}
use stardustfs.Jbod.Orphans.{
  is_hex, hex_then_underscore, is_managed, is_live, is_orphan, attempt, sweep, collect_source,
}
use stardustfs.Metadata.{Db, Row}
use stardustfs.Metadata.Status.{live_physical_paths_for_device, owned_by}
use stardustfs.Like.Laws.{starts_with}

content_at-remove_file :
    (p n : Text) (files : List PhysicalFile)
    → content_at p (remove_file n files) ≡ (if n == p then none else content_at p files)
unfolding find_row remove_file
content_at-remove_file p n [] = ground arith
content_at-remove_file p n (f ∷ files) = ground (
  arith,
  eq_iff n p,
  eq_iff (file_name f) n,
  eq_iff (file_name f) p,
  content_at-remove_file p n files,
)

-- A deletion that the system lets through, on a source of this device.
abbrev Cleared : Text → Source → Source → Type 0
Cleared n s s' =
    (is_usable s' ≡ true)
    × ((p : Text) → content_at p s'.files ≡ (if n == p then none else content_at p s.files))

delete-Cleared : (n : Text) (s : Source) → is_usable s ≡ true → Cleared n s (delete fine n s).1
unfolding delete delete_through
delete-Cleared n s h = elim (Option-cases (find_row file_name n s.files)) [
  | inl absent ↦ (ground arith, λ p. ground (arith, eq_iff n p))
  | inr (f, there) ↦ (ground arith, λ p. ground (arith, content_at-remove_file p n s.files))
]

abbrev names_it : Text → List Text → Bool
names_it p names = any (λ n. n == p) names

sweep_lem :
    (live : List (Text × Text)) (id p : Text) (names : List Text) (removed : ℕ) (s : Source)
    → is_usable s ≡ true
    → content_at p (sweep live (λ n. fine) id names (removed, s)).1.files
      ≡ (if names_it p names && is_orphan live id p then none else content_at p s.files)
unfolding sweep
sweep_lem live id p [] removed s h = refl
sweep_lem live id p (n ∷ names) removed s h = elim (Bool-cases (is_orphan live id n)) [
  | inl orphan ↦
      let (usable, cleared) = delete-Cleared n s h in
      ground (
        arith,
        eq_iff n p,
        cleared p,
        sweep_lem live id p names (attempt (λ n. fine) n (removed, s)).0 (delete fine n s).1 usable,
      )
  | inr kept ↦ ground (arith, eq_iff n p, sweep_lem live id p names removed s h)
]

names_it-listed :
    (p : Text) (files : List PhysicalFile)
    → names_it p (map file_name (filter (λ f. not (has_slash (file_name f))) files))
      ≡ (is_some (content_at p files) && not (has_slash p))
unfolding find_row
names_it-listed p [] = refl
names_it-listed p (f ∷ files) = elim (Bool-cases (has_slash (file_name f))) [
  | inl nested ↦ ground (arith, eq_iff (file_name f) p, names_it-listed p files)
  | inr flat ↦ ground (arith, eq_iff (file_name f) p, names_it-listed p files)
]

-- The program's names: 32 hexadecimal digits, an underscore, and anything.
unfoldable pub is_named : Text → Bool
is_named p =
    (length (take 32 p) == 32 && all is_hex (take 32 p)) && starts_with (95 ∷ []) (drop 32 p)

-- The row is the device's, or no one's.
abbrev pub is_own : Text → Option Text → Bool
is_own device none = true
is_own device (some d) = d == device

-- A live row of the device that stands for the file of the source.
abbrev pub names_file : Text → Text → Text → Row → Bool
names_file device id p r =
    (not r.deleted && is_own device r.device_id) && (r.source_id == id && r.physical_path == p)

hex_then_underscore-eq :
    (n : ℕ) (p : Text)
    → hex_then_underscore n p
      ≡ ((length (take n p) == n && all is_hex (take n p)) && starts_with (95 ∷ []) (drop n p))
unfolding hex_then_underscore starts_with
hex_then_underscore-eq zero [] = ground arith
hex_then_underscore-eq (suc n) [] = ground arith
hex_then_underscore-eq zero (c ∷ t) = ground arith
hex_then_underscore-eq (suc n) (c ∷ t) = ground (arith, hex_then_underscore-eq n t)

owned_by-is_own : (device : Text) (r : Row) → owned_by device r ≡ is_own device r.device_id
owned_by-is_own device r = elim (Option-cases r.device_id) [
  | inl free ↦ rw free refl
  | inr (d, at) ↦ rw at refl
]

is_live-rows :
    (device id p : Text) (rows : List Row)
    → is_live id p (
        map
          (λ (r : Row). (r.source_id, r.physical_path))
          (filter (λ r. not r.deleted && owned_by device r) rows))
      ≡ any (names_file device id p) rows
unfolding is_live
is_live-rows device id p [] = refl
is_live-rows device id p (r ∷ rows) = elim (Bool-cases (not r.deleted && owned_by device r)) [
  | inl own ↦ rw own (ground (arith, own, owned_by-is_own device r, is_live-rows device id p rows))
  | inr other ↦
      rw other (ground (arith, other, owned_by-is_own device r, is_live-rows device id p rows))
]

sweep_source :
    (live : List (Text × Text)) (removed : ℕ) (s : Source) (p : Text)
    → is_usable s ≡ true
    → content_at p (collect_source live (λ n. fine) removed s).1.files
      ≡ (if not (has_slash p) && is_orphan live s.source_id p then none else content_at p s.files)
unfolding collect_source list_physical_files
sweep_source live removed s p h = ground (
  arith,
  names_it-listed p s.files,
  sweep_lem live s.source_id p (map file_name (filter (λ f. not (has_slash (file_name f))) s.files))
      removed s h,
)

-- On an active local source, and where the system lets every deletion through, the collection
-- removes exactly the files directly below the data root that carry the program's naming scheme and
-- that no live row of this device, or of none, names; every other file keeps its content. A file in a
-- subdirectory is never collected.
pub collect_source_exact :
    (device : Text) (db : Db) (removed : ℕ) (s : Source) (p : Text)
    → is_usable s ≡ true
    → content_at p
        (collect_source (live_physical_paths_for_device device db) (λ n. fine) removed s).1.files
      ≡ (if (not (has_slash p) && is_named p)
            && not (any (names_file device s.source_id p) db.files)
          then none
          else content_at p s.files)
unfolding live_physical_paths_for_device is_orphan is_managed is_named
collect_source_exact device db removed s p h = ground (
  arith,
  sweep_source (live_physical_paths_for_device device db) removed s p h,
  is_live-rows device s.source_id p db.files,
  hex_then_underscore-eq 32 p,
)
