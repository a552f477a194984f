-- ===== src/Source/Space.antt =====
-- The space accounting of a loopback source.
use stardustfs.Prelude.{
  ℕ, Text, Bytes, true, false, none, List, [], ◌∷◌, ◌++◌, ◌+◌, ◌-◌, ◌≤◌, ◌≡◌, ◌≢◌, refl, arith, not,
  ◌==◌, text_eq, eq_iff, if◌then◌else◌, ok, err, insufficient_space, ◌↔◌, length, Bool-cases, ◌∙◌,
  Option-cases, inl, inr,
}
use stardustfs.Table.{find_row, update_rows, IsUnique}
use stardustfs.Table.Laws.{IsUnique-update_rows, IsUnique-append_new, IsUnique-filter}
use stardustfs.Source.{
  PhysicalFile, file_name, Source, loopback, lacks_space, fine, size_at, put_file, remove_file,
  write, delete,
}

-- What the files take on the disk.
abbrev pub occupied : List PhysicalFile → ℕ
occupied [] = 0
occupied (f ∷ files) = length f.content + occupied files

occupied-append :
    (f : PhysicalFile) (files : List PhysicalFile)
    → occupied (files ++ f ∷ []) ≡ occupied files + length f.content
occupied-append f [] = omega arith
occupied-append f (x ∷ files) = omega (arith, occupied-append f files)

occupied-absent :
    (path : Text) (g : PhysicalFile → PhysicalFile) (files : List PhysicalFile)
    → find_row file_name path files ≡ none
    → occupied (update_rows file_name path g files) ≡ occupied files
unfolding find_row update_rows
occupied-absent path g [] h = refl
occupied-absent path g (x ∷ files) h = ground (arith, occupied-absent path g files)

occupied-update :
    (path : Text) (content : Bytes) (files : List PhysicalFile)
    → IsUnique file_name files
    → find_row file_name path files ≢ none
    → occupied (update_rows file_name path (λ f. record f { content = content }) files)
        + size_at path files
      ≡ occupied files + length content
unfolding find_row update_rows
occupied-update path content [] u h = absurd (h refl)
occupied-update path content (x ∷ files) u h = ground (
  arith,
  eq_iff x.name path,
  occupied-absent path (λ f. record f { content = content }) files,
  occupied-update path content files u.1,
)

-- Writing a file trades its old size for the new one.
pub occupied-put_file :
    (path : Text) (content : Bytes) (files : List PhysicalFile)
    → IsUnique file_name files
    → occupied (put_file path content files) + size_at path files ≡ occupied files + length content
unfolding put_file
occupied-put_file path content files u = elim (Option-cases (find_row file_name path files)) [
  | inl e ↦ ground (arith, occupied-append (record { name = path; content = content }) files)
  | inr (f, e) ↦ ground (arith, occupied-update path content files u)
]

occupied-filter_absent :
    (path : Text) (files : List PhysicalFile)
    → find_row file_name path files ≡ none
    → remove_file path files ≡ files
unfolding find_row remove_file
occupied-filter_absent path [] h = refl
occupied-filter_absent path (x ∷ files) h = ground (arith, occupied-filter_absent path files)

pub occupied-remove_file :
    (path : Text) (files : List PhysicalFile)
    → IsUnique file_name files
    → occupied (remove_file path files) + size_at path files ≡ occupied files
unfolding find_row remove_file
occupied-remove_file path [] u = refl
occupied-remove_file path (x ∷ files) u = ground (
  arith,
  eq_iff x.name path,
  occupied-filter_absent path files,
  occupied-remove_file path files u.1,
)

put_file-IsUnique :
    (path : Text) (content : Bytes) (files : List PhysicalFile)
    → IsUnique file_name files
    → IsUnique file_name (put_file path content files)
unfolding put_file
put_file-IsUnique path content files u = elim (Option-cases (find_row file_name path files)) [
  | inl e ↦
      ground
        (arith, IsUnique-append_new file_name (record { name = path; content = content }) files e u)
  | inr (f, e) ↦ ground (
    arith,
    IsUnique-update_rows file_name path (λ f. record f { content = content }) files (λ f. refl) u,
  )
]

-- An active loopback source of the given size whose count is exact.
pub record IsSpaced (size : ℕ) (s : Source) : Type 0 where
  pub of_size : s.kind ≡ loopback size
  pub active : s.is_active ≡ true
  pub unique : IsUnique file_name s.files
  pub exact : occupied s.files ≡ s.used_bytes
  pub within : s.used_bytes ≤ size

module _ (size : ℕ) (path : Text) (content : Bytes) (s : Source) (h : IsSpaced size s) where
  written : Source
  written = record s {
    files = put_file path content s.files;
    used_bytes = s.used_bytes + length content - size_at path s.files;
  }

  write_outcome : write fine path content s ≡ (
      if lacks_space size s.used_bytes (length content) (size_at path s.files)
      then (err insufficient_space, s)
      else (ok tt, written))
  unfolding write written
  write_outcome = ground (arith, h.of_size, h.active)

  written-IsSpaced :
      lacks_space size s.used_bytes (length content) (size_at path s.files) ≡ false
      → IsSpaced size written
  unfolding written
  written-IsSpaced room =
      let sum = occupied-put_file path content s.files h.unique in
      record {
        of_size = h.of_size;
        active = h.active;
        unique = put_file-IsUnique path content s.files h.unique;
        exact = omega (arith, sum, h.exact);
        within = ground (arith, sum, room, h.exact, h.within);
      }

  -- On an active loopback source whose count is exact and within its size, a write that the system
  -- lets through keeps it so, and is accepted exactly if the files fit into the size afterwards.
  pub write-IsSpaced :
      IsSpaced size (write fine path content s).1
      × (((write fine path content s).0 ≡ ok tt)
          ↔ (occupied (put_file path content s.files) ≤ size))
  write-IsSpaced =
      let sum = occupied-put_file path content s.files h.unique in
      elim (Bool-cases (lacks_space size s.used_bytes (length content) (size_at path s.files))) [
        | inl full ↦
            let same : write fine path content s ≡ (err insufficient_space, s) =
              write_outcome ∙ rw full in
            rw same (h, ((λ e. cc), λ fits. absurd (grind (arith, sum, full, h.exact))))
        | inr room ↦
            let same : write fine path content s ≡ (ok tt, written) = write_outcome ∙ rw room in
            rw same (
              written-IsSpaced room,
              ((λ e. grind (arith, sum, room, h.exact, h.within)), λ fits. refl),
            )
      ]

size_at-remove_file :
    (path : Text) (files : List PhysicalFile) → size_at path (remove_file path files) ≡ 0
unfolding find_row remove_file
size_at-remove_file path [] = refl
size_at-remove_file path (x ∷ files) = ground (arith, size_at-remove_file path files)

module _ (size : ℕ) (path : Text) (s : Source) (h : IsSpaced size s) where
  deleted : Source
  deleted = record s {
    files = remove_file path s.files;
    used_bytes = s.used_bytes - size_at path s.files;
  }

  deleted-IsSpaced : IsSpaced size deleted
  unfolding deleted
  deleted-IsSpaced =
      let sum = occupied-remove_file path s.files h.unique in
      record {
        of_size = h.of_size;
        active = h.active;
        unique =
            unfold remove_file in
            IsUnique-filter file_name (λ f. not (file_name f == path)) s.files h.unique;
        exact = omega (arith, sum, h.exact);
        within = omega (arith, h.within);
      }

  -- On such a source a deletion that the system lets through succeeds, whether or not the file is
  -- there, takes no space at the path afterwards, and keeps the count exact.
  pub delete-IsSpaced :
      ((delete fine path s).0 ≡ ok tt)
      × IsSpaced size (delete fine path s).1
      × (size_at path (delete fine path s).1.files ≡ 0)
  delete-IsSpaced = elim (Option-cases (find_row file_name path s.files)) [
    | inl absent ↦
        let same : delete fine path s ≡ (ok tt, s) =
          unfold delete in ground (arith, h.of_size, h.active) in
        rw same (refl, h, ground arith)
    | inr (f, there) ↦
        let same : delete fine path s ≡ (ok tt, deleted) =
          unfold delete deleted in ground (arith, h.of_size, h.active) in
        rw same (refl, deleted-IsSpaced, unfold deleted in size_at-remove_file path s.files)
  ]
