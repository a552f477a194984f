-- ===== src/Source/Content.antt =====
-- What a source holds after a write, and what a read gives.
use stardustfs.Prelude.{
  Text, Bytes, true, some, List, ◌≡◌, refl, arith, text_eq, eq_refl, ok, Option-cases, inl, inr,
}
use stardustfs.Table.{find_row}
use stardustfs.Table.Laws.{find_row-update_rows, find_row-append_new}
use stardustfs.Source.{
  PhysicalFile, file_name, Source, Fault, fine, denied, failed, content_at, put_file, read, write,
  write_through,
}

pub content_at-put_file :
    (path : Text) (content : Bytes) (files : List PhysicalFile)
    → content_at path (put_file path content files) ≡ some content
unfolding put_file
content_at-put_file path content files = elim (Option-cases (find_row file_name path files)) [
  | inl absent ↦ ground (
    arith,
    eq_refl path,
    find_row-append_new file_name path (record { name = path; content = content }) files,
  )
  | inr (f, there) ↦ ground (
    arith,
    eq_refl path,
    find_row-update_rows file_name path path (λ g. record g { content = content }) files
        (λ g. refl),
  )
]

-- The source is active and holds the content at the path.
pub record Holds (path : Text) (content : Bytes) (id : Text) (s : Source) : Type 0 where
  pub same : s.source_id ≡ id
  pub active : s.is_active ≡ true
  pub holds : content_at path s.files ≡ some content

-- A write that returns has stored the content.
pub write-Holds :
    (fault : Fault) (path : Text) (content : Bytes) (s : Source)
    → (write fault path content s).0 ≡ ok tt
    → Holds path content s.source_id (write fault path content s).1
unfolding write write_through
write-Holds fine path content s h = ground (arith, content_at-put_file path content s.files)
write-Holds denied path content s h = ground arith
write-Holds (failed part) path content s h = ground arith

pub read-Holds :
    (path : Text) (content : Bytes) (id : Text) (s : Source)
    → Holds path content id s
    → read fine path s ≡ (ok content, s)
unfolding read
read-Holds path content id s h = ground (arith, h.holds, h.active)
