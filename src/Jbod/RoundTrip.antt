-- ===== src/Jbod/RoundTrip.antt =====
-- What was written is read back, on every branch of `write_file`.
use stardustfs.Prelude.{
  ℕ, Text, Bytes, true, none, some, ◌≡◌, refl, arith, text_eq, option_text_eq, eq_refl, Result, ok,
  Result-cases, Option-cases, Bool-cases, inl, inr, length, subst, ◌∙◌,
}
use stardustfs.Models.{FileMetadata}
use stardustfs.Table.{IsUnique}
use stardustfs.Metadata.{lookup, update, updated}
use stardustfs.Metadata.Lifecycle.{lookup-insert}
use stardustfs.Source.{fine}
use stardustfs.Jbod.{Jbod, Env, id_of, is_local_owner}
use stardustfs.Jbod.Files.{
  read_file, overwrite, place, create, takeover_write, write_file, record_new, record_taken,
  as_storage_error,
}
use stardustfs.Jbod.Readable.{
  IsReadable, read_file-IsReadable, lookup-update, overwrite-IsReadable, Records, place-IsReadable,
}

-- A device that has no id meets no file with an owner at the path.
abbrev pub OwnsIt : Text → Jbod → Type 0
OwnsIt path j =
    j.device_id ≡ none
    → (m : FileMetadata) → lookup path j.metadata_store ≡ some m
    → m.device_id ≡ none

module _ (encrypt : Bytes → Bytes) (decrypt : Bytes → Result Bytes) (env : Env) (path : Text) where
  record_new-Records :
      (size : ℕ) (j : Jbod)
      → Records encrypt decrypt env path (record_new env path size j.device_id) j
  unfolding Records
  record_new-Records size j source physical db recorded =
      let (db', m, e, at, version, status, of_source, of_physical, of_device) =
        lookup-insert path source physical size env.now env.now j.device_id j.metadata_store in
      let same : db' ≡ db = cc (e, recorded) in
      (
        m,
        subst (λ d. lookup path d ≡ some m) same (ground (arith, at path, eq_refl path)),
        of_source,
        of_physical,
        of_device,
      )

  record_taken-Records :
      (size : ℕ) (j : Jbod) (me : Text) (m : FileMetadata)
      → j.device_id ≡ some me
      → lookup path j.metadata_store ≡ some m
      → Records encrypt decrypt env path (record_taken env path size j.device_id) j
  unfolding Records
  record_taken-Records size j me m mine known source physical db recorded =
      let same : update path size env.now j.device_id (some source) (some physical) j.metadata_store
          ≡ db =
        ground arith in
      (
        updated size env.now j.device_id (some source) (some physical) m,
        subst
            (λ d.
              lookup path d
              ≡ some (updated size env.now j.device_id (some source) (some physical) m))
            same
            (lookup-update path size env.now j.device_id (some source) (some physical)
              j.metadata_store m known),
        refl,
        refl,
        ground arith,
      )

  takeover_outcome :
      (size : ℕ) (encrypted : Bytes) (j : Jbod)
      → (takeover_write encrypt decrypt env path size encrypted j).0 ≡ ok tt
      → let (r, j') =
          place encrypt decrypt env path encrypted as_storage_error
            (record_taken env path size j.device_id)
            j in
        (r ≡ ok tt)
        × ((takeover_write encrypt decrypt env path size encrypted j).1
            ≡ record j' { gc_needed = true })
  unfolding takeover_write
  takeover_outcome size encrypted j done =
      elim (Result-cases
        (place encrypt decrypt env path encrypted as_storage_error
          (record_taken env path size j.device_id) j).0) [
            | inl (u, e) ↦ ground arith
            | inr (e, failed) ↦ absurd (ground arith)
          ]

  takeover_write-IsReadable :
      (size : ℕ) (encrypted : Bytes) (j : Jbod) (me : Text) (m : FileMetadata)
      → j.device_id ≡ some me
      → IsUnique id_of j.sources
      → lookup path j.metadata_store ≡ some m
      → (takeover_write encrypt decrypt env path size encrypted j).0 ≡ ok tt
      → IsReadable path encrypted (takeover_write encrypt decrypt env path size encrypted j).1
  takeover_write-IsReadable size encrypted j me m mine unique known done =
      let (placed, e) = takeover_outcome size encrypted j done in
      let h =
        place-IsReadable encrypt decrypt env path encrypted as_storage_error
          (record_taken env path size j.device_id) j unique
          (record_taken-Records size j me m mine known) placed in
      rw e (record {
        file = h.file;
        source = h.source;
        known = h.known;
        local = h.local;
        placed = h.placed;
        stored = h.stored;
      })

  write_file-IsReadable :
      (content : Bytes) (j : Jbod)
      → OwnsIt path j
      → IsUnique id_of j.sources
      → (write_file encrypt decrypt env path content j).0 ≡ ok tt
      → IsReadable path (encrypt content) (write_file encrypt decrypt env path content j).1
  write_file-IsReadable content j owns unique done =
      elim (Option-cases (lookup path j.metadata_store)) [
        | inl absent ↦
            let same : write_file encrypt decrypt env path content j
                ≡ place encrypt decrypt env path (encrypt content) (λ e. e)
                    (record_new env path (length content) j.device_id) j =
              unfold write_file create in ground arith in
            rw same (
              place-IsReadable encrypt decrypt env path (encrypt content) (λ e. e)
                (record_new env path (length content) j.device_id) j unique
                (record_new-Records (length content) j) (rw same at done))
        | inr (m, known) ↦ elim (Bool-cases (is_local_owner m.device_id j.device_id)) [
          | inl local ↦
              let same : write_file encrypt decrypt env path content j
                  ≡ overwrite encrypt decrypt env path (length content) (encrypt content) m j =
                unfold write_file in ground arith in
              rw same (
                overwrite-IsReadable encrypt decrypt env path (length content) (encrypt content) m j
                  known local (rw same at done))
          | inr foreign ↦
              let same : write_file encrypt decrypt env path content j
                  ≡ takeover_write encrypt decrypt env path (length content) (encrypt content) j =
                unfold write_file in ground arith in
              elim (Option-cases j.device_id) [
                | inl anonymous ↦ absurd (ground (arith, foreign, owns anonymous m known))
                | inr (me, mine) ↦ rw same (
                    takeover_write-IsReadable (length content) (encrypt content) j me m mine unique
                      known (rw same at done))
              ]
        ]
      ]

-- What a device writes it reads back: if its engine decrypts what it encrypts, a write that returns
-- makes the next read of the path return the content, be the file new, overwritten or taken over
-- from another device. Source ids are unique, the system lets the read through, and a device without an
-- id does not write over a file that another device owns.
pub read_file-write_file :
    (encrypt : Bytes → Bytes) (decrypt : Bytes → Result Bytes) (env env' : Env) (path : Text)
    (content : Bytes) (j : Jbod)
    → decrypt (encrypt content) ≡ ok content
    → env'.read_fault ≡ fine
    → OwnsIt path j
    → IsUnique id_of j.sources
    → (write_file encrypt decrypt env path content j).0 ≡ ok tt
    → (read_file encrypt decrypt env' path (write_file encrypt decrypt env path content j).1).0
      ≡ ok content
read_file-write_file encrypt decrypt env env' path content j inverse quiet owns unique done =
    read_file-IsReadable encrypt decrypt env' path (write_file encrypt decrypt env path content j).1
      (encrypt content) quiet
      (write_file-IsReadable encrypt decrypt env path content j owns unique done)
    ∙ inverse
