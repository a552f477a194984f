-- ===== src/Jbod/Readable.antt =====
-- When a path can be read back, and that an overwritten or a newly placed file can.
use stardustfs.Prelude.{
  ℕ, Text, Bytes, true, Option, none, some, List, [], ◌∷◌, ◌≡◌, arith, text_eq, option_text_eq,
  eq_iff, eq_refl, Result, ok, Error, Result-cases, Option-cases, inl, inr, length, subst, sym, ◌∙◌,
}
use stardustfs.Models.{FileMetadata}
use stardustfs.Table.{find_row, IsUnique, update_rows}
use stardustfs.Table.Laws.{find_row-set, key-find_row}
use stardustfs.Metadata.{Db, row_at, lookup, update, updated, set_device}
use stardustfs.Metadata.Map.{update-Becomes}
use stardustfs.Metadata.Lifecycle.{lookup-eq-shown}
use stardustfs.Source
use stardustfs.Source.{Source, fine}
use stardustfs.Source.Content.{Holds, write-Holds, read-Holds}
use stardustfs.Jbod.{
  Jbod, Env, id_of, select_source, get_source_by_id, set_source, is_local_owner,
  generate_physical_path,
}
use stardustfs.Jbod.Files.{read_local, read_owned, read_file, overwrite, place, with_db}
use stardustfs.Jbod.Selection.{IsIn, select_source_best}

-- The path has a local file whose physical file holds the content.
pub record IsReadable (path : Text) (encrypted : Bytes) (j : Jbod) : Type 0 where
  pub file : FileMetadata
  pub source : Source
  pub known : lookup path j.metadata_store ≡ some file
  pub local : is_local_owner file.device_id j.device_id ≡ true
  pub placed : get_source_by_id file.source_id j ≡ some source
  pub stored : Holds file.physical_path encrypted file.source_id source

find_row-IsIn :
    (s : Source) (sources : List Source)
    → IsUnique id_of sources
    → IsIn s sources
    → find_row id_of s.source_id sources ≡ some s
unfolding find_row
find_row-IsIn s [] u h = elim h [ ]
find_row-IsIn s (x ∷ sources) u h =
    ground (arith, eq_iff x.source_id s.source_id, find_row-IsIn s sources u.1)

-- The object that a method of the source has changed is found under its id.
get_source_by_id-set_source :
    (id : Text) (s s' : Source) (j : Jbod)
    → get_source_by_id id j ≡ some s
    → s'.source_id ≡ id
    → get_source_by_id id (set_source s' j) ≡ some s'
get_source_by_id-set_source id s s' j found same =
    subst (λ k. find_row id_of id (update_rows id_of k (λ old. s') j.sources) ≡ some s') (sym same)
      (find_row-set id_of id (λ old. s') j.sources s found same)

-- The row that `update` leaves shows the file with the new place and owner.
pub lookup-update :
    (path : Text) (size now : ℕ) (device source physical : Option Text) (db : Db) (m : FileMetadata)
    → lookup path db ≡ some m
    → lookup path (update path size now device source physical db)
      ≡ some (updated size now device source physical m)
lookup-update path size now device source physical db m h = elim (Option-cases (row_at path db)) [
  | inl absent ↦ ground (arith, lookup-eq-shown path db)
  | inr (r, found) ↦ ground (
    arith,
    eq_refl path,
    lookup-eq-shown path db,
    lookup-eq-shown path (update path size now device source physical db),
    update-Becomes path db size now device source physical path,
  )
]

still_local :
    (m : FileMetadata) (j : Jbod)
    → is_local_owner m.device_id j.device_id ≡ true
    → is_local_owner (set_device j.device_id m.device_id) j.device_id ≡ true
still_local m j h = elim (Option-cases j.device_id) [
  | inl anonymous ↦ ground arith
  | inr (d, e) ↦ ground (arith, eq_refl {A = Option Text} (some d))
]

own_local :
    (m : FileMetadata) (j : Jbod)
    → m.device_id ≡ j.device_id
    → is_local_owner m.device_id j.device_id ≡ true
own_local m j h = elim (Option-cases m.device_id) [
  | inl anonymous ↦ ground arith
  | inr (d, e) ↦ ground (arith, eq_refl {A = Option Text} (some d))
]

module _ (encrypt : Bytes → Bytes) (decrypt : Bytes → Result Bytes) (env : Env) (path : Text) where
  pub read_file-IsReadable :
      (j : Jbod) (encrypted : Bytes)
      → env.read_fault ≡ fine
      → IsReadable path encrypted j
      → (read_file encrypt decrypt env path j).0 ≡ decrypt encrypted
  unfolding read_file read_owned read_local
  read_file-IsReadable j encrypted f h = ground (
    arith,
    h.known,
    h.local,
    h.placed,
    h.stored.active,
    f,
    read-Holds h.file.physical_path encrypted h.file.source_id h.source h.stored,
  )

  -- The state after a successful write to the source `s`.
  stored_in : Text → Bytes → Source → Db → Jbod → Jbod
  stored_in physical encrypted s db j =
      with_db db (set_source (Source.write env.write_fault physical encrypted s).1 j)

  stored_in-IsReadable :
      (encrypted : Bytes) (m : FileMetadata) (s : Source) (db : Db) (j : Jbod)
      → lookup path db ≡ some m
      → is_local_owner m.device_id j.device_id ≡ true
      → get_source_by_id m.source_id j ≡ some s
      → (Source.write env.write_fault m.physical_path encrypted s).0 ≡ ok tt
      → IsReadable path encrypted (stored_in m.physical_path encrypted s db j)
  unfolding stored_in
  stored_in-IsReadable encrypted m s db j known local found done =
      let same : s.source_id ≡ m.source_id = key-find_row id_of m.source_id j.sources s found in
      let held = write-Holds env.write_fault m.physical_path encrypted s done in
      record {
        file = m;
        source = (Source.write env.write_fault m.physical_path encrypted s).1;
        known = known;
        local = local;
        placed =
            get_source_by_id-set_source m.source_id s
              (Source.write env.write_fault m.physical_path encrypted s).1 j found
              (held.same ∙ same);
        stored = record { same = held.same ∙ same; active = held.active; holds = held.holds };
      }

  overwrite_outcome :
      (size : ℕ) (encrypted : Bytes) (m : FileMetadata) (s : Source) (j : Jbod)
      → get_source_by_id m.source_id j ≡ some s
      → (overwrite encrypt decrypt env path size encrypted m j).0 ≡ ok tt
      → ((Source.write env.write_fault m.physical_path encrypted s).0 ≡ ok tt)
        × ((overwrite encrypt decrypt env path size encrypted m j).1
            ≡ stored_in m.physical_path encrypted s
                (update path size env.now j.device_id none none j.metadata_store)
                j)
  unfolding overwrite stored_in
  overwrite_outcome size encrypted m s j found done = ground arith

  pub overwrite-IsReadable :
      (size : ℕ) (encrypted : Bytes) (m : FileMetadata) (j : Jbod)
      → lookup path j.metadata_store ≡ some m
      → is_local_owner m.device_id j.device_id ≡ true
      → (overwrite encrypt decrypt env path size encrypted m j).0 ≡ ok tt
      → IsReadable path encrypted (overwrite encrypt decrypt env path size encrypted m j).1
  overwrite-IsReadable size encrypted m j known local done =
      elim (Option-cases (get_source_by_id m.source_id j)) [
        | inl absent ↦ absurd (unfold overwrite in ground arith)
        | inr (s, found) ↦
            let (w, e) = overwrite_outcome size encrypted m s j found done in
            rw e (
              stored_in-IsReadable encrypted (updated size env.now j.device_id none none m) s
                (update path size env.now j.device_id none none j.metadata_store) j
                (lookup-update path size env.now j.device_id none none j.metadata_store m known)
                (still_local m j local) found w)
      ]

  place_outcome :
      (encrypted : Bytes) (raised : Error → Error) (record_in : Text → Text → Db → Result Db)
      (j : Jbod)
      → (place encrypt decrypt env path encrypted raised record_in j).0 ≡ ok tt
      → (s : Source) × (db : Db) × (select_source (length encrypted) j ≡ ok s)
        × ((Source.write env.write_fault (generate_physical_path env.uuid_hex path) encrypted s).0
            ≡ ok tt)
        × (record_in s.source_id (generate_physical_path env.uuid_hex path) j.metadata_store
            ≡ ok db)
        × ((place encrypt decrypt env path encrypted raised record_in j).1
            ≡ stored_in (generate_physical_path env.uuid_hex path) encrypted s db j)
  unfolding place stored_in
  place_outcome encrypted raised record_in j done =
      elim (Result-cases (select_source (length encrypted) j)) [
        | inr (e, full) ↦ absurd (ground arith)
        | inl (s, chosen) ↦
            elim (Result-cases
              (record_in s.source_id (generate_physical_path env.uuid_hex path) j.metadata_store)) [
                | inr (e, refused) ↦ absurd (ground arith)
                | inl (db, recorded) ↦ (s, db, chosen, ground arith, recorded, ground arith)
              ]
      ]

  -- What recording a placed file must leave: the path shows a file at that place, of this device.
  unfoldable pub Records : (Text → Text → Db → Result Db) → Jbod → Type 0
  Records record_in j =
      (source physical : Text) (db : Db)
      → record_in source physical j.metadata_store ≡ ok db
      → (m : FileMetadata) × (lookup path db ≡ some m)
        × (m.source_id ≡ source)
        × (m.physical_path ≡ physical)
        × (m.device_id ≡ j.device_id)

  pub place-IsReadable :
      (encrypted : Bytes) (raised : Error → Error) (record_in : Text → Text → Db → Result Db)
      (j : Jbod)
      → IsUnique id_of j.sources
      → Records record_in j
      → (place encrypt decrypt env path encrypted raised record_in j).0 ≡ ok tt
      → IsReadable path encrypted (place encrypt decrypt env path encrypted raised record_in j).1
  unfolding Records
  place-IsReadable encrypted raised record_in j unique records done =
      let (s, db, chosen, w, recorded, e) = place_outcome encrypted raised record_in j done in
      let physical = generate_physical_path env.uuid_hex path in
      let (m, known, at_source, at_physical, of_device) =
        records s.source_id physical db recorded in
      let (listed, room, most) = select_source_best (length encrypted) j s chosen in
      let found : get_source_by_id m.source_id j ≡ some s =
        rw at_source (find_row-IsIn s j.sources unique listed) in
      rw e (
        subst (λ p. IsReadable path encrypted (stored_in p encrypted s db j)) at_physical
          (stored_in-IsReadable encrypted m s db j known (own_local m j of_device) found
            (rw at_physical w)))
