-- ===== src/Jbod/Orphans.antt =====
-- The orphan collection of JBODManager. `faults` is what the system does to the deletion of each
-- physical file.
pub mod Exactness
pub mod Naming
use stardustfs.Prelude.{
  ℕ, zero, suc, Text, Bool, true, false, Option, none, some, List, [], ◌∷◌, ◌+◌, ◌&&◌, ◌||◌, not,
  ◌==◌, nat_eq, text_eq, if◌then◌else◌, ok, err, any, leb, Result,
}
use stardustfs.Metadata.Status.{live_physical_paths_for_device}
use stardustfs.Source
use stardustfs.Source.{Source, Fault, list_physical_files}
use stardustfs.Jbod.{Jbod, is_usable}

abbrev pub is_hex : ℕ → Bool
is_hex c = leb 48 c && leb c 57 || leb 97 c && leb c 102

-- `n` hexadecimal digits and an underscore at the front of the text.
unfoldable pub hex_then_underscore : ℕ → Text → Bool
hex_then_underscore n [] = false
hex_then_underscore zero (c ∷ t) = c == 95
hex_then_underscore (suc n) (c ∷ t) = is_hex c && hex_then_underscore n t

-- The regular expression of the files that the program itself has named.
unfoldable pub is_managed : Text → Bool
unfolding hex_then_underscore
is_managed = hex_then_underscore 32

-- `(source_id, name) in live`
unfoldable pub is_live : Text → Text → List (Text × Text) → Bool
is_live id name live = any (λ p. p.0 == id && p.1 == name) live

-- A file that the loop over the names of one source goes on to delete.
unfoldable pub is_orphan : List (Text × Text) → Text → Text → Bool
is_orphan live id name = is_managed name && not (is_live id name live)

abbrev pub attempt : (Text → Fault) → Text → ℕ × Source → ℕ × Source
attempt faults name (removed, s) =
    let (r, s') = Source.delete (faults name) name s in
    (elim r [ ok u ↦ removed + 1 | err e ↦ removed ], s')

unfoldable pub sweep :
    List (Text × Text) → (Text → Fault) → Text → List Text → ℕ × Source → ℕ × Source
sweep live faults id [] acc = acc
sweep live faults id (name ∷ names) acc =
    sweep live faults id names (if is_orphan live id name then attempt faults name acc else acc)

-- One round of the loop over the sources: a source that cannot be listed is passed over.
unfoldable pub collect_source : List (Text × Text) → (Text → Fault) → ℕ → Source → ℕ × Source
collect_source live faults removed s =
    if not (is_usable s) then (removed, s) else elim (list_physical_files s) [
      | err e ↦ (removed, s)
      | ok names ↦ sweep live faults s.source_id names (removed, s)
    ]

unfoldable pub collect_sources :
    List (Text × Text) → (Text → Fault) → ℕ → List Source → ℕ × List Source
collect_sources live faults removed [] = (removed, [])
collect_sources live faults removed (s ∷ sources) =
    let (removed', s') = collect_source live faults removed s in
    let (total, rest) = collect_sources live faults removed' sources in (total, s' ∷ rest)

-- Without a device id nothing can be told to be an orphan.
unfoldable pub gc_orphan_files : (Text → Fault) → Jbod → ℕ × Jbod
gc_orphan_files faults j = elim j.device_id [
  | none ↦ (0, j)
  | some device ↦
      let live = live_physical_paths_for_device device j.metadata_store in
      let (removed, sources) = collect_sources live faults 0 j.sources in
      (removed, record j { sources = sources })
]

unfoldable pub gc_orphan_files_if_needed : (Text → Fault) → Jbod → ℕ × Jbod
gc_orphan_files_if_needed faults j =
    if j.gc_needed then gc_orphan_files faults (record j { gc_needed = false }) else (0, j)
