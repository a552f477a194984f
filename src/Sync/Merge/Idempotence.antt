-- ===== src/Sync/Merge/Idempotence.antt =====
-- A record that has been merged has nothing left to merge.
use stardustfs.Prelude.{
  Text, Bool, true, false, Option, none, some, ◌≡◌, ◌≤◌, arith, text_eq, eq_refl, ltb, Option-cases,
  Bool-cases, inl, inr, subst, sym,
}
use stardustfs.Models.{FileMetadata, sync_status_beq}
use stardustfs.Metadata.{Row, row_at}
use stardustfs.Metadata.Lifecycle.{lookup_any-eq-metadata_of}
use stardustfs.Source.{Fault}
use stardustfs.Jbod.{Jbod}
use stardustfs.Sync.Merge.{is_conflict, merge_known, merge_record}
use stardustfs.Sync.Merge.Decision.{is_conflict_lem}
use stardustfs.Sync.Merge.Outcomes.{merged, incoming, brought_up, in_conflict, merge_calm-Becomes}

-- Nothing is left to merge: a record that is absent and deleted, or a row that is not older and not
-- in conflict.
abbrev pub IsSettled : FileMetadata → Option Row → Type 0
IsSettled rec none = rec.deleted ≡ true
IsSettled rec (some r) = (is_conflict r.file rec ≡ false) × (rec.version ≤ r.version)

merged-IsSettled :
    (rec : FileMetadata) (o : Option Row) → in_conflict rec o ≡ false → IsSettled rec (merged rec o)
unfolding sync_status_beq
merged-IsSettled rec none calm = elim (Bool-cases rec.deleted) [
  | inl gone ↦ let e : merged rec none ≡ none = ground arith in subst (IsSettled rec) (sym e) gone
  | inr here ↦
      let e : merged rec none ≡ some (incoming rec) = ground arith in
      subst (IsSettled rec) (sym e)
        (ground (arith, is_conflict_lem (incoming rec).file rec), omega arith)
]
merged-IsSettled rec (some r) calm = elim (Bool-cases (ltb r.version rec.version)) [
  | inl older ↦
      let e : merged rec (some r) ≡ some (brought_up rec r) = ground arith in
      subst (IsSettled rec) (sym e)
        (ground (arith, is_conflict_lem (brought_up rec r).file rec), omega arith)
  | inr newer ↦
      let e : merged rec (some r) ≡ some r = ground arith in
      subst (IsSettled rec) (sym e) (calm, ground arith)
]

module _ (device timestamp : Text) (attached : Bool) (fault : Fault) (rec : FileMetadata)
    (j : Jbod) where
  settled_merge :
      IsSettled rec (row_at rec.virtual_path j.metadata_store)
      → merge_record device timestamp attached fault rec j ≡ j
  unfolding merge_record merge_known
  settled_merge h = elim (Option-cases (row_at rec.virtual_path j.metadata_store)) [
    | inl free ↦ ground (arith, lookup_any-eq-metadata_of rec.virtual_path j.metadata_store)
    | inr (r, found) ↦ ground (arith, lookup_any-eq-metadata_of rec.virtual_path j.metadata_store)
  ]

-- Merging the same record once more changes nothing, neither the metadata nor the sources nor the
-- collection's flag, unless the two sides were in conflict.
pub merge_record_idempotent :
    (device timestamp : Text) (attached : Bool) (fault : Fault) (rec : FileMetadata) (j : Jbod)
    → in_conflict rec (row_at rec.virtual_path j.metadata_store) ≡ false
    → let j' = merge_record device timestamp attached fault rec j in
      merge_record device timestamp attached fault rec j' ≡ j'
merge_record_idempotent device timestamp attached fault rec j calm =
    settled_merge device timestamp attached fault rec
      (merge_record device timestamp attached fault rec j)
      (subst (IsSettled rec)
        (ground (
          arith,
          merge_calm-Becomes device timestamp attached fault rec j calm rec.virtual_path,
          eq_refl rec.virtual_path,
        ))
        (merged-IsSettled rec (row_at rec.virtual_path j.metadata_store) calm))
