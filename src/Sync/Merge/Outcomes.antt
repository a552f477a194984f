-- ===== src/Sync/Merge/Outcomes.antt =====
-- What the merge of one record leaves at every path.
use stardustfs.Prelude.{
  Text, Bool, true, false, Option, none, ◌≤◌, ◌∙◌, some, ◌≡◌, ◌≢◌, refl, arith, ◌==◌, text_eq,
  eq_iff, eq_refl, if◌then◌else◌, ok, err, Error, unique_violation, ltb, Option-cases, inl, inr,
  ◌⊎◌,
}
use stardustfs.Models.{FileMetadata, pending, conflict, synced, unreplicated, sync_status_beq_iff}
use stardustfs.Table.Laws.{map_option, find_row-append_new}
use stardustfs.Metadata.{Row, Db, path_of, row_at, with_file, lookup, mark, with_status, with_path}
use stardustfs.Metadata.Map.{Becomes, row_at-update_at}
use stardustfs.Metadata.Lifecycle.{lookup_any-eq-metadata_of, lookup-eq-shown}
use stardustfs.Metadata.Invariant.{IsValid}
use stardustfs.Conflict.{resolve_conflict}
use stardustfs.Conflict.Resolution.{Copied, resolve_conflict_lem}
use stardustfs.Source.{Fault}
use stardustfs.Jbod.{Jbod, mark_gc_needed}
use stardustfs.Sync.Merge.Decision.{is_conflict_lem}
use stardustfs.Sync.Merge.{
  server_row, insert_from_server, refreshed, drop_physical, propagate_tombstone, update_from_server,
  detect_ownership_loss, is_conflict, handle_conflict, merge_known, merge_record,
}

insert_from_server-Becomes :
    (rec : FileMetadata) (db : Db)
    → row_at rec.virtual_path db ≡ none
    → Becomes rec.virtual_path (some (server_row rec)) db (insert_from_server rec db)
unfolding insert_from_server
insert_from_server-Becomes rec db free q = ground (
  arith,
  lookup_any-eq-metadata_of rec.virtual_path db,
  find_row-append_new path_of q (server_row rec) db.files free,
)

-- The physical deletion and the ownership test leave the metadata and the device id alone.
propagate_tombstone_db :
    (attached : Bool) (fault : Fault) (rec : FileMetadata) (j : Jbod)
    → (propagate_tombstone attached fault rec j).metadata_store ≡ j.metadata_store
unfolding propagate_tombstone drop_physical
propagate_tombstone_db attached fault rec j = ground arith

detect_ownership_loss_db :
    (attached : Bool) (local rec : FileMetadata) (j : Jbod)
    → (detect_ownership_loss attached local rec j).metadata_store ≡ j.metadata_store
unfolding detect_ownership_loss mark_gc_needed
detect_ownership_loss_db attached local rec j = ground arith

update_from_server-Becomes :
    (attached : Bool) (fault : Fault) (rec : FileMetadata) (j : Jbod)
    → Becomes rec.virtual_path
        (map_option (with_file (refreshed rec)) (row_at rec.virtual_path j.metadata_store))
        j.metadata_store
        (update_from_server attached fault rec j).metadata_store
unfolding update_from_server
update_from_server-Becomes attached fault rec j q = ground (
  arith,
  propagate_tombstone_db attached fault rec j,
  eq_iff rec.virtual_path q,
  row_at-update_at rec.virtual_path q j.metadata_store (refreshed rec) (λ m. refl),
)

-- The row of a new record.
abbrev pub incoming : FileMetadata → Row
incoming rec = record {
  file = record {
    virtual_path = rec.virtual_path;
    source_id = rec.source_id;
    physical_path = rec.physical_path;
    file_size = rec.file_size;
    created_at = rec.created_at;
    modified_at = rec.modified_at;
    version = rec.version;
    device_id = rec.device_id;
    sync_status = synced;
    deleted = rec.deleted;
  };
  replication_status = unreplicated;
}

-- A row with the record's data; its time of creation and its replication status stay.
abbrev pub brought_up : FileMetadata → Row → Row
brought_up rec r = record {
  file = record {
    virtual_path = r.virtual_path;
    source_id = rec.source_id;
    physical_path = rec.physical_path;
    file_size = rec.file_size;
    created_at = r.created_at;
    modified_at = rec.modified_at;
    version = rec.version;
    device_id = rec.device_id;
    sync_status = synced;
    deleted = rec.deleted;
  };
  replication_status = r.replication_status;
}

-- The specification of a merge without a conflict, on the row at the record's path.
abbrev pub merged : FileMetadata → Option Row → Option Row
merged rec none = if rec.deleted then none else some (incoming rec)
merged rec (some r) = if ltb r.version rec.version then some (brought_up rec r) else some r

-- The local row and the server's record are in conflict.
abbrev pub in_conflict : FileMetadata → Option Row → Bool
in_conflict rec none = false
in_conflict rec (some r) = is_conflict r.file rec

module _ (device timestamp : Text) (attached : Bool) (fault : Fault) (rec : FileMetadata)
    (j : Jbod) where
  pub merge_calm-Becomes :
      in_conflict rec (row_at rec.virtual_path j.metadata_store) ≡ false
      → Becomes rec.virtual_path
          (merged rec (row_at rec.virtual_path j.metadata_store))
          j.metadata_store
          (merge_record device timestamp attached fault rec j).metadata_store
  unfolding merge_record merge_known
  merge_calm-Becomes calm q = elim (Option-cases (row_at rec.virtual_path j.metadata_store)) [
    | inl free ↦ ground (
      arith,
      eq_iff rec.virtual_path q,
      lookup_any-eq-metadata_of rec.virtual_path j.metadata_store,
      insert_from_server-Becomes rec j.metadata_store free q,
    )
    | inr (r, found) ↦ ground (
      arith,
      eq_iff rec.virtual_path q,
      lookup_any-eq-metadata_of rec.virtual_path j.metadata_store,
      detect_ownership_loss_db attached r.file rec j,
      update_from_server-Becomes attached fault rec (detect_ownership_loss attached r.file rec j) q,
    )
  ]

-- After a conflict with the row `r`: the copy and the server's row.
abbrev pub Split : Text → FileMetadata → Row → Db → Db → Type 0
Split copy rec r db db' =
    (q : Text)
    → row_at q db' ≡ (
        if copy == q
        then some (with_status conflict (with_path copy r))
        else if rec.virtual_path == q
        then some (incoming rec)
        else row_at q db)

insert_from_server-Split :
    (copy : Text) (rec : FileMetadata) (r : Row) (db d : Db)
    → copy ≢ rec.virtual_path
    → Copied rec.virtual_path copy r db d
    → Split copy rec r db (insert_from_server rec d)
insert_from_server-Split copy rec r db d ne copied q =
    let free : row_at rec.virtual_path d ≡ none =
      ground
        (arith, copied rec.virtual_path, eq_iff copy rec.virtual_path, eq_refl rec.virtual_path) in
    ground (
      arith,
      copied q,
      insert_from_server-Becomes rec d free q,
      eq_iff copy q,
      eq_iff rec.virtual_path q,
    )

module _ (device timestamp : Text) (attached : Bool) (fault : Fault) (rec : FileMetadata) (j : Jbod)
    (r : Row) (v : IsValid j.metadata_store)
    (found : row_at rec.virtual_path j.metadata_store ≡ some r) where
  merge_record-conflict :
      is_conflict r.file rec ≡ true
      → merge_record device timestamp attached fault rec j
        ≡ handle_conflict device timestamp attached fault rec j
  unfolding merge_record merge_known
  merge_record-conflict clash =
      ground (arith, lookup_any-eq-metadata_of rec.virtual_path j.metadata_store)

  handle_conflict_ok :
      (copy : Text) (d : Db)
      → resolve_conflict device timestamp rec.virtual_path j.metadata_store ≡ (ok copy, d)
      → (handle_conflict device timestamp attached fault rec j).metadata_store
        ≡ insert_from_server rec d
  unfolding handle_conflict
  handle_conflict_ok copy d e = ground arith

  handle_conflict_err :
      (e : Error) (d : Db)
      → resolve_conflict device timestamp rec.virtual_path j.metadata_store ≡ (err e, d)
      → (handle_conflict device timestamp attached fault rec j).metadata_store ≡ d
  unfolding handle_conflict
  handle_conflict_err e d h = ground arith

  -- In a well-formed database, where a live local row waits for its upload and the server's record has
  -- its version or a later one, the merge does one of two things. Either the local row goes to a name
  -- that no live file had, with the status conflict, the server's record stands at the path, and no other
  -- row has changed; or a tombstone has that name, and the local row stays at its path, still waiting,
  -- and the server's record is not taken.
  pub merge_conflict_lem :
      r.deleted ≡ false
      → r.sync_status ≡ pending
      → r.version ≤ rec.version
      → (copy : Text) × (lookup copy j.metadata_store ≡ none)
        × (Split copy rec r j.metadata_store
              (merge_record device timestamp attached fault rec j).metadata_store
            ⊎ ((row_at copy j.metadata_store ≢ none)
                × ((merge_record device timestamp attached fault rec j).metadata_store
                    ≡ mark rec.virtual_path pending j.metadata_store)))
  merge_conflict_lem live waits reached =
      let clash : is_conflict r.file rec ≡ true =
        is_conflict_lem r.file rec
        ∙ ground (arith, sync_status_beq_iff r.sync_status pending, waits, reached) in
      let (copy, hidden, outcome) =
        resolve_conflict_lem device timestamp rec.virtual_path j.metadata_store r v found live in
      rw (merge_record-conflict clash) (
        copy,
        hidden,
        elim outcome [
          | inl (d, e, copied) ↦ inl (
              rw (handle_conflict_ok copy d e) (
                insert_from_server-Split copy rec r j.metadata_store d
                  (λ same. ground (arith, lookup-eq-shown copy j.metadata_store)) copied))
          | inr (taken, e) ↦ inr (
            taken,
            handle_conflict_err unique_violation (mark rec.virtual_path pending j.metadata_store) e,
          )
        ],
      )
