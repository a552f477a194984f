-- ===== src/Sync/Merge/Decision.antt =====
-- When the merge takes the two sides for a conflict.
use stardustfs.Prelude.{◌≡◌, arith, ◌&&◌, leb}
use stardustfs.Models.{FileMetadata, pending, sync_status_beq}
use stardustfs.Sync.Merge.{is_conflict}

-- The two sides are in conflict exactly if the local record waits for its upload and the server's
-- version has reached the local one.
pub is_conflict_lem :
    (local rec : FileMetadata)
    → is_conflict local rec
      ≡ (sync_status_beq local.sync_status pending && leb local.version rec.version)
unfolding is_conflict
is_conflict_lem local rec = ground arith
