-- ===== src/Models.antt =====
-- stardustlib/models.py: the run-time data model. Texts are lists of code points; a time is a
-- natural number of clock ticks, since the program only orders and subtracts times.
use stardustfs.Prelude.{ℕ, Text, Bool, true, false, Option, ◌≡◌, ◌↔◌, arith, text_eq}

-- The values of `sync_status`, which `set_sync_status` checks.
pub data SyncStatus : Type 0 where
  synced pending conflict : SyncStatus

pub data ReplicationStatus : Type 0 where
  unreplicated waiting replicated : ReplicationStatus

pub record FileMetadata : Type 0 where
  pub virtual_path : Text
  pub source_id : Text
  pub physical_path : Text
  pub file_size : ℕ
  pub created_at : ℕ
  pub modified_at : ℕ
  pub version : ℕ
  pub device_id : Option Text
  pub sync_status : SyncStatus
  pub deleted : Bool

pub record EntryInfo : Type 0 where
  pub name : Text
  pub is_directory : Bool
  pub file_size : ℕ
  pub created_at : ℕ
  pub modified_at : ℕ

pub record FileInfo : Type 0 where
  pub virtual_path : Text
  pub source_id : Text
  pub file_size : ℕ
  pub created_at : ℕ
  pub modified_at : ℕ
  pub is_directory : Bool

unfoldable pub sync_status_beq : SyncStatus → SyncStatus → Bool
sync_status_beq synced synced = true
sync_status_beq pending pending = true
sync_status_beq conflict conflict = true
sync_status_beq _ _ = false

pub sync_status_beq_iff : (a b : SyncStatus) → (sync_status_beq a b ≡ true) ↔ (a ≡ b)
unfolding sync_status_beq
sync_status_beq_iff a b = ground arith
