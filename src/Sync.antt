-- ===== src/Sync.antt =====
-- stardustlib/sync_client.py: the class SyncClient.
pub mod Merge
pub mod Blob
pub mod Client
pub mod Keys
