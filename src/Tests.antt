-- ===== src/Tests.antt =====
-- The concrete objects that the tests share.
pub mod Records
pub mod Files
pub mod Parts
pub mod Replicas
pub mod Settings
pub mod Services
pub mod Devices
use stardustfs.Prelude.{
  ℕ, Text, Bytes, true, false, none, some, [], ◌∷◌, codes, List, Result, ok, ◌≡◌, ◌≤◌, refl, arith,
  ◌==◌, text_eq, eq_iff, text_beq,
}
use stardustfs.Models.{FileMetadata, pending, synced, unreplicated}
use stardustfs.Table.{find_row}
use stardustfs.Metadata.{Db, Row, row_at}
use stardustfs.Metadata.Invariant.{IsValid}
use stardustfs.Source.{Source, Fault, fine, directory, loopback}
use stardustfs.Jbod.{Jbod, Env}

abbrev pub a_txt : Text
a_txt = codes "/a.txt"

-- The file as this device has it, and as the server has it.
abbrev pub local_file : FileMetadata
local_file = record {
  virtual_path = a_txt;
  source_id = codes "s";
  physical_path = codes "p";
  file_size = 2;
  created_at = 1;
  modified_at = 5;
  version = 2;
  device_id = some (codes "d");
  sync_status = pending;
  deleted = false;
}

abbrev pub server_file : FileMetadata
server_file = record local_file { version = 3; device_id = some (codes "e"); sync_status = synced }

abbrev pub local_row : Row
local_row = record { file = local_file; replication_status = unreplicated }

abbrev pub local_db : Db
local_db = record {
  files = local_row ∷ [];
  directories = record { virtual_path = codes "/d"; created_at = 1 } ∷ [];
}

abbrev pub disk : Source
disk = record {
  source_id = codes "s";
  kind = directory;
  is_active = true;
  files = record { name = codes "p"; content = 1 ∷ 2 ∷ [] } ∷ [];
  used_bytes = 2;
  disk_free = 10;
  disk_total = 20;
}

abbrev pub loop : Source
loop = record disk { kind = loopback 3 }

abbrev pub jbod : Jbod
jbod = record {
  sources = disk ∷ [];
  metadata_store = local_db;
  device_id = some (codes "d");
  remote_devices = [];
  gc_needed = false;
}

-- The device once its file has been uploaded.
abbrev pub synced_jbod : Jbod
synced_jbod = record jbod {
  metadata_store = record local_db {
    files = record local_row { file = record local_file { sync_status = synced } } ∷ [];
  };
}

abbrev pub env : Env
env = record {
  now = 7;
  uuid_hex = codes "0123456789abcdef0123456789abcdef";
  write_fault = fine;
  delete_fault = fine;
  read_fault = fine;
}

abbrev pub same : Bytes → Bytes
same t = t

abbrev pub opened : Bytes → Result Bytes
opened t = ok t

pub local_db-IsValid : IsValid local_db
unfolding find_row text_beq
local_db-IsValid = record {
  unique = (refl, tt);
  versions = λ q r e. ground (arith, eq_iff (codes "/a.txt") q);
}
