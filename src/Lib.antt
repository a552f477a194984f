-- ===== src/Lib.antt =====
-- StardustFS keeps a user's encrypted files on the storage sources of several devices and
-- synchronises their metadata through a server. The development models its core and proves it
-- correct.
--
-- The parts, and the files that model them:
--   Models: the run-time records of stardustlib/models.py.
--   Table, Paths, Like, Decimal: what the program uses of SQLite's tables and of its operator LIKE,
--     and of Python's texts, paths and decimal numbers.
--   Metadata: stardustlib/metadata_store.py. A `Db` is the list of the rows of the two tables; every
--     method of MetadataStore is a function of its own name. Metadata/Status has the status columns
--     and the queries, Metadata/Directories the listing and the move of directories, Metadata/Schema
--     the migrations.
--   Conflict: stardustlib/conflict_resolver.py, which renames the local row of a conflict.
--   Source: stardustlib/storage_source.py. A `Source` is the list of its files with the space that
--     is counted or reported.
--   Jbod: stardustlib/jbod_manager.py. A `Jbod` holds the sources, the database and the proxies of
--     the other devices. Jbod/Files has the operations on files, Jbod/Orphans the orphan collection,
--     Jbod/Folders the operations on directories, with Source/Folders below them.
--   Sync/Merge: the merge of server records in stardustlib/sync_client.py, which works on the
--     database and the sources of a `Jbod` and calls Conflict. Sync/Blob: the encrypted blob.
--   Sync/Client: the upload with its retries, the download and the reconciliation of a device that
--     was long offline. Sync/Keys: the upload and the download of the key's backup.
--   Chunker, Encryption, KeyBackup, Parity: stardustlib/chunker.py, encryption_engine.py,
--     key_backup_engine.py and parity_store.py.
--   Json, Config: stardustlib/config_loader.py, with the values of Python's `json`. Config/Migration
--     has the migration to version 2 and the loading of the key.
--   Network: calls that take a world to their outcome and to the next world.
--   Replication: stardustlib/replication_manager.py. Replication/Transfer has the requests to the
--     central server and to the holders, which fall back on the relay; the world of `Net` is whatever
--     they change. Replication/Files has the methods on a whole file, over a `Jbod`.
--   Scheduler: stardustlib/replication_scheduler.py, whose cycles call a `Manager`.
--   Auth: stardustlib/auth_client.py with the file of stardustlib/credential_store.py.
--   P2p: stardustlib/p2p_server.py, which serves the sources of a `Jbod` and a `ParityStore` to other
--     devices. P2p/Confinement has the check of paths, P2p/Handlers the authorisation and the handlers.
--   Remote: stardustlib/remote_source.py with stardustlib/relay_client.py, the requests to another
--     device's P2P server or, where it is not reached, by the relay; Remote/Worker has the rounds of
--     stardustlib/relay_worker.py, which call `dispatch` of P2p.
--   Devices: stardustlib/device_manager.py, registration and heartbeats.
--   Recovery: stardustlib/online_recovery.py, whose rounds call the other components as `Services`.
--   Daemon: stardustlib/daemon.py, its control file, its heartbeats and its stop file.
--   Tests: concrete objects and the runs of the theorems on them.
--
-- A method that raises returns `err`; a method that changes state returns the new state beside its
-- result, also where it raises. What the operating system does to a call is a `Fault`, chosen anew
-- for each call; clocks, UUIDs and initialisation vectors are arguments. The ciphers, the server and
-- the reading and writing of SQLite files are arguments too, and what a theorem needs of them is one
-- of its hypotheses.
--
-- Bounds: the search for a conflict name runs on the number of rows plus 1 as its fuel, which is
-- enough because each name that is taken is the path of another row. The upload has the five
-- attempts of the program. Splitting a blob runs on the blob's length, since each step is at least 1.
--
-- The search for a backup path of the configuration has the number of files plus 1 as its fuel, since
-- each path that is taken is another file's.
--
-- The heals of a file's chunks and the files of a backup cycle are done one after another, where the
-- program overlaps up to four of them. Base64 is not modelled: a body carries bytes, or none.
--
-- The deletion of a directory has Python's depth of recursion as its limit, and raises at its end.
--
-- Not modelled: the transactions' failures and the encryption of SQLite, mounting, a query for a disk's
-- space that fails, threads and the loops that only wait, UPnP, the hosting's reports, hole punching,
-- answers of the central server to the P2P server that lack their fields, the command line and the
-- graphical interface.
pub mod Prelude
pub mod Models
pub mod Table
pub mod Paths
pub mod Like
pub mod Chunker
pub mod Source
pub mod Decimal
pub mod Metadata
pub mod Conflict
pub mod Jbod
pub mod Sync
pub mod Parity
pub mod Encryption
pub mod KeyBackup
pub mod Json
pub mod Config
pub mod Network
pub mod Replication
pub mod Scheduler
pub mod Auth
pub mod P2p
pub mod Remote
pub mod Devices
pub mod Daemon
pub mod Recovery
pub mod Tests
