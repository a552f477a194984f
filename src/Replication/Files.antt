-- ===== src/Replication/Files.antt =====
-- stardustlib/replication_manager.py: the methods on a file, around the chunks: replicate, recover,
-- ensure_replicas and replication_health. The state is the JBOD manager with the world of the network.
-- The engine encrypts with the initialisation vector of the call.
use stardustfs.Prelude.{
  ℕ, Text, Bytes, Bool, true, false, Option, none, some, List, Result, ok, err, replication_error,
  file_not_found, codes, length,
}
use stardustfs.Metadata.{Db, lookup}
use stardustfs.Metadata.Status.{set_replication_status}
use stardustfs.Jbod.{Jbod, Env}
use stardustfs.Jbod.Files.{with_db, read_file, write_file}
use stardustfs.Chunker.{split}
use stardustfs.Replication.{
  Setup, ReplicationResult, HealReport, HealthSummary, file_ref_of, replicate_chunks,
  recover_chunks, ensure_chunks, health,
}
use stardustfs.Replication.Transfer.{Net}

pub record Engine : Type 0 where
  pub encrypt : Bytes → Bytes
  pub decrypt : Bytes → Result Bytes

abbrev pub status_text : Bool → Text
status_text true = codes "replicated"
status_text false = codes "pending"

abbrev pub with_status : Result Db → Jbod → Result (Unit {0}) × Jbod
with_status (err e) j = (err e, j)
with_status (ok db) j = (ok tt, with_db db j)

abbrev pub after_status : {A : Type 0} → A → Result (Unit {0}) → Result A
after_status a (err e) = err e
after_status a (ok u) = ok a

-- The status of the file, once its result is there.
unfoldable pub record_status :
    {A W : Type 0} → (A → Bool) → Text → Jbod → Result A × W → Result A × Jbod × W
record_status is_replicated path j (err e, w) = (err e, j, w)
record_status is_replicated path j (ok a, w) =
    let (r, j') =
      with_status (set_replication_status path (status_text (is_replicated a)) j.metadata_store)
        j in
    (after_status a r, j', w)

-- The number of bytes, once they are written.
abbrev pub written : {W : Type 0} → ℕ → Result (Unit {0}) × Jbod → W → Result ℕ × Jbod × W
written size (err e, j) w = (err e, j, w)
written size (ok u, j) w = (ok size, j, w)

module _ {W : Type 0} (setup : Setup) (net : Net W) (chunk_size : ℕ) (env : Env) where
  abbrev pub replicate_parts :
      Text → Result (List (ℕ × Bytes)) → Jbod → W → Result ReplicationResult × Jbod × W
  replicate_parts path (err e) j w = (err e, j, w)
  replicate_parts path (ok parts) j w =
      record_status (λ r. r.is_replicated) path j
        (replicate_chunks setup net (file_ref_of setup path) parts w)

  abbrev pub replicate_read :
      Engine → Text → Result Bytes × Jbod → W → Result ReplicationResult × Jbod × W
  replicate_read engine path (err e, j) w = (err e, j, w)
  replicate_read engine path (ok plaintext, j) w =
      replicate_parts path (split (engine.encrypt plaintext) chunk_size) j w

  unfoldable pub replicate : Option Engine → Text → Jbod → W → Result ReplicationResult × Jbod × W
  unfolding record_status
  replicate none path j w = (err replication_error, j, w)
  replicate (some engine) path j w = elim (lookup path j.metadata_store) [
    | none ↦ (err file_not_found, j, w)
    | some m ↦ replicate_read engine path (read_file engine.encrypt engine.decrypt env path j) w
  ]

  abbrev pub write_opened : Engine → Text → Result Bytes → Jbod → W → Result ℕ × Jbod × W
  write_opened engine path (err e) j w = (err e, j, w)
  write_opened engine path (ok plaintext) j w =
      written (length plaintext) (write_file engine.encrypt engine.decrypt env path plaintext j) w

  abbrev pub open_blob : Engine → Text → Jbod → Result Bytes × W → Result ℕ × Jbod × W
  open_blob engine path j (err e, w) = (err e, j, w)
  open_blob engine path j (ok blob, w) = write_opened engine path (engine.decrypt blob) j w

  unfoldable pub recover : Option Engine → Text → Jbod → W → Result ℕ × Jbod × W
  recover none path j w = (err replication_error, j, w)
  recover (some engine) path j w =
      open_blob engine path j (recover_chunks setup net (file_ref_of setup path) w)

  abbrev pub keep_report : Jbod → Result HealReport × W → Result HealReport × Jbod × W
  keep_report j (r, w) = (r, j, w)

  -- A file without a record only reports.
  unfoldable pub ensure_replicas : Text → Jbod → W → Result HealReport × Jbod × W
  unfolding record_status
  ensure_replicas path j w =
      let outcome = ensure_chunks setup net (file_ref_of setup path) w in
      elim (lookup path j.metadata_store) [
        | none ↦ keep_report j outcome
        | some m ↦ record_status (λ r. r.is_replicated) path j outcome
      ]

  unfoldable pub replication_health : Text → W → Result HealthSummary × W
  replication_health path w = health setup net (file_ref_of setup path) w
