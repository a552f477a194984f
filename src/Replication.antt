-- ===== src/Replication.antt =====
-- stardustlib/replication_manager.py: the class ReplicationManager. The central server, the holders and
-- the relay are the argument `net`, whose calls take the world to a reply and the next world; `digest`
-- is the hexadecimal SHA-256 of a text. The chunks of a heal are done one after another.
pub mod Transfer
pub mod Reach
pub mod Recovery
pub mod Steady
pub mod Holding
pub mod Soundness
pub mod Healing
pub mod Files
pub mod Restoring
use stardustfs.Prelude.{
  ℕ, zero, suc, Text, Bytes, Bool, true, false, Option, none, some, List, [], ◌∷◌, ◌++◌, map, ◌+◌,
  ◌-◌, ◌&&◌, ◌||◌, not, ◌==◌, nat_eq, text_eq, if◌then◌else◌, Result, ok, err, Error,
  replication_error, recovery_error, file_not_found, length, ltb, leb, codes, any, all, filter, min,
  is_some,
}
use stardustfs.Network.{Run, pure, raise, ◌>>=◌, ◌>>◌}
use stardustfs.Decimal.{decimal}
use stardustfs.Chunker.{join}
use stardustfs.Replication.Transfer.{
  Net, Holder, ChunkInfo, is_missing, token_of, register_chunk, placement, record_replica,
  list_chunks, list_replicas, holder_store, holder_fetch,
}

-- What the manager is made with: the digest, the server's goal and the own device.
pub record Setup : Type 0 where
  pub digest : Text → Text
  pub user_id : Text
  pub min_replicas : ℕ
  pub device_id : Option Text

pub record ReplicationResult : Type 0 where
  pub is_replicated : Bool
  pub replicas_per_chunk : List ℕ

pub record HealthSummary : Type 0 where
  pub degraded : Bool
  pub chunk_count : ℕ
  pub min_online : ℕ

pub record HealOutcome : Type 0 where
  pub chunk_id : Text
  pub added : ℕ
  pub healthy : Bool

pub record HealReport : Type 0 where
  pub is_replicated : Bool
  pub chunk_count : ℕ
  pub repaired : ℕ
  pub unrecoverable : List Text

unfoldable pub set_min_replicas : ℕ → Setup → Setup
set_min_replicas n setup = if leb 1 n then record setup { min_replicas = n } else setup

unfoldable pub file_ref_of : Setup → Text → Text
file_ref_of setup path = setup.digest (setup.user_id ++ (codes ":" ++ path))

unfoldable pub chunk_id_of : Setup → Text → ℕ → Text
chunk_id_of setup file_ref idx = setup.digest (file_ref ++ (codes ":" ++ decimal idx))

abbrev pub devices_of : Option Text → List Text
devices_of none = []
devices_of (some d) = if is_missing d then [] else d ∷ []

abbrev pub contains : Text → List Text → Bool
contains d ds = any (λ e. e == d) ds

-- `exclude` of a heal: the own device joins the holders.
abbrev pub with_self : Option Text → List Text → List Text
with_self none ds = ds
with_self (some d) ds = if is_missing d || contains d ds then ds else ds ++ d ∷ []

abbrev pub is_online : Holder → Bool
is_online h = not h.is_offline && not (is_missing h.connection_address)

abbrev pub named_devices : List Holder → List Text
named_devices holders = filter (λ d. not (is_missing d)) (map (λ h. h.device_id) holders)

module _ {W : Type 0} (setup : Setup) (net : Net W) (token : Text) where
  -- One candidate: pushed to, and recorded where that succeeds.
  unfoldable pub store_and_record : Text → Bytes → Holder → Run W Bool
  store_and_record chunk_id content h = if is_missing h.device_id then pure false else do
    stored ← holder_store net h.device_id h.connection_address chunk_id content token
    if stored then record_replica net token chunk_id h.device_id else pure false

  -- The loop over the placed holders.
  unfoldable pub place_all : Text → Bytes → ℕ → List Holder → Run W ℕ
  place_all chunk_id content placed [] = pure placed
  place_all chunk_id content placed (h ∷ holders) = do
    added ← store_and_record chunk_id content h
    place_all chunk_id content (if added then placed + 1 else placed) holders

  unfoldable pub replicate_chunk : Text → ℕ × Bytes → Run W ℕ
  replicate_chunk file_ref (idx, content) = do
    let chunk_id = chunk_id_of setup file_ref idx
    registered ← register_chunk net token chunk_id file_ref idx (length content)
    holders ← placement net setup.min_replicas token (length content) (devices_of setup.device_id)
    place_all chunk_id content 0 holders

  unfoldable pub replicate_each : Text → List (ℕ × Bytes) → Run W (List ℕ)
  replicate_each file_ref [] = pure []
  replicate_each file_ref (chunk ∷ chunks) = do
    placed ← replicate_chunk file_ref chunk
    rest ← replicate_each file_ref chunks
    pure (placed ∷ rest)

  -- The loop over the holders: those that are offline and those that cannot be named are left out.
  unfoldable pub first_data : Text → List Holder → Run W (Option Bytes)
  first_data chunk_id [] = pure none
  first_data chunk_id (h ∷ holders) =
      if h.is_offline || is_missing h.device_id && is_missing h.connection_address
      then first_data chunk_id holders
      else do
        content ← holder_fetch net h.device_id h.connection_address chunk_id token
        if is_some content then pure content else first_data chunk_id holders

  unfoldable pub fetch_from_any_holder : Text → Run W (Option Bytes)
  fetch_from_any_holder chunk_id = do
    holders ← list_replicas net token chunk_id
    first_data chunk_id holders

  abbrev pub collect :
      ChunkInfo → Option Bytes → List (ℕ × Bytes) × List Text → List (ℕ × Bytes) × List Text
  collect info none (parts, missing) = (parts, info.chunk_id ∷ missing)
  collect info (some content) (parts, missing) = ((info.idx, content) ∷ parts, missing)

  unfoldable pub gather_parts : List ChunkInfo → Run W (List (ℕ × Bytes) × List Text)
  gather_parts [] = pure ([], [])
  gather_parts (info ∷ infos) = do
    content ← fetch_from_any_holder info.chunk_id
    rest ← gather_parts infos
    pure (collect info content rest)

  -- The copy is taken from the first online holder that answers.
  unfoldable pub copy_of : Text → List Holder → Run W (Option Bytes)
  copy_of chunk_id [] = pure none
  copy_of chunk_id (h ∷ online) = do
    content ← holder_fetch net h.device_id h.connection_address chunk_id token
    if is_some content then pure content else copy_of chunk_id online

  -- The loop over the candidates, which stops once enough are added.
  unfoldable pub place_needed : Text → Bytes → ℕ → ℕ → List Holder → Run W ℕ
  place_needed chunk_id content need added [] = pure added
  place_needed chunk_id content need added (h ∷ candidates) =
      if leb need added then pure added else do
        done ← store_and_record chunk_id content h
        place_needed chunk_id content need (if done then added + 1 else added) candidates

  unfoldable pub fill_up : Text → List Holder → List Holder → Option Bytes → Run W HealOutcome
  fill_up chunk_id holders online none =
      pure (record { chunk_id = chunk_id; added = 0; healthy = false })
  fill_up chunk_id holders online (some content) = do
    candidates ←
        placement net setup.min_replicas token (length content)
          (with_self setup.device_id (named_devices holders))
    added ← place_needed chunk_id content (setup.min_replicas - length online) 0 candidates
    pure (record {
      chunk_id = chunk_id;
      added = added;
      healthy = leb setup.min_replicas (length online + added);
    })

  unfoldable pub heal_chunk : ChunkInfo → Run W HealOutcome
  heal_chunk info = do
    holders ← list_replicas net token info.chunk_id
    let online = filter is_online holders
    if leb setup.min_replicas (length online)
        then pure (record { chunk_id = info.chunk_id; added = 0; healthy = true })
        else do content ← copy_of info.chunk_id online; fill_up info.chunk_id holders online content

  unfoldable pub heal_each : List ChunkInfo → Run W (List HealOutcome)
  heal_each [] = pure []
  heal_each (info ∷ infos) = do
    outcome ← heal_chunk info
    rest ← heal_each infos
    pure (outcome ∷ rest)

  -- The least number of holders that are not offline, over the chunks.
  unfoldable pub least_online : Option ℕ → List ChunkInfo → Run W (Option ℕ)
  least_online least [] = pure least
  least_online least (info ∷ infos) = do
    holders ← list_replicas net token info.chunk_id
    let online = length (filter (λ h. not h.is_offline) holders)
    least_online (some (elim least [ none ↦ online | some n ↦ min n online ])) infos

abbrev pub or_zero : Option ℕ → ℕ
or_zero none = 0
or_zero (some n) = n

abbrev pub report_of : ℕ → List HealOutcome → HealReport
report_of chunk_count outcomes =
    let unrecoverable = map (λ o. o.chunk_id) (filter (λ o. not o.healthy) outcomes) in
    record {
      is_replicated = elim unrecoverable [ [] ↦ true | c ∷ cs ↦ false ];
      chunk_count = chunk_count;
      repaired = length (filter (λ o. ltb 0 o.added) outcomes);
      unrecoverable = unrecoverable;
    }

module _ {W : Type 0} (setup : Setup) (net : Net W) where
  unfoldable pub replicate_chunks : Text → List (ℕ × Bytes) → Run W ReplicationResult
  replicate_chunks file_ref chunks = do
    token ← token_of net
    counts ← replicate_each setup net token file_ref chunks
    pure (record {
      is_replicated = not (length counts == 0) && all (λ n. leb setup.min_replicas n) counts;
      replicas_per_chunk = counts;
    })

  unfoldable pub recover_chunks : Text → Run W Bytes
  recover_chunks file_ref = do
    token ← token_of net
    infos ← list_chunks net token file_ref
    if length infos == 0 then raise recovery_error else do
      found ← gather_parts setup net token infos
      if length found.1 == 0 then pure (join found.0) else raise recovery_error

  unfoldable pub ensure_chunks : Text → Run W HealReport
  ensure_chunks file_ref = do
    token ← token_of net
    infos ← list_chunks net token file_ref
    if length infos == 0
        then raise recovery_error
        else do outcomes ← heal_each setup net token infos; pure (report_of (length infos) outcomes)

  unfoldable pub health : Text → Run W HealthSummary
  health file_ref = do
    token ← token_of net
    infos ← list_chunks net token file_ref
    if length infos == 0
        then pure (record { degraded = false; chunk_count = 0; min_online = 0 })
        else do
          least ← least_online setup net token none infos
          let online = or_zero least
          pure (record {
            degraded = ltb online setup.min_replicas;
            chunk_count = length infos;
            min_online = online;
          })
