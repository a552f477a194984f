-- ===== src/Replication/Transfer.antt =====
-- stardustlib/replication_manager.py: the calls of the central server and of the holders. A field that a
-- response leaves out is empty; base64 is not modelled: a body carries the bytes, or none where it has no
-- data that decodes.
use stardustfs.Prelude.{
  ℕ, Text, Bytes, Bool, true, false, Option, none, some, List, [], ◌∷◌, ◌==◌, nat_eq, text_eq,
  if◌then◌else◌, Result, ok, err, replication_error, authentication_error, Error,
}
use stardustfs.Network.{Reply, lost, reply, Run, pure, ask, ◌>>=◌}

pub record Holder : Type 0 where
  pub device_id : Text
  pub connection_address : Text
  pub is_offline : Bool

pub record ChunkInfo : Type 0 where
  pub chunk_id : Text
  pub idx : ℕ

pub record Net (W : Type 0) : Type 0 where
  pub get_valid_token : Run W Text
  pub post_chunk : Text → Text → Text → ℕ → ℕ → W → Reply (Unit {0}) × W
  pub post_placement : Text → ℕ → ℕ → List Text → W → Reply (List Holder) × W
  pub post_replica : Text → Text → Text → W → Reply (Unit {0}) × W
  pub get_chunks : Text → Text → W → Reply (List ChunkInfo) × W
  pub get_replicas : Text → Text → W → Reply (List Holder) × W
  pub direct_store : Text → Text → Bytes → Text → W → Reply (Unit {0}) × W
  pub direct_fetch : Text → Text → Text → W → Reply (Option Bytes) × W
  pub relay_store : Text → Text → Bytes → Run W (Unit {0})
  pub relay_fetch : Text → Text → Run W Bytes

abbrev pub is_missing : Text → Bool
is_missing [] = true
is_missing (c ∷ t) = false

abbrev pub as_replication_error : Error → Error
as_replication_error authentication_error = replication_error
as_replication_error e = e

abbrev pub token_outcome : {W : Type 0} → Result Text × W → Result Text × W
token_outcome (err e, w) = (err (as_replication_error e), w)
token_outcome (ok token, w) = (ok token, w)

-- A list in the body of a 200, and no entry otherwise.
abbrev pub listed : {A : Type 0} → ℕ × List A → List A
listed (status, entries) = if status == 200 then entries else []

-- A relay request that raises anything is no success.
abbrev pub relayed : {W A : Type 0} → Result A × W → Result (Option A) × W
relayed (err e, w) = (ok none, w)
relayed (ok a, w) = (ok (some a), w)

abbrev pub relay_result : {W A : Type 0} → Result A × W → Result Bool × W
relay_result (err e, w) = (ok false, w)
relay_result (ok a, w) = (ok true, w)

-- What a direct request comes to: it is answered, or the relay takes over.
abbrev pub direct_result : {W : Type 0} → Run W Bool → Reply (Unit {0}) × W → Result Bool × W
direct_result relay (lost, w) = relay w
direct_result relay (reply status body, w) = (ok (status == 200), w)

abbrev pub direct_data :
    {W : Type 0} → Run W (Option Bytes) → Reply (Option Bytes) × W → Result (Option Bytes) × W
direct_data relay (lost, w) = relay w
direct_data relay (reply status body, w) = (ok (if status == 200 then body else none), w)

module _ {W : Type 0} (net : Net W) where
  unfoldable pub token_of : Run W Text
  token_of = λ w. token_outcome (net.get_valid_token w)

  unfoldable pub register_chunk : Text → Text → Text → ℕ → ℕ → Run W (Unit {0})
  register_chunk token chunk_id file_ref idx size = do
    answer ← ask (net.post_chunk token chunk_id file_ref idx size)
    pure tt

  unfoldable pub placement : ℕ → Text → ℕ → List Text → Run W (List Holder)
  placement min_replicas token size exclude = do
    answer ← ask (net.post_placement token size min_replicas exclude)
    pure (listed answer)

  unfoldable pub record_replica : Text → Text → Text → Run W Bool
  record_replica token chunk_id device_id = do
    answer ← ask (net.post_replica token chunk_id device_id)
    pure (answer.0 == 200)

  unfoldable pub list_chunks : Text → Text → Run W (List ChunkInfo)
  list_chunks token file_ref = do answer ← ask (net.get_chunks token file_ref); pure (listed answer)

  unfoldable pub list_replicas : Text → Text → Run W (List Holder)
  list_replicas token chunk_id = do
    answer ← ask (net.get_replicas token chunk_id)
    pure (listed answer)

  abbrev pub relay_store_of : Text → Text → Bytes → Run W Bool
  relay_store_of device_id chunk_id content =
      if is_missing device_id
      then pure false
      else (λ w. relay_result (net.relay_store device_id chunk_id content w))

  unfoldable pub holder_store : Text → Text → Text → Bytes → Text → Run W Bool
  holder_store device_id address chunk_id content token =
      if is_missing address then relay_store_of device_id chunk_id content else (λ w.
        direct_result (relay_store_of device_id chunk_id content)
          (net.direct_store address chunk_id content token w))

  abbrev pub relay_fetch_of : Text → Text → Run W (Option Bytes)
  relay_fetch_of device_id chunk_id =
      if is_missing device_id
      then pure none
      else (λ w. relayed (net.relay_fetch device_id chunk_id w))

  unfoldable pub holder_fetch : Text → Text → Text → Text → Run W (Option Bytes)
  holder_fetch device_id address chunk_id token =
      if is_missing address then relay_fetch_of device_id chunk_id else (λ w.
        direct_data (relay_fetch_of device_id chunk_id) (net.direct_fetch address chunk_id token w))
