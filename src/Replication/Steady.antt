-- ===== src/Replication/Steady.antt =====
-- What the calls of a replication leave as it is.
use stardustfs.Prelude.{
  ℕ, Text, Bytes, Bool, true, false, List, [], ◌∷◌, ◌+◌, ok, err, Result, length, if◌then◌else◌,
  ◌==◌, nat_eq,
}
use stardustfs.Network.{Reply, lost, reply, Run, and_then, answered, pure, ◌>>=◌}
use stardustfs.Network.Ensures.{keeps-and_then}
use stardustfs.Replication.{
  Setup, chunk_id_of, store_and_record, place_all, replicate_chunk, replicate_each, devices_of,
}
use stardustfs.Replication.Transfer.{
  Net, Holder, is_missing, register_chunk, placement, record_replica, holder_store, relay_store_of,
  token_outcome, listed, relay_result, direct_result,
}

-- No call of a replication ends `P`.
pub record IsSteady (W : Type 0) (net : Net W) (P : W → Type 0) : Type 0 where
  pub of_token : (w : W) → P w → P (net.get_valid_token w).1
  pub of_chunk : (t c f : Text) (i n : ℕ) (w : W) → P w → P (net.post_chunk t c f i n w).1
  pub of_placement :
      (t : Text) (n k : ℕ) (ds : List Text) (w : W) → P w → P (net.post_placement t n k ds w).1
  pub of_replica : (t c d : Text) (w : W) → P w → P (net.post_replica t c d w).1
  pub of_direct : (a c t : Text) (b : Bytes) (w : W) → P w → P (net.direct_store a c b t w).1
  pub of_relay : (d c : Text) (b : Bytes) (w : W) → P w → P (net.relay_store d c b w).1

module _ {W : Type 0} (P : W → Type 0) where
  keeps-answered : {A : Type 0} (outcome : Reply A × W) → P outcome.1 → P (answered outcome).1
  keeps-answered (lost, w) h = h
  keeps-answered (reply status body, w) h = h

  keeps-token_outcome : (outcome : Result Text × W) → P outcome.1 → P (token_outcome outcome).1
  keeps-token_outcome (err e, w) h = h
  keeps-token_outcome (ok t, w) h = h

  keeps-relay_result :
      {A : Type 0} (outcome : Result A × W) → P outcome.1 → P (relay_result outcome).1
  keeps-relay_result (err e, w) h = h
  keeps-relay_result (ok a, w) h = h

  keeps-direct_result :
      (relay : Run W Bool) (outcome : Reply (Unit {0}) × W)
      → ((w : W) → P w → P (relay w).1)
      → P outcome.1
      → P (direct_result relay outcome).1
  keeps-direct_result relay (lost, w) k h = k w h
  keeps-direct_result relay (reply status body, w) k h = h

  keeps-choice :
      {A : Type 0} (b : Bool) (m n : Run W A) (w : W)
      → P (m w).1
      → P (n w).1
      → P ((if b then m else n) w).1
  keeps-choice true m n w h k = h
  keeps-choice false m n w h k = k

-- What follows a push.
abbrev pub recorded : {W : Type 0} → Net W → Text → Text → Holder → Bool → Run W Bool
recorded net token chunk x stored =
    if stored then record_replica net token chunk x.device_id else pure false

-- The calls of a chunk after its registration.
abbrev pub placing : {W : Type 0} → Setup → Net W → Text → Text → Bytes → Run W ℕ
placing setup net token chunk content =
    placement net setup.min_replicas token (length content) (devices_of setup.device_id)
    >>= λ holders. place_all setup net token chunk content 0 holders

module _ {W : Type 0} (setup : Setup) (net : Net W) (token : Text) (P : W → Type 0)
    (steady : IsSteady W net P) where
  keeps-relay_store_of :
      (device chunk : Text) (content : Bytes) (w : W)
      → P w
      → P (relay_store_of net device chunk content w).1
  keeps-relay_store_of device chunk content w h =
      keeps-choice P (is_missing device) (pure false)
        (λ v. relay_result (net.relay_store device chunk content v)) w h
        (keeps-relay_result P (net.relay_store device chunk content w)
          (steady.of_relay device chunk content w h))

  keeps-holder_store :
      (device address chunk : Text) (content : Bytes) (w : W)
      → P w
      → P (holder_store net device address chunk content token w).1
  unfolding holder_store
  keeps-holder_store device address chunk content w h =
      keeps-choice P (is_missing address) (relay_store_of net device chunk content)
        (λ v.
          direct_result (relay_store_of net device chunk content)
            (net.direct_store address chunk content token v))
        w (keeps-relay_store_of device chunk content w h)
        (keeps-direct_result P (relay_store_of net device chunk content)
          (net.direct_store address chunk content token w)
          (λ v k. keeps-relay_store_of device chunk content v k)
          (steady.of_direct address chunk token content w h))

  pub keeps-record_replica :
      (chunk device : Text) (w : W) → P w → P (record_replica net token chunk device w).1
  unfolding record_replica
  keeps-record_replica chunk device w h =
      keeps-and_then P (answered (net.post_replica token chunk device w)) (λ a. pure (a.0 == 200))
        (keeps-answered P (net.post_replica token chunk device w)
          (steady.of_replica token chunk device w h))
        (λ a v k. k)

  pub keeps-store_and_record :
      (chunk : Text) (content : Bytes) (x : Holder) (w : W)
      → P w
      → P (store_and_record setup net token chunk content x w).1
  unfolding store_and_record
  keeps-store_and_record chunk content x w h =
      keeps-choice P (is_missing x.device_id) (pure false)
        (λ v.
          and_then (holder_store net x.device_id x.connection_address chunk content token v)
            (recorded net token chunk x))
        w h
        (keeps-and_then P (holder_store net x.device_id x.connection_address chunk content token w)
          (recorded net token chunk x)
          (keeps-holder_store x.device_id x.connection_address chunk content w h)
          (λ b v k.
            keeps-choice P b (record_replica net token chunk x.device_id) (pure false) v
              (keeps-record_replica chunk x.device_id v k) k))

  pub keeps-place_all :
      (chunk : Text) (content : Bytes) (placed : ℕ) (holders : List Holder) (w : W)
      → P w
      → P (place_all setup net token chunk content placed holders w).1
  unfolding place_all
  keeps-place_all chunk content placed [] w h = h
  keeps-place_all chunk content placed (x ∷ holders) w h =
      keeps-and_then P (store_and_record setup net token chunk content x w)
        (λ added.
          place_all setup net token chunk content (if added then placed + 1 else placed) holders)
        (keeps-store_and_record chunk content x w h)
        (λ added v k.
          keeps-place_all chunk content (if added then placed + 1 else placed) holders v k)

  keeps-register_chunk :
      (chunk file_ref : Text) (idx size : ℕ) (w : W)
      → P w
      → P (register_chunk net token chunk file_ref idx size w).1
  unfolding register_chunk
  keeps-register_chunk chunk file_ref idx size w h =
      keeps-and_then P (answered (net.post_chunk token chunk file_ref idx size w)) (λ a. pure tt)
        (keeps-answered P (net.post_chunk token chunk file_ref idx size w)
          (steady.of_chunk token chunk file_ref idx size w h))
        (λ a v k. k)

  keeps-placement :
      (count size : ℕ) (exclude : List Text) (w : W)
      → P w
      → P (placement net count token size exclude w).1
  unfolding placement
  keeps-placement count size exclude w h =
      keeps-and_then P (answered (net.post_placement token size count exclude w))
        (λ a. pure (listed a))
        (keeps-answered P (net.post_placement token size count exclude w)
          (steady.of_placement token size count exclude w h))
        (λ a v k. k)

  keeps-replicate_chunk :
      (file_ref : Text) (chunk : ℕ × Bytes) (w : W)
      → P w
      → P (replicate_chunk setup net token file_ref chunk w).1
  unfolding replicate_chunk
  keeps-replicate_chunk file_ref (idx, content) w h =
      let chunk = chunk_id_of setup file_ref idx in
      keeps-and_then P (register_chunk net token chunk file_ref idx (length content) w)
        (λ u. placing setup net token chunk content)
        (keeps-register_chunk chunk file_ref idx (length content) w h)
        (λ u v k.
          keeps-and_then P
            (placement net setup.min_replicas token (length content) (devices_of setup.device_id) v)
            (λ holders. place_all setup net token chunk content 0 holders)
            (keeps-placement setup.min_replicas (length content) (devices_of setup.device_id) v k)
            (λ holders u' k'. keeps-place_all chunk content 0 holders u' k'))

  pub keeps-replicate_each :
      (file_ref : Text) (chunks : List (ℕ × Bytes)) (w : W)
      → P w
      → P (replicate_each setup net token file_ref chunks w).1
  unfolding replicate_each
  keeps-replicate_each file_ref [] w h = h
  keeps-replicate_each file_ref (chunk ∷ chunks) w h =
      keeps-and_then P (replicate_chunk setup net token file_ref chunk w)
        (λ placed v.
          and_then (replicate_each setup net token file_ref chunks v)
            (λ rest. pure (placed ∷ rest)))
        (keeps-replicate_chunk file_ref chunk w h)
        (λ placed v k.
          keeps-and_then P (replicate_each setup net token file_ref chunks v)
            (λ rest. pure (placed ∷ rest)) (keeps-replicate_each file_ref chunks v k)
            (λ rest u k'. k'))
