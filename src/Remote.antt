-- ===== src/Remote.antt =====
-- stardustlib/remote_source.py and relay_client.py: the proxy of another device. The network is the
-- argument `peer`: the tokens, the routing request, the direct request to the device and the two requests
-- of the relay. A payload is whatever type `P`, and the body of a result whatever type `B`.
pub mod Fallback
pub mod Worker
use stardustfs.Prelude.{
  ℕ, zero, suc, Text, Bool, true, false, Option, none, some, List, [], ◌∷◌, ◌+◌, ◌==◌, nat_eq,
  text_eq, if◌then◌else◌, ◌&&◌, not, Result, ok, err, Error, os_error, authentication_error, codes,
  ltb, leb,
}
use stardustfs.Network.{Reply, lost, reply, Run, pure, raise, ◌>>=◌, ◌>>◌, and_then}

pub record Routing : Type 0 where
  pub connection_address : Text
  pub address : Text
  pub is_offline : Bool

-- The result that the target device gave, with its status.
pub record Envelope (B : Type 0) : Type 0 where
  pub status : ℕ
  pub result : B

pub record Peer (W P B : Type 0) : Type 0 where
  pub get_valid_token : Run W Text
  pub refresh_token : Run W (Unit {0})
  pub get_routing : Text → W → Reply Routing × W
  pub post : Text → Text → P → Text → W → Reply B × W
  pub relay_request : Text → P → Text → W → Reply Text × W
  pub relay_response : Text → Text → W → Reply (Envelope B) × W

pub record RemoteSource : Type 0 where
  pub is_active : Bool
  pub peer_address : Text
  pub last_refresh_at : ℕ
  pub relay_enabled : Bool

abbrev pub refresh_min_interval : ℕ
refresh_min_interval = 30

-- An authentication that fails is an OSError.
abbrev pub as_os_error : Error → Error
as_os_error authentication_error = os_error
as_os_error e = e

abbrev pub os_outcome : {W A : Type 0} → Result A × W → Result A × W
os_outcome (err e, w) = (err (as_os_error e), w)
os_outcome (ok a, w) = (ok a, w)

-- The operation that an endpoint stands for.
unfoldable pub endpoint_op : Text → Option Text
endpoint_op t =
    if t == codes "/p2p/read"
    then some (codes "read")
    else if t == codes "/p2p/write"
    then some (codes "write")
    else if t == codes "/p2p/delete"
    then some (codes "delete")
    else if t == codes "/p2p/list"
    then some (codes "list")
    else if t == codes "/p2p/exists"
    then some (codes "exists")
    else if t == codes "/p2p/mkdir"
    then some (codes "mkdir")
    else if t == codes "/p2p/rmdir"
    then some (codes "rmdir")
    else if t == codes "/p2p/space"
    then some (codes "space")
    else none

abbrev pub first_given : Text → Text → Text
first_given [] b = b
first_given (c ∷ t) b = c ∷ t

-- What the answer to the routing request makes of the source.
unfoldable pub routed : Reply Routing → RemoteSource → RemoteSource
routed lost s = record s { is_active = false }
routed (reply status body) s =
    if leb 400 status
    then record s { is_active = false }
    else (elim (first_given body.connection_address body.address) [
      | [] ↦ record s { is_active = false }
      | c ∷ t ↦ record s { is_active = not body.is_offline; peer_address = c ∷ t }
    ])

module _ {W P B : Type 0} (peer : Peer W P B) where
  abbrev pub envelope_result : Reply (Envelope B) × W → Result B × W
  envelope_result (lost, w) = (err os_error, w)
  envelope_result (reply status e, w) = (
    if leb 400 status then err os_error else if e.status == 200 then ok e.result else err os_error,
    w,
  )

  abbrev pub poll : Text → Reply Text × W → Result B × W
  poll token (lost, w) = (err os_error, w)
  poll token (reply status [], w) = (err os_error, w)
  poll token (reply status (c ∷ id), w) =
      if leb 400 status
      then (err os_error, w)
      else envelope_result (peer.relay_response (c ∷ id) token w)

  -- RelayClient.request_async
  unfoldable pub relay_async : Text → P → Run W B
  relay_async op payload = do
    token ← λ w. os_outcome (peer.get_valid_token w)
    λ w. poll token (peer.relay_request op payload token w)

  unfoldable pub relay_fallback : RemoteSource → Text → P → Run W B
  unfolding relay_async
  relay_fallback s endpoint payload =
      if not s.relay_enabled then raise os_error else (elim (endpoint_op endpoint) [
        | none ↦ raise os_error
        | some op ↦ relay_async op payload
      ])

  -- What the direct answer comes to; `again` is what a 401 does.
  abbrev pub direct_answer : RemoteSource → Text → P → Run W B → Reply B × W → Result B × W
  direct_answer s endpoint payload again (lost, w) = relay_fallback s endpoint payload w
  direct_answer s endpoint payload again (reply status body, w) =
      if status == 401 then again w else if leb 400 status then (err os_error, w) else (ok body, w)

  -- With the number of retries that are left: 1 where `retry` is true.
  unfoldable pub do_p2p_request : ℕ → RemoteSource → Text → P → Run W B
  unfolding relay_fallback
  do_p2p_request zero s endpoint payload = do
    token ← λ w. os_outcome (peer.get_valid_token w)
    λ w.
        direct_answer s endpoint payload (raise os_error)
          (peer.post s.peer_address endpoint payload token w)
  do_p2p_request (suc n) s endpoint payload = do
    token ← λ w. os_outcome (peer.get_valid_token w)
    λ w.
        direct_answer s endpoint payload
          ((λ v. os_outcome (peer.refresh_token v)) >> do_p2p_request n s endpoint payload)
          (peer.post s.peer_address endpoint payload token w)

  -- The operations, which an inactive source refuses.
  unfoldable pub request : RemoteSource → Text → P → Run W B
  unfolding do_p2p_request
  request s endpoint payload =
      if s.is_active then do_p2p_request 1 s endpoint payload else raise os_error

  abbrev pub routed_outcome :
      RemoteSource → Reply Routing × W → Result (Unit {0}) × RemoteSource × W
  routed_outcome s (answer, w) = (ok tt, routed answer s, w)

  abbrev pub with_token : RemoteSource → Result Text × W → Result (Unit {0}) × RemoteSource × W
  with_token s (err authentication_error, w) = (ok tt, record s { is_active = false }, w)
  with_token s (err e, w) = (err e, s, w)
  with_token s (ok token, w) = routed_outcome s (peer.get_routing token w)

  unfoldable pub async_initialize : RemoteSource → W → Result (Unit {0}) × RemoteSource × W
  unfolding routed
  async_initialize s w = with_token s (peer.get_valid_token w)

  -- Only an OSError is raised again; the others deactivate the source.
  abbrev pub initialised :
      Result (Unit {0}) × RemoteSource × W → Result (Unit {0}) × RemoteSource × W
  initialised (ok u, s, w) = (ok tt, s, w)
  initialised (err os_error, s, w) = (err os_error, s, w)
  initialised (err e, s, w) = (ok tt, record s { is_active = false }, w)

  unfoldable pub initialize : RemoteSource → W → Result (Unit {0}) × RemoteSource × W
  unfolding async_initialize
  initialize s w = initialised (async_initialize s w)

  -- No exception gets out of a refresh; it tells whether the source is active.
  unfoldable pub refresh : Bool → ℕ → RemoteSource → W → Bool × RemoteSource × W
  unfolding async_initialize
  refresh force now s w =
      if not force && ltb now (s.last_refresh_at + refresh_min_interval)
      then (s.is_active, s, w)
      else let (r, s', w') = async_initialize (record s { last_refresh_at = now }) w in
        (s'.is_active, s', w')
