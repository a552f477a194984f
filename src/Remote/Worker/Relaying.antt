-- ===== src/Remote/Worker/Relaying.antt =====
-- A request that takes the relay reaches the operations of the other device.
use stardustfs.Prelude.{
  ℕ, Text, true, some, ◌∷◌, ◌==◌, nat_eq, text_eq, text_beq, if◌then◌else◌, Result, ok, err,
  os_error, ◌≡◌, refl, ◌∙◌,
}
use stardustfs.Network.{lost, reply, Run}
use stardustfs.P2p.{Node, Request, Response, Body, System}
use stardustfs.P2p.Handlers.{dispatch}
use stardustfs.Remote.{Peer, RemoteSource, endpoint_op, relay_async, request}
use stardustfs.Remote.Fallback.{request-relay_async}
use stardustfs.Remote.Worker.{RelayServer, poll_once, loop_round, relay_peer}

-- What a requester makes of a response.
abbrev pub relayed : Response → Result Body
relayed r = if r.0 == 200 then ok r.1 else err os_error

module _ {W : Type 0} (server : RelayServer W) (sys : System) (worker_token : Run W Text)
    (peer : Peer (Node × W) Request Body) where
  served :
      (op token : Text) (payload : Request) (n : Node) (w₁ w₂ : W) (c : ℕ) (id : Text)
      (kept : Response → W)
      → worker_token w₁ ≡ (ok token, w₁)
      → server.poll token w₁
        ≡ (reply 200 (record { request_id = c ∷ id; op = op; payload = payload }), w₂)
      → ((r : Response) → server.respond (c ∷ id) r token w₂ ≡ (reply 200 tt, kept r))
      → loop_round server sys worker_token n w₁
        ≡ ((dispatch sys op payload n).1, kept (dispatch sys op payload n).0)
  unfolding loop_round poll_once text_beq
  served op token payload n w₁ w₂ c id kept its_own handed answered =
      rw (loop_round, its_own, handed, answered (dispatch sys op payload n).0) refl

  relay_async-served :
      (op token : Text) (payload : Request) (n n' : Node) (w w₁ w' : W) (c : ℕ) (id : Text)
      (r : Response)
      → peer.get_valid_token (n, w) ≡ (ok token, (n, w))
      → server.enqueue op payload token w ≡ (reply 200 (c ∷ id), w₁)
      → loop_round server sys worker_token n w₁ ≡ (n', w')
      → server.wait (c ∷ id) token w' ≡ (reply 200 (record { status = r.0; result = r.1 }), w')
      → relay_async (relay_peer server sys worker_token peer) op payload (n, w)
        ≡ (relayed r, (n', w'))
  unfolding relay_async
  relay_async-served op token payload n n' w w₁ w' c id r own asked served waited =
      rw (own, asked, served, waited) refl

  -- Where the relay hands a request over to the worker, and the worker's answer back to the requester,
  -- and the direct connection is lost, a request for an operation gives the requester the body of the
  -- answer that `dispatch` gives on the other device if its status is 200, and an OSError otherwise;
  -- the other device is left as `dispatch` leaves it.
  pub request-dispatch :
      (s : RemoteSource) (endpoint op token token' : Text) (payload : Request) (n : Node)
      (w w₁ w₂ : W) (c : ℕ) (id : Text) (kept : Response → W)
      → s.is_active ≡ true
      → s.relay_enabled ≡ true
      → endpoint_op endpoint ≡ some op
      → peer.get_valid_token (n, w) ≡ (ok token, (n, w))
      → peer.post s.peer_address endpoint payload token (n, w) ≡ (lost, (n, w))
      → server.enqueue op payload token w ≡ (reply 200 (c ∷ id), w₁)
      → worker_token w₁ ≡ (ok token', w₁)
      → server.poll token' w₁
        ≡ (reply 200 (record { request_id = c ∷ id; op = op; payload = payload }), w₂)
      → ((r : Response) → server.respond (c ∷ id) r token' w₂ ≡ (reply 200 tt, kept r))
      → ((r : Response)
          → server.wait (c ∷ id) token (kept r)
            ≡ (reply 200 (record { status = r.0; result = r.1 }), kept r))
      → request (relay_peer server sys worker_token peer) s endpoint payload (n, w) ≡ (
        relayed (dispatch sys op payload n).0,
        ((dispatch sys op payload n).1, kept (dispatch sys op payload n).0),
      )
  request-dispatch s endpoint op token token' payload n w w₁ w₂ c id kept active enabled known own
        direct asked its_own handed answered waited =
      let a = dispatch sys op payload n in
      request-relay_async (relay_peer server sys worker_token peer) s endpoint op token payload
        (n, w) active enabled known own direct
      ∙ relay_async-served op token payload n a.1 w w₁ (kept a.0) c id a.0 own asked
          (served op token' payload n w₁ w₂ c id kept its_own handed answered) (waited a.0)
