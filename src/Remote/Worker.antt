-- ===== src/Remote/Worker.antt =====
-- stardustlib/relay_worker.py: the worker that takes requests from the relay, answers them with
-- `P2PServer.dispatch` and sends the answers back. The relay of the central server is the argument
-- `server`, and `relay_peer` is a requester's network whose target runs a round of its worker while the
-- requester waits.
pub mod Relaying
use stardustfs.Prelude.{
  ℕ, Text, Bool, true, false, none, some, [], ◌∷◌, ◌==◌, nat_eq, text_eq, if◌then◌else◌, Result, ok,
  err, network_error, leb,
}
use stardustfs.Network.{Reply, lost, reply, Run}
use stardustfs.P2p.{Node, Request, Response, Body, System}
use stardustfs.P2p.Handlers.{dispatch}
use stardustfs.Remote.{Peer, Envelope}

-- What a poll of the relay hands over.
pub record Job : Type 0 where
  pub request_id : Text
  pub op : Text
  pub payload : Request

pub record RelayServer (W : Type 0) : Type 0 where
  pub enqueue : Text → Request → Text → W → Reply Text × W
  pub poll : Text → W → Reply Job × W
  pub respond : Text → Response → Text → W → Reply (Unit {0}) × W
  pub wait : Text → Text → W → Reply (Envelope Body) × W

module _ {W : Type 0} (server : RelayServer W) (sys : System) where
  -- The answer that is lost on its way is only logged.
  abbrev pub responded : Node → Reply (Unit {0}) × W → Result (Unit {0}) × (Node × W)
  responded n (answer, w) = (ok tt, (n, w))

  abbrev pub serve_job : Job → Text → Node → W → Result (Unit {0}) × (Node × W)
  serve_job job token n w =
      let (response, n') = dispatch sys job.op job.payload n in
      responded n' (server.respond job.request_id response token w)

  abbrev pub polled : Text → Node → Reply Job × W → Result (Unit {0}) × (Node × W)
  polled token n (lost, w) = (err network_error, (n, w))
  polled token n (reply status job, w) =
      if status == 204
      then (ok tt, (n, w))
      else if leb 400 status
      then (ok tt, (n, w))
      else if job.request_id == []
      then (ok tt, (n, w))
      else serve_job job token n w

  -- With what `get_valid_token` gives.
  unfoldable pub poll_once : Result Text × W → Node → Result (Unit {0}) × (Node × W)
  poll_once (err e, w) n = (err e, (n, w))
  poll_once (ok token, w) n = polled token n (server.poll token w)

  -- One round of the loop, which goes on after every exception.
  unfoldable pub loop_round : Run W Text → Node → W → Node × W
  unfolding poll_once
  loop_round get_valid_token n w = (poll_once (get_valid_token w) n).1

  abbrev pub beside : {A : Type 0} → Node → A × W → A × (Node × W)
  beside n (a, w) = (a, (n, w))

  abbrev pub relay_peer : Run W Text → Peer (Node × W) Request Body → Peer (Node × W) Request Body
  relay_peer worker_token peer = record peer {
    relay_request = λ op payload token v. beside v.0 (server.enqueue op payload token v.1);
    relay_response = λ id token v.
        let (n', w') = loop_round worker_token v.0 v.1 in beside n' (server.wait id token w');
  }
