-- ===== src/Remote/Fallback.antt =====
-- When the proxy of another device takes the relay.
use stardustfs.Prelude.{
  ℕ, zero, suc, Text, Bool, true, false, Result, ok, err, os_error, ◌≡◌, ◌≢◌, refl, arith, nat_eq,
  if◌then◌else◌, some, subst, sym, ◌∙◌,
}
use stardustfs.Network.{Reply, lost, reply, Run, and_then, raise}
use stardustfs.Remote.{
  Peer, RemoteSource, Envelope, direct_answer, do_p2p_request, request, os_outcome, relay_async,
  relay_fallback, endpoint_op,
}

-- The same network with another relay.
abbrev with_relay :
    {W P B : Type 0}
    → (Text → P → Text → W → Reply Text × W)
    → (Text → Text → W → Reply (Envelope B) × W)
    → Peer W P B
    → Peer W P B
with_relay asking waiting peer = record peer { relay_request = asking; relay_response = waiting }

module _ {W P B : Type 0} (peer : Peer W P B) (asking : Text → P → Text → W → Reply Text × W)
    (waiting : Text → Text → W → Reply (Envelope B) × W)
    (reaches : (address endpoint : Text) (payload : P) (token : Text) (w : W)
      → (peer.post address endpoint payload token w).0 ≢ lost) where
  same_answer :
      (s : RemoteSource) (endpoint : Text) (payload : P) (again again' : Run W B)
      (outcome : Reply B × W)
      → outcome.0 ≢ lost
      → ((w : W) → again w ≡ again' w)
      → direct_answer peer s endpoint payload again outcome
        ≡ direct_answer (with_relay asking waiting peer) s endpoint payload again' outcome
  same_answer s endpoint payload again again' (lost, w) found same = absurd (found refl)
  same_answer s endpoint payload again again' (reply status body, w) found same =
      ground (arith, same w)

  same_then :
      {A : Type 0} (outcome : Result A × W) (f g : A → Run W B)
      → ((a : A) (w : W) → f a w ≡ g a w)
      → and_then outcome f ≡ and_then outcome g
  same_then (err e, w) f g same = refl
  same_then (ok a, w) f g same = same a w

  same_request :
      (retries : ℕ) (s : RemoteSource) (endpoint : Text) (payload : P) (w : W)
      → do_p2p_request peer retries s endpoint payload w
        ≡ do_p2p_request (with_relay asking waiting peer) retries s endpoint payload w
  unfolding do_p2p_request
  same_request zero s endpoint payload w =
      same_then (os_outcome (peer.get_valid_token w)) _ _ (λ token v.
        same_answer s endpoint payload (raise os_error) (raise os_error)
          (peer.post s.peer_address endpoint payload token v)
          (reaches s.peer_address endpoint payload token v) (λ u. refl))
  same_request (suc n) s endpoint payload w =
      same_then (os_outcome (peer.get_valid_token w)) _ _ (λ token v.
        same_answer s endpoint payload _ _ (peer.post s.peer_address endpoint payload token v)
          (reaches s.peer_address endpoint payload token v)
          (λ u.
            same_then (os_outcome (peer.refresh_token u)) _ _
              (λ a x. same_request n s endpoint payload x)))

  same_choice :
      (b : Bool) (m n : Run W B) (w : W)
      → m w ≡ n w
      → (if b then m else raise os_error) w ≡ (if b then n else raise os_error) w
  same_choice true m n w same = same
  same_choice false m n w same = refl

  -- Where every direct request is answered, whatever the answer, no operation takes the relay: it does the
  -- same with any other relay.
  pub request_direct :
      (s : RemoteSource) (endpoint : Text) (payload : P) (w : W)
      → request peer s endpoint payload w
        ≡ request (with_relay asking waiting peer) s endpoint payload w
  unfolding request
  request_direct s endpoint payload w =
      same_choice s.is_active _ _ w (same_request 1 s endpoint payload w)

direct_lost :
    {W P B : Type 0} (peer : Peer W P B) (n : ℕ) (s : RemoteSource) (endpoint token : Text)
    (payload : P) (w : W)
    → peer.get_valid_token w ≡ (ok token, w)
    → peer.post s.peer_address endpoint payload token w ≡ (lost, w)
    → do_p2p_request peer n s endpoint payload w ≡ relay_fallback peer s endpoint payload w
unfolding do_p2p_request
direct_lost peer zero s endpoint token payload w own direct = rw (do_p2p_request, own, direct) refl
direct_lost peer (suc n) s endpoint token payload w own direct =
    rw (do_p2p_request, own, direct) refl

relay_fallback-eq :
    {W P B : Type 0} (peer : Peer W P B) (s : RemoteSource) (endpoint op : Text) (payload : P)
    (w : W)
    → s.relay_enabled ≡ true
    → endpoint_op endpoint ≡ some op
    → relay_fallback peer s endpoint payload w ≡ relay_async peer op payload w
unfolding relay_fallback
relay_fallback-eq peer s endpoint op payload w enabled known = rw (enabled, known) refl

-- Where the direct request is lost, a request is one by the relay.
pub request-relay_async :
    {W P B : Type 0} (peer : Peer W P B) (s : RemoteSource) (endpoint op token : Text) (payload : P)
    (w : W)
    → s.is_active ≡ true
    → s.relay_enabled ≡ true
    → endpoint_op endpoint ≡ some op
    → peer.get_valid_token w ≡ (ok token, w)
    → peer.post s.peer_address endpoint payload token w ≡ (lost, w)
    → request peer s endpoint payload w ≡ relay_async peer op payload w
unfolding request
request-relay_async peer s endpoint op token payload w active enabled known own direct =
    subst
      (λ b.
        (if b then do_p2p_request peer 1 s endpoint payload else raise os_error) w
        ≡ relay_async peer op payload w)
      (sym active)
      (direct_lost peer 1 s endpoint token payload w own direct
        ∙ relay_fallback-eq peer s endpoint op payload w enabled known)
