-- ===== src/Devices/Heartbeats.antt =====
-- The interval of the heartbeats, and the end of a registration.
use stardustfs.Prelude.{
  ℕ, Text, Bool, false, List, [], ◌∷◌, ◌+◌, if◌then◌else◌, Result, ok, err, leb, ◌≡◌, inl, inr,
  refl, arith, ap, ◌∙◌, Bool-cases, not,
}
use stardustfs.Network.{Reply, lost, reply}
use stardustfs.Devices.{
  DeviceManager, new_manager, on_heartbeat_success, on_heartbeat_failure, send_heartbeat,
}

-- One heartbeat: the token that is had for it, and the answer.
abbrev pub Beat : Type 0
Beat = Result Text × Reply (Unit {0})

unfoldable pub is_answered : Beat → Bool
is_answered (err e, answer) = false
is_answered (ok token, lost) = false
is_answered (ok token, reply status u) = not (leb 400 status)

-- The heartbeats, the last one first.
unfoldable pub after_beats : Text → List Beat → DeviceManager
unfolding send_heartbeat
after_beats address [] = new_manager address
after_beats address ((token, answer) ∷ beats) =
    send_heartbeat token answer (after_beats address beats)

-- How many of the last heartbeats failed in a row.
unfoldable pub failed_in_a_row : List Beat → ℕ
unfolding is_answered
failed_in_a_row [] = 0
failed_in_a_row (beat ∷ beats) = if is_answered beat then 0 else failed_in_a_row beats + 1

send_heartbeat-answered :
    (beat : Beat) (m : DeviceManager)
    → send_heartbeat beat.0 beat.1 m
      ≡ (if is_answered beat then on_heartbeat_success m else on_heartbeat_failure m)
unfolding send_heartbeat is_answered
send_heartbeat-answered (err e, answer) m = refl
send_heartbeat-answered (ok token, lost) m = refl
send_heartbeat-answered (ok token, reply status u) m = elim (Bool-cases (leb 400 status)) [
  | inl bad ↦ rw bad refl
  | inr good ↦ rw good refl
]

-- After any heartbeats the interval is 120 seconds if at least the last three failed and 60 seconds
-- otherwise, and the count of failures is that of the last ones that failed in a row.
pub heartbeat_interval_lem :
    (address : Text) (beats : List Beat)
    → ((after_beats address beats).consecutive_failures ≡ failed_in_a_row beats)
      × ((after_beats address beats).heartbeat_interval
          ≡ (if leb 3 (failed_in_a_row beats) then 120 else 60))
unfolding after_beats failed_in_a_row
heartbeat_interval_lem address [] = (refl, ground arith)
heartbeat_interval_lem address (beat ∷ beats) =
    let before = after_beats address beats in
    let (count, interval) = heartbeat_interval_lem address beats in
    elim (Bool-cases (is_answered beat)) [
      | inl answered ↦
          let step : after_beats address (beat ∷ beats) ≡ on_heartbeat_success before =
            send_heartbeat-answered beat before ∙ rw answered refl in
          rw (step, answered, on_heartbeat_success) (refl, ground arith)
      | inr unanswered ↦
          let step : after_beats address (beat ∷ beats) ≡ on_heartbeat_failure before =
            send_heartbeat-answered beat before ∙ rw unanswered refl in
          rw (step, unanswered, on_heartbeat_failure) (ap (λ n. n + 1) count, ground arith)
    ]
