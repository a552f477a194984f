-- ===== src/Devices.antt =====
-- stardustlib/device_manager.py: the registration and the heartbeats of DeviceManager. An answer of the
-- server is a `Reply`; a token that is not to be had fails the call. UPnP and the waits are left out.
pub mod Heartbeats
use stardustfs.Prelude.{
  ℕ, zero, suc, Text, Bool, true, false, Option, none, some, List, [], ◌∷◌, ◌+◌, ◌==◌, nat_eq,
  if◌then◌else◌, not, Result, ok, err, registration_error, leb,
}
use stardustfs.Network.{Reply, lost, reply}

pub record DeviceManager : Type 0 where
  pub device_id : Option Text
  pub heartbeat_interval : ℕ
  pub consecutive_failures : ℕ
  pub connection_address : Text
  pub offline : Bool

abbrev pub register_max_retries : ℕ
register_max_retries = 5

abbrev pub heartbeat_normal_interval : ℕ
heartbeat_normal_interval = 60

abbrev pub heartbeat_degraded_interval : ℕ
heartbeat_degraded_interval = 120

abbrev pub heartbeat_failure_threshold : ℕ
heartbeat_failure_threshold = 3

abbrev pub new_manager : Text → DeviceManager
new_manager address = record {
  device_id = none;
  heartbeat_interval = heartbeat_normal_interval;
  consecutive_failures = 0;
  connection_address = address;
  offline = false;
}

-- The loop over the attempts, of which `left` are to come; `answers` gives the server's answer to each.
unfoldable pub attempts : ℕ → (ℕ → Reply Text) → DeviceManager → Result Text × DeviceManager
attempts zero answers m = (err registration_error, record m { offline = true })
attempts (suc left) answers m =
    let rest = attempts left answers m in
    elim (answers left) [
      | lost ↦ rest
      | reply status id ↦
          if leb 400 status
          then rest
          else (ok id, record m { device_id = some id; offline = false })
    ]

-- `token` is what `get_valid_token` gives.
unfoldable pub register :
    Result Text → (ℕ → Reply Text) → DeviceManager → Result Text × DeviceManager
unfolding attempts
register token answers m = elim m.device_id [
  | some id ↦ (ok id, m)
  | none ↦ elim token [ err e ↦ (err e, m) | ok t ↦ attempts register_max_retries answers m ]
]

unfoldable pub on_heartbeat_success : DeviceManager → DeviceManager
on_heartbeat_success m = record m {
  consecutive_failures = 0;
  heartbeat_interval = heartbeat_normal_interval;
}

unfoldable pub on_heartbeat_failure : DeviceManager → DeviceManager
on_heartbeat_failure m =
    let failures = m.consecutive_failures + 1 in
    record m {
      consecutive_failures = failures;
      heartbeat_interval =
          if leb heartbeat_failure_threshold failures
          then heartbeat_degraded_interval
          else m.heartbeat_interval;
    }

unfoldable pub send_heartbeat : Result Text → Reply (Unit {0}) → DeviceManager → DeviceManager
unfolding on_heartbeat_success on_heartbeat_failure
send_heartbeat (err e) answer m = on_heartbeat_failure m
send_heartbeat (ok token) lost m = on_heartbeat_failure m
send_heartbeat (ok token) (reply status u) m =
    if leb 400 status then on_heartbeat_failure m else on_heartbeat_success m
