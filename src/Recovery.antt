-- ===== src/Recovery.antt =====
-- stardustlib/online_recovery.py: OnlineRecoveryManager, which brings a device back online. The calls of
-- the other components take the world along; `start_p2p` is none where there is no server.
pub mod Order
use stardustfs.Prelude.{
  Text, Bool, true, false, Option, none, some, if◌then◌else◌, Result, ok, err, Error,
  registration_error,
}
use stardustfs.Network.{Run}

pub record Services (W : Type 0) : Type 0 where
  pub load_from_store : W → Bool × W
  pub get_valid_token : Run W Text
  pub register : Run W Text
  pub upload_metadata : Run W (Unit {0})
  pub initial_sync : Run W (Unit {0})
  pub start_p2p : Option (Run W (Unit {0}))
  pub start_heartbeat : Run W (Unit {0})
  pub start_periodic_sync : Run W (Unit {0})

pub record Manager : Type 0 where
  pub recovered : Bool
  pub running : Bool

-- A step whose exceptions of every kind end the attempt.
abbrev pub or_false : {W A : Type 0} → Result A × W → (W → Result Bool × W) → Result Bool × W
or_false (err e, w) next = (ok false, w)
or_false (ok a, w) next = next w

-- The registration: other exceptions than its own go on to the loop.
abbrev pub registered : {W : Type 0} → Result Text × W → (W → Result Bool × W) → Result Bool × W
registered (err registration_error, w) next = (ok false, w)
registered (err e, w) next = (err e, w)
registered (ok id, w) next = next w

-- A step whose exceptions are only logged.
abbrev pub regardless : {W : Type 0} → Result (Unit {0}) × W → W
regardless (r, w) = w

abbrev pub loaded : {W : Type 0} → Bool × W → (W → Result Bool × W) → Result Bool × W
loaded (false, w) next = (ok false, w)
loaded (true, w) next = next w

abbrev pub started : {W : Type 0} → Option (Run W (Unit {0})) → W → W
started none w = w
started (some start) w = regardless (start w)

module _ {W : Type 0} (services : Services W) where
  unfoldable pub start_services : W → Result Bool × W
  start_services w =
      let w₁ = started services.start_p2p w in
      let w₂ = regardless (services.start_heartbeat w₁) in
      (ok true, regardless (services.start_periodic_sync w₂))

  unfoldable pub attempt_recovery : W → Result Bool × W
  unfolding start_services
  attempt_recovery w = loaded (services.load_from_store w) (λ w₁.
      or_false (services.get_valid_token w₁) (λ w₂. registered (services.register w₂) (λ w₃.
        or_false (services.upload_metadata w₃)
          (λ w₄. or_false (services.initial_sync w₄) start_services))))

  abbrev pub after_attempt : Manager → Result Bool × W → Manager × W
  after_attempt m (ok true, w) = (record { recovered = true; running = false }, w)
  after_attempt m (ok false, w) = (m, w)
  after_attempt m (err e, w) = (m, w)

  -- One round of `_recovery_loop`, after its wait.
  unfoldable pub recovery_round : Manager → W → Manager × W
  unfolding attempt_recovery
  recovery_round m w = if m.running then after_attempt m (attempt_recovery w) else (m, w)
