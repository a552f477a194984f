-- ===== src/Recovery/Order.antt =====
-- What a recovery that counts as done has behind it.
use stardustfs.Prelude.{
  Text, Bool, true, false, Result, ok, err, registration_error, ◌≡◌, refl, arith, Bool-cases, inl,
  inr,
}
use stardustfs.Recovery.{
  Services, Manager, or_false, registered, loaded, attempt_recovery, after_attempt, recovery_round,
}

or_false-true :
    {W A : Type 0} (outcome : Result A × W) (next : W → Result Bool × W) (w' : W)
    → or_false outcome next ≡ (ok true, w')
    → (a : A) × (v : W) × (outcome ≡ (ok a, v)) × (next v ≡ (ok true, w'))
or_false-true (err e, w) next w' h = ground arith
or_false-true (ok a, w) next w' h = (a, w, refl, h)

registered-true :
    {W : Type 0} (outcome : Result Text × W) (next : W → Result Bool × W) (w' : W)
    → registered outcome next ≡ (ok true, w')
    → (id : Text) × (v : W) × (outcome ≡ (ok id, v)) × (next v ≡ (ok true, w'))
registered-true (err registration_error, w) next w' h = ground arith
registered-true (err e, w) next w' h = ground arith
registered-true (ok id, w) next w' h = (id, w, refl, h)

loaded-true :
    {W : Type 0} (outcome : Bool × W) (next : W → Result Bool × W) (w' : W)
    → loaded outcome next ≡ (ok true, w')
    → (v : W) × (outcome ≡ (true, v)) × (next v ≡ (ok true, w'))
loaded-true (false, w) next w' h = ground arith
loaded-true (true, w) next w' h = (w, refl, h)

after_attempt-recovered :
    {W : Type 0} (services : Services W) (m : Manager) (outcome : Result Bool × W)
    → m.recovered ≡ false
    → (after_attempt services m outcome).0.recovered ≡ true
    → outcome ≡ (ok true, outcome.1)
after_attempt-recovered services m (ok true, w) before h = refl
after_attempt-recovered services m (ok false, w) before h = ground arith
after_attempt-recovered services m (err e, w) before h = ground arith

module _ {W : Type 0} (services : Services W) where
  recovered_round :
      (m : Manager) (w : W)
      → m.running ≡ true
      → (recovery_round services m w).0.recovered ≡ true
      → (after_attempt services m (attempt_recovery services w)).0.recovered ≡ true
  unfolding recovery_round
  recovered_round m w running done = ground arith

  -- A round that turns a device into a recovered one has called `load_from_store`, which said true, and
  -- then `get_valid_token`, `register`, `upload_metadata` and `initial_sync`, in this order, each in the
  -- world that the call before it left, and each of them returned without an exception.
  pub recovery_round_lem :
      (m : Manager) (w : W)
      → m.recovered ≡ false
      → (recovery_round services m w).0.recovered ≡ true
      → (w₁ w₂ w₃ w₄ w₅ : W) × (token id : Text) × (services.load_from_store w ≡ (true, w₁))
        × (services.get_valid_token w₁ ≡ (ok token, w₂))
        × (services.register w₂ ≡ (ok id, w₃))
        × (services.upload_metadata w₃ ≡ (ok tt, w₄))
        × (services.initial_sync w₄ ≡ (ok tt, w₅))
  unfolding recovery_round attempt_recovery
  recovery_round_lem m w before done = elim (Bool-cases m.running) [
    | inr stopped ↦ ground arith
    | inl running ↦
        let outcome = attempt_recovery services w in
        let whole =
          after_attempt-recovered services m outcome before (recovered_round m w running done) in
        let (w₁, a₁, h₁) = loaded-true (services.load_from_store w) _ outcome.1 whole in
        let (token, w₂, a₂, h₂) = or_false-true (services.get_valid_token w₁) _ outcome.1 h₁ in
        let (id, w₃, a₃, h₃) = registered-true (services.register w₂) _ outcome.1 h₂ in
        let (u, w₄, a₄, h₄) = or_false-true (services.upload_metadata w₃) _ outcome.1 h₃ in
        let (v, w₅, a₅, h₅) = or_false-true (services.initial_sync w₄) _ outcome.1 h₄ in
        (w₁, w₂, w₃, w₄, w₅, token, id, a₁, a₂, a₃, a₄, a₅)
  ]
