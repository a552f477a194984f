-- ===== src/Prelude/Outcome.antt =====
-- What a method that may raise returns.
use mathlib.Core.Path.{◌≡◌, refl}
use mathlib.Core.Logic.{◌⊎◌, inl, inr}

-- The exceptions of the modelled code.
pub data Error : Type 0 where
  value_error os_error file_not_found permission_error quota_exceeded : Error
  insufficient_space insufficient_storage unique_violation operational_error : Error
  invalid_key key_mismatch decryption_error integrity_error : Error
  sync_error key_not_found network_error replication_error recovery_error : Error
  type_error attribute_error migration_error authentication_error registration_error : Error
  timeout_error credential_error recursion_error : Error

pub data Result {ℓ} (T : Type ℓ) : Type ℓ where
  err : Error → Result T
  ok : T → Result T

-- Every case of an outcome, with its equation.
pub Result-cases {ℓ} :
    {T : Type ℓ} (outcome : Result T)
    → ((x : T) × (outcome ≡ ok x)) ⊎ ((raised : Error) × (outcome ≡ err raised))
Result-cases (err raised) = inr (raised, refl)
Result-cases (ok x) = inl (x, refl)

-- What follows a call, unless the call raises.
infixl 5 ◌>>=◌
abbrev pub ◌>>=◌ {ℓ κ} : {S : Type ℓ} {T : Type κ} → Result S → (S → Result T) → Result T
err raised >>= next = err raised
ok x >>= next = next x
