-- ===== src/Network.antt =====
-- Calls over the network: a call takes the world to its outcome and the world after it. A reply is
-- the status code with what its body names; the exceptions of httpx for a timeout or a connection
-- that fails are `lost`.
pub mod Ensures
use stardustfs.Prelude.{ℕ, Result, ok, err, Error, network_error}

pub data Reply {ℓ} (A : Type ℓ) : Type ℓ where
  lost : Reply A
  reply : ℕ → A → Reply A

abbrev pub Run : Type 0 → Type 0 → Type 0
Run W A = W → Result A × W

abbrev pub pure : {W A : Type 0} → A → Run W A
pure a = λ w. (ok a, w)

abbrev pub raise : {W A : Type 0} → Error → Run W A
raise e = λ w. (err e, w)

-- What follows an outcome.
abbrev pub and_then : {W A B : Type 0} → Result A × W → (A → Run W B) → Result B × W
and_then (err e, w) next = (err e, w)
and_then (ok a, w) next = next a w

infixl 5 ◌>>=◌
abbrev pub ◌>>=◌ : {W A B : Type 0} → Run W A → (A → Run W B) → Run W B
m >>= next = λ w. and_then (m w) next

infixl 5 ◌>>◌
abbrev pub ◌>>◌ : {W A B : Type 0} → Run W A → Run W B → Run W B
m >> next = λ w. and_then (m w) (λ a. next)

abbrev pub answered : {W A : Type 0} → Reply A × W → Result (ℕ × A) × W
answered (lost, w) = (err network_error, w)
answered (reply status body, w) = (ok (status, body), w)

-- `await client.get(...)`, whose exceptions nobody catches.
abbrev pub ask : {W A : Type 0} → (W → Reply A × W) → Run W (ℕ × A)
ask call = λ w. answered (call w)
