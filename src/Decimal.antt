-- ===== src/Decimal.antt =====
-- `str(n)` for a natural number.
use stardustfs.Prelude.{
  ℕ, zero, suc, Text, [], ◌∷◌, ◌++◌, ◌+◌, ◌-◌, ◌*◌, ◌/◌, ◌%◌, ◌<◌, ◌≡◌, refl, arith, ltb,
  if◌then◌else◌, ap, sym, ◌∙◌, Bool-cases, inl, inr,
}

-- The digits on fuel; more fuel than the number is enough.
unfoldable pub decimal_from : ℕ → ℕ → Text
decimal_from zero n = []
decimal_from (suc fuel) n =
    let front = decimal_from fuel (n / 10) in
    if ltb n 10 then (48 + n) ∷ [] else front ++ (48 + n % 10) ∷ []

unfoldable pub decimal : ℕ → Text
unfolding decimal_from
decimal n = decimal_from (suc n) n

-- The number that digits stand for, read from the left.
value : ℕ → Text → ℕ
value acc [] = acc
value acc (c ∷ t) = value (acc * 10 + (c - 48)) t

value-append : (acc c : ℕ) (t : Text) → value acc (t ++ c ∷ []) ≡ value acc t * 10 + (c - 48)
unfolding value
value-append acc c [] = refl
value-append acc c (d ∷ t) = value-append (acc * 10 + (d - 48)) c t

value-decimal_from : (fuel n : ℕ) → n < fuel → value 0 (decimal_from fuel n) ≡ n
unfolding decimal_from value
value-decimal_from zero n h = elim h [ ]
value-decimal_from (suc fuel) n h = elim (Bool-cases (ltb n 10)) [
  | inl small ↦ rw small (omega arith)
  | inr large ↦ rw large (
      value-append 0 (48 + n % 10) (decimal_from fuel (n / 10))
      ∙ omega (arith, value-decimal_from fuel (n / 10) (ground arith)))
]

-- Two numbers that print alike are equal.
pub decimal-injective : (m n : ℕ) → decimal m ≡ decimal n → m ≡ n
unfolding decimal
decimal-injective m n h =
    sym (value-decimal_from (suc m) m (omega arith))
    ∙ ap (value 0) h
    ∙ value-decimal_from (suc n) n (omega arith)
