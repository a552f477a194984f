-- ===== src/Prelude/Strings.antt =====
-- Python's `str` and `bytes`: the list of code points or of bytes.
use Prim.Native.Nat.{ℕ}
use Prim.Native.Char.{code}
use Prim.Native.String.{String}
use mathlib.Core.Path.{◌≡◌, refl}
use mathlib.Core.Logic.{◌↔◌}
use mathlib.Core.Bool.{Bool, true, false, ◌&&◌}
use mathlib.Core.List.{List, [], ◌∷◌}
use mathlib.Core.Option.{Option, none, some}
use native.Mathlib.Omega.{arith}
use stardustfs.Prelude.Tests.{HasEq, ◌==◌, nat_eq}

abbrev pub Text : Type 0
Text = List ℕ

abbrev pub Bytes : Type 0
Bytes = List ℕ

-- A text literal.
abbrev pub codes : String → Text
codes String.[] = []
codes (String.◌∷◌ c s) = code c ∷ codes s

unfoldable pub text_beq : Text → Text → Bool
text_beq [] [] = true
text_beq [] (b ∷ t) = false
text_beq (a ∷ s) [] = false
text_beq (a ∷ s) (b ∷ t) = a == b && text_beq s t

pub text_beq_iff : (s t : Text) → (text_beq s t ≡ true) ↔ (s ≡ t)
unfolding text_beq
text_beq_iff [] [] = (λ h. refl, λ h. refl)
text_beq_iff [] (b ∷ t) = ground arith
text_beq_iff (a ∷ s) [] = ground arith
text_beq_iff (a ∷ s) (b ∷ t) = ground (arith, text_beq_iff s t)

instance abbrev pub text_eq : HasEq Text
text_eq = record { is_equal = text_beq; is_equal_iff = text_beq_iff }

unfoldable pub option_beq : Option Text → Option Text → Bool
unfolding text_beq
option_beq none none = true
option_beq none (some t) = false
option_beq (some s) none = false
option_beq (some s) (some t) = text_beq s t

pub option_beq_iff : (s t : Option Text) → (option_beq s t ≡ true) ↔ (s ≡ t)
unfolding option_beq
option_beq_iff none none = (λ h. refl, λ h. refl)
option_beq_iff none (some t) = ground arith
option_beq_iff (some s) none = ground arith
option_beq_iff (some s) (some t) = ground (arith, text_beq_iff s t)

instance abbrev pub option_text_eq : HasEq (Option Text)
option_text_eq = record { is_equal = option_beq; is_equal_iff = option_beq_iff }
