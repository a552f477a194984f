-- ===== src/Network/Ensures.antt =====
-- Postconditions of calls, and what calls leave as it is.
use stardustfs.Prelude.{ok, err, Result, Bool, true, false, if◌then◌else◌}
use stardustfs.Network.{Run, and_then}

-- Where a call returns, its value and the world after it are related by `Q`.
abbrev pub After : {W A : Type 0} → (A → W → Type 0) → Result A × W → Type 0
After Q (err e, w) = Unit
After Q (ok a, w) = Q a w

pub After-and_then :
    {W A B : Type 0} (Q : A → W → Type 0) (R : B → W → Type 0) (outcome : Result A × W)
    (next : A → Run W B)
    → After Q outcome
    → ((a : A) (w : W) → Q a w → After R (next a w))
    → After R (and_then outcome next)
After-and_then Q R (err e, w) next h k = tt
After-and_then Q R (ok a, w) next h k = k a w h

-- A property of the world that a call cannot end.
pub keeps-and_then :
    {W A B : Type 0} (P : W → Type 0) (outcome : Result A × W) (next : A → Run W B)
    → P outcome.1
    → ((a : A) (w : W) → P w → P (next a w).1)
    → P (and_then outcome next).1
keeps-and_then P (err e, w) next h k = h
keeps-and_then P (ok a, w) next h k = k a w h

pub After-choice :
    {W A : Type 0} (Q : A → W → Type 0) (b : Bool) (m n : Run W A) (w : W)
    → After Q (m w)
    → After Q (n w)
    → After Q ((if b then m else n) w)
After-choice Q true m n w h k = h
After-choice Q false m n w h k = k

pub After-both :
    {W A : Type 0} (Q R : A → W → Type 0) (outcome : Result A × W)
    → After Q outcome
    → After R outcome
    → After (λ a w. Q a w × R a w) outcome
After-both Q R (err e, w) h k = tt
After-both Q R (ok a, w) h k = (h, k)

pub After-map :
    {W A : Type 0} (Q R : A → W → Type 0) (outcome : Result A × W)
    → After Q outcome
    → ((a : A) (w : W) → Q a w → R a w)
    → After R outcome
After-map Q R (err e, w) h k = tt
After-map Q R (ok a, w) h k = k a w h

-- A property of the world that holds after a call holds after a call that returns.
pub After-kept :
    {W A : Type 0} (P : W → Type 0) (outcome : Result A × W)
    → P outcome.1
    → After (λ a v. P v) outcome
After-kept P (err e, v) h = tt
After-kept P (ok a, v) h = h
