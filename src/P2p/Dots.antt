-- ===== src/P2p/Dots.antt =====
-- Paths with the segment ".." are found, whatever stands around it.
use stardustfs.Prelude.{
  ℕ, Text, Bool, true, List, [], ◌∷◌, ◌++◌, map, any, ◌≡◌, ◌⊎◌, inl, inr, refl, arith, ap, ◌==◌,
  nat_eq, text_eq, text_beq, Bool-cases,
}
use stardustfs.Paths.{slash}
use stardustfs.P2p.Confinement.{has_dots_segment, backslash_to_slash, split_slash, push_first, dots}

-- A slash or a backslash.
abbrev pub IsSeparator : ℕ → Type 0
IsSeparator c = (c ≡ 47) ⊎ (c ≡ 92)

-- A path with the segment "..": at its end, before a separator, or below another path.
pub data HasDots : Text → Type 0 where
  dots_last : HasDots (46 ∷ 46 ∷ [])
  dots_then : (c : ℕ) (path : Text) → IsSeparator c → HasDots (46 ∷ 46 ∷ c ∷ path)
  dots_below :
      (above : Text) (c : ℕ) (path : Text)
      → IsSeparator c
      → HasDots path
      → HasDots (above ++ c ∷ path)

separator_to_slash : (c : ℕ) → IsSeparator c → backslash_to_slash c ≡ slash
separator_to_slash c (inl e) = rw e refl
separator_to_slash c (inr e) = rw e refl

abbrev is_dots : Text → Bool
is_dots p = p == dots

abbrev later_parts : List Text → List Text
later_parts [] = []
later_parts (p ∷ parts) = parts

any_later : (parts : List Text) → any is_dots (later_parts parts) ≡ true → any is_dots parts ≡ true
any_later [] h = h
any_later (p ∷ parts) h = ground arith

later-push_first :
    (c : ℕ) (parts : List Text) → later_parts (push_first c parts) ≡ later_parts parts
later-push_first c [] = refl
later-push_first c (p ∷ parts) = refl

-- What stands before a slash makes no segment behind it go away.
dots_behind :
    (above path : Text)
    → any is_dots (split_slash path) ≡ true
    → any is_dots (later_parts (split_slash (above ++ slash ∷ path))) ≡ true
unfolding split_slash
dots_behind [] path h = h
dots_behind (c ∷ above) path h =
    let rest = dots_behind above path h in
    elim (Bool-cases (c == slash)) [
      | inl new ↦ rw (new, split_slash) (any_later (split_slash (above ++ slash ∷ path)) rest)
      | inr old ↦
          rw (old, split_slash) (rw (later-push_first c (split_slash (above ++ slash ∷ path))) rest)
    ]

map-append-cons :
    (above path : Text) (c : ℕ)
    → map backslash_to_slash (above ++ c ∷ path)
      ≡ map backslash_to_slash above ++ backslash_to_slash c ∷ map backslash_to_slash path
map-append-cons [] path c = refl
map-append-cons (a ∷ above) path c =
    ap (λ t. backslash_to_slash a ∷ t) (map-append-cons above path c)

pub HasDots-has_dots_segment : (path : Text) → HasDots path → has_dots_segment path ≡ true
unfolding has_dots_segment split_slash text_beq
HasDots-has_dots_segment _ dots_last = refl
HasDots-has_dots_segment _ (dots_then c path sep) = rw (separator_to_slash c sep) refl
HasDots-has_dots_segment _ (dots_below above c path sep below) =
    rw (map-append-cons above path c, separator_to_slash c sep)
      (any_later (split_slash (map backslash_to_slash above ++ slash ∷ map backslash_to_slash path))
        (dots_behind (map backslash_to_slash above) (map backslash_to_slash path)
          (HasDots-has_dots_segment path below)))
