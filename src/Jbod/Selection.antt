-- ===== src/Jbod/Selection.antt =====
-- Placement: the source that `select_source` returns has room, and no usable source has more.
use stardustfs.Prelude.{
  ℕ, Bool, true, false, Option, none, some, List, [], ◌∷◌, ◌≤◌, ◌≡◌, refl, arith, ◌&&◌, ok, err,
  insufficient_storage, leb, ltb_ℤ, ℤ, pos, negsuc, All, ◌⊎◌, subst, Bool-cases, Option-cases, inl,
  inr,
}
use stardustfs.Source.{Source}
use stardustfs.Jbod.{Jbod, is_usable, space_of, select_from, select_source}

-- A source on which `size` bytes can be placed.
abbrev pub has_room : ℕ → Source → Bool
has_room size s = is_usable s && leb size (space_of s)

-- The best source of those seen so far.
abbrev pub IsBest : ℕ → Option Source → ℤ → Type 0
IsBest size none b = b ≡ negsuc 0
IsBest size (some s) b = (has_room size s ≡ true) × (b ≡ pos (space_of s))

abbrev pub IsIn : {A : Type 0} → A → List A → Type 0
IsIn a [] = ⊥
IsIn a (x ∷ xs) = (a ≡ x) ⊎ IsIn a xs

abbrev fits_better : ℕ → ℤ → Source → Bool
fits_better size b s = is_usable s && leb size (space_of s) && ltb_ℤ b (pos (space_of s))

-- The best source seen so far gives way only to one with more space.
select_from-IsBest :
    (size : ℕ) (best : Option Source) (b : ℤ) (sources : List Source)
    → IsBest size best b
    → (s : Source) → select_from size best b sources ≡ some s
    → (has_room size s ≡ true)
      × (ltb_ℤ (pos (space_of s)) b ≡ false)
      × All (λ t. has_room size t ≡ true → space_of t ≤ space_of s) sources
      × ((best ≡ some s) ⊎ IsIn s sources)
unfolding select_from
select_from-IsBest size none b [] h s e = cc
select_from-IsBest size (some t) b [] h s e = ground arith
select_from-IsBest size best b (t ∷ sources) h s e = elim (Bool-cases (fits_better size b t)) [
  | inl better ↦
      let (room, above, most, found) =
        select_from-IsBest size (some t) (pos (space_of t)) sources (ground arith) s
          (rw better at e) in
      (room, ground arith, ((λ r. ground arith), most), ground arith)
  | inr worse ↦
      let (room, above, most, found) = select_from-IsBest size best b sources h s (rw worse at e) in
      (room, above, ((λ r. ground arith), most), ground arith)
]

select_from-none :
    (size : ℕ) (best : Option Source) (b : ℤ) (sources : List Source)
    → IsBest size best b
    → select_from size best b sources ≡ none
    → (best ≡ none) × All (λ t. has_room size t ≡ false) sources
unfolding select_from
select_from-none size best b [] h e = (e, tt)
select_from-none size best b (t ∷ sources) h e = elim (Bool-cases (fits_better size b t)) [
  | inl better ↦
      let (absent, rest) =
        select_from-none size (some t) (pos (space_of t)) sources (ground arith) (rw better at e) in
      cc
  | inr worse ↦
      let (absent, rest) = select_from-none size best b sources h (rw worse at e) in
      (absent, (ground arith, rest))
]

-- A chosen source is one of the list, active and local, with room for the file, and no other
-- source that has room has more space.
pub select_source_best :
    (size : ℕ) (j : Jbod) (s : Source)
    → select_source size j ≡ ok s
    → IsIn s j.sources
      × (has_room size s ≡ true)
      × All (λ t. has_room size t ≡ true → space_of t ≤ space_of s) j.sources
unfolding select_source
select_source_best size j s e = elim (Option-cases (select_from size none (negsuc 0) j.sources)) [
  | inl absent ↦ ground arith
  | inr (t, found) ↦
      let (room, above, most, at) =
        select_from-IsBest size none (negsuc 0) j.sources refl t found in
      let same : t ≡ s = ground arith in
      subst
        (λ x.
          IsIn x j.sources
          × (has_room size x ≡ true)
          × All (λ u. has_room size u ≡ true → space_of u ≤ space_of x) j.sources)
        same (ground arith, room, most)
]

-- The selection raises only if no source has room.
pub select_source_refused :
    (size : ℕ) (j : Jbod)
    → select_source size j ≡ err insufficient_storage
    → All (λ t. has_room size t ≡ false) j.sources
unfolding select_source
select_source_refused size j e = elim (Option-cases (select_from size none (negsuc 0) j.sources)) [
  | inl absent ↦ (select_from-none size none (negsuc 0) j.sources refl absent).1
  | inr (t, found) ↦ ground arith
]
