-- ===== src/Chunker/RoundTrip.antt =====
-- Splitting and joining are inverse, and the chunks are as many and as large as announced.
use stardustfs.Prelude.{
  ℕ, zero, suc, Bytes, List, [], ◌∷◌, ◌++◌, ◌≡◌, ◌≤◌, ◌<◌, refl, arith, ◌+◌, ◌-◌, ltb, ok, length,
  drop, take-append-drop, length-take, drop-drop, All, ap, ◌∙◌, sym, Bool-cases, inl, inr,
}
use stardustfs.Chunker.{
  range_from, slice, chunks_at, split, insert_part, sorted, concat_parts, join,
}

drop_past : (n : ℕ) (t : Bytes) → length t ≤ n → drop n t ≡ []
drop_past zero [] h = refl
drop_past zero (x ∷ t) h = elim h [ ]
drop_past (suc n) [] h = refl
drop_past (suc n) (x ∷ t) h = drop_past n t (omega arith)

slice-append-drop :
    (off size : ℕ) (blob : Bytes)
    → slice off (off + size) blob ++ drop (off + size) blob ≡ drop off blob
slice-append-drop off size blob =
    let e : off + size - off ≡ size = omega arith in
    rw (e, drop-drop off size blob) (take-append-drop size (drop off blob))

concat-chunks_at :
    (fuel idx off size : ℕ) (blob : Bytes)
    → 0 < size
    → length blob ≤ off + fuel
    → concat_parts (chunks_at idx size blob (range_from fuel off (length blob) size))
      ≡ drop off blob
unfolding concat_parts chunks_at range_from
concat-chunks_at zero idx off size blob pos h = sym (drop_past off blob (omega arith))
concat-chunks_at (suc fuel) idx off size blob pos h = elim (Bool-cases (ltb off (length blob))) [
  | inl more ↦
      rw (more, range_from)
        (ap (λ t. slice off (off + size) blob ++ t)
            (concat-chunks_at fuel (suc idx) (off + size) size blob pos (omega arith))
          ∙ slice-append-drop off size blob)
  | inr done ↦ rw (done, range_from) (sym (drop_past off blob (ground arith)))
]

-- The chunks come in the order of their indices, which the sort keeps.
insert_part-chunks_at :
    (idx : ℕ) (b : Bytes) (size : ℕ) (blob : Bytes) (offs : List ℕ)
    → insert_part (idx, b) (chunks_at (suc idx) size blob offs)
      ≡ (idx, b) ∷ chunks_at (suc idx) size blob offs
unfolding insert_part chunks_at
insert_part-chunks_at idx b size blob [] = refl
insert_part-chunks_at idx b size blob (off ∷ offs) = ground arith

sorted-chunks_at :
    (idx size : ℕ) (blob : Bytes) (offs : List ℕ)
    → sorted (chunks_at idx size blob offs) ≡ chunks_at idx size blob offs
unfolding sorted chunks_at
sorted-chunks_at idx size blob [] = refl
sorted-chunks_at idx size blob (off ∷ offs) =
    rw (sorted-chunks_at (suc idx) size blob offs)
      (insert_part-chunks_at idx (slice off (off + size) blob) size blob offs)

length-chunks_at :
    (fuel idx off size : ℕ) (blob : Bytes)
    → 0 < size
    → length blob ≤ off + fuel
    → All
        (λ p. length p.1 ≤ size)
        (chunks_at idx size blob (range_from fuel off (length blob) size))
unfolding chunks_at range_from
length-chunks_at zero idx off size blob pos h = tt
length-chunks_at (suc fuel) idx off size blob pos h = elim (Bool-cases (ltb off (length blob))) [
  | inl more ↦
      rw (more, range_from)
        (
          omega (arith, length-take (off + size - off) (drop off blob)),
          length-chunks_at fuel (suc idx) (off + size) size blob pos (omega arith),
        )
  | inr done ↦ rw (done, range_from) tt
]

-- For a positive chunk size the split succeeds, no chunk is larger than that size, and joining the
-- chunks gives the blob back.
pub join-split :
    (blob : Bytes) (size : ℕ)
    → 0 < size
    → (parts : List (ℕ × Bytes)) × (split blob size ≡ ok parts)
      × All (λ p. length p.1 ≤ size) parts
      × (join parts ≡ blob)
unfolding split join
join-split blob size pos =
    let offs = range_from (length blob) 0 (length blob) size in
    (
      chunks_at 0 size blob offs,
      ground arith,
      length-chunks_at (length blob) 0 0 size blob pos (omega arith),
      rw (sorted-chunks_at 0 size blob offs)
          (concat-chunks_at (length blob) 0 0 size blob pos (omega arith)),
    )
