-- ===== src/Chunker.antt =====
-- stardustlib/chunker.py: the split of a ciphertext into chunks of a fixed size.
pub mod RoundTrip
use stardustfs.Prelude.{
  ℕ, zero, suc, Bytes, List, [], ◌∷◌, ◌++◌, map, ◌+◌, ◌-◌, ◌/◌, ltb, leb, ◌==◌, nat_eq,
  if◌then◌else◌, Result, ok, err, value_error, length, take, drop,
}

-- `range(start, stop, step)` for a positive step, with as much fuel as `stop`.
unfoldable pub range_from : ℕ → ℕ → ℕ → ℕ → List ℕ
range_from zero start stop step = []
range_from (suc fuel) start stop step =
    let rest = range_from fuel (start + step) stop step in
    if ltb start stop then start ∷ rest else []

-- `blob[a:b]`
abbrev pub slice : ℕ → ℕ → Bytes → Bytes
slice a b blob = take (b - a) (drop a blob)

-- The chunks at the offsets, numbered from `idx`.
unfoldable pub chunks_at : ℕ → ℕ → Bytes → List ℕ → List (ℕ × Bytes)
chunks_at idx size blob [] = []
chunks_at idx size blob (off ∷ offs) =
    (idx, slice off (off + size) blob) ∷ chunks_at (suc idx) size blob offs

unfoldable pub split : Bytes → ℕ → Result (List (ℕ × Bytes))
unfolding range_from chunks_at
split blob size =
    if size == 0
    then err value_error
    else ok (chunks_at 0 size blob (range_from (length blob) 0 (length blob) size))

-- Python's stable sort by the index.
unfoldable pub insert_part : ℕ × Bytes → List (ℕ × Bytes) → List (ℕ × Bytes)
insert_part p [] = p ∷ []
insert_part p (q ∷ parts) = if leb p.0 q.0 then p ∷ q ∷ parts else q ∷ insert_part p parts

unfoldable pub sorted : List (ℕ × Bytes) → List (ℕ × Bytes)
unfolding insert_part
sorted [] = []
sorted (p ∷ parts) = insert_part p (sorted parts)

unfoldable pub concat_parts : List (ℕ × Bytes) → Bytes
concat_parts [] = []
concat_parts (p ∷ parts) = p.1 ++ concat_parts parts

unfoldable pub join : List (ℕ × Bytes) → Bytes
unfolding sorted concat_parts
join parts = concat_parts (sorted parts)

unfoldable pub chunk_count : ℕ → ℕ → Result ℕ
chunk_count total_size size =
    if size == 0 then err value_error else ok ((total_size + size - 1) / size)
