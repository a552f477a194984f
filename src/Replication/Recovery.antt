-- ===== src/Replication/Recovery.antt =====
-- Recovery gives the content back, whatever the order in which the server lists the chunks.
use stardustfs.Prelude.{
  ℕ, suc, Text, Bytes, false, some, List, [], ◌∷◌, map, ok, ◌≡◌, ◌≢◌, refl, arith, sym, ap, ◌∙◌,
  subst, length, All, ◌<◌, inl, inr, List-cases, ◌==◌, nat_eq,
}
use mathlib.Core.List.{Permᴰ}
use stardustfs.Chunker.{insert_part, sorted, concat_parts, join, chunks_at, range_from, split}
use stardustfs.Chunker.RoundTrip.{join-split}
use stardustfs.Network.{reply}
use stardustfs.Replication.{Setup, fetch_from_any_holder, gather_parts, recover_chunks}
use stardustfs.Replication.Reach.{IsServed, first_data-IsServed}
use stardustfs.Replication.Transfer.{Net, Holder, ChunkInfo, token_of, list_chunks, list_replicas}

abbrev Part : Type 0
Part = ℕ × Bytes

-- No two parts have the same index.
abbrev IsDistinct : List Part → Type 0
IsDistinct [] = Unit
IsDistinct (p ∷ parts) = All (λ q. p.0 ≢ q.0) parts × IsDistinct parts

All-permute :
    (n : ℕ) {xs ys : List Part} → Permᴰ xs ys → All (λ q. n ≢ q.0) xs → All (λ q. n ≢ q.0) ys
All-permute n Permᴰ.nil h = h
All-permute n (Permᴰ.cons {a = a} {b = b} e p) (here, there) =
    (subst (λ q. n ≢ q.0) e here, All-permute n p there)
All-permute n (Permᴰ.swap e f) (first, (second, rest)) =
    (subst (λ q. n ≢ q.0) f second, (subst (λ q. n ≢ q.0) e first, rest))
All-permute n (Permᴰ.trans p q) h = All-permute n q (All-permute n p h)

IsDistinct-permute : {xs ys : List Part} → Permᴰ xs ys → IsDistinct xs → IsDistinct ys
IsDistinct-permute Permᴰ.nil h = h
IsDistinct-permute (Permᴰ.cons {a = a} {b = b} {l₁ = l} {l₂ = m} e p) (here, there) =
    (subst (λ q. All (λ r. q.0 ≢ r.0) m) e (All-permute a.0 p here), IsDistinct-permute p there)
IsDistinct-permute (Permᴰ.swap {a = a} {b = b} {a' = a'} {b' = b'} {l = l} e f)
      ((ne, first), (second, rest)) =
    subst (λ q. IsDistinct (q ∷ b' ∷ l)) f
      (subst (λ q. IsDistinct (b ∷ q ∷ l)) e (((λ same. ne (sym same)), second), (first, rest)))
IsDistinct-permute (Permᴰ.trans p q) h = IsDistinct-permute q (IsDistinct-permute p h)

-- Two insertions with different indices commute.
insert_part-insert_part :
    (p q : Part) (parts : List Part)
    → p.0 ≢ q.0
    → insert_part p (insert_part q parts) ≡ insert_part q (insert_part p parts)
unfolding insert_part
insert_part-insert_part p q [] ne = ground arith
insert_part-insert_part p q (r ∷ parts) ne = ground (arith, insert_part-insert_part p q parts ne)

sorted-permute : {xs ys : List Part} → Permᴰ xs ys → IsDistinct xs → sorted xs ≡ sorted ys
unfolding sorted
sorted-permute Permᴰ.nil h = refl
sorted-permute (Permᴰ.cons {b = b} {l₁ = l} e p) (here, there) =
    ap (λ q. insert_part q (sorted l)) e ∙ ap (insert_part b) (sorted-permute p there)
sorted-permute (Permᴰ.swap {a = a} {b = b} {a' = a'} {b' = b'} {l = l} e f)
      ((ne, first), (second, rest)) =
    insert_part-insert_part a b (sorted l) ne
    ∙ ap (λ q. insert_part q (insert_part a (sorted l))) f
    ∙ ap (λ q. insert_part a' (insert_part q (sorted l))) e
sorted-permute (Permᴰ.trans p q) h = sorted-permute p h ∙ sorted-permute q (IsDistinct-permute p h)

join-permute : {xs ys : List Part} → Permᴰ xs ys → IsDistinct xs → join xs ≡ join ys
unfolding join
join-permute p h = ap concat_parts (sorted-permute p h)

later_chunks :
    (n idx size : ℕ) (blob : Bytes) (offs : List ℕ)
    → n < idx
    → All (λ q. n ≢ q.0) (chunks_at idx size blob offs)
unfolding chunks_at
later_chunks n idx size blob [] h = tt
later_chunks n idx size blob (off ∷ offs) h =
    ((λ same. omega arith), later_chunks n (suc idx) size blob offs (omega arith))

chunks_at-IsDistinct :
    (idx size : ℕ) (blob : Bytes) (offs : List ℕ) → IsDistinct (chunks_at idx size blob offs)
unfolding chunks_at
chunks_at-IsDistinct idx size blob [] = tt
chunks_at-IsDistinct idx size blob (off ∷ offs) = (
  later_chunks idx (suc idx) size blob offs (omega arith),
  chunks_at-IsDistinct (suc idx) size blob offs,
)

split-IsDistinct :
    (blob : Bytes) (size : ℕ) (parts : List Part) → split blob size ≡ ok parts → IsDistinct parts
unfolding split
split-IsDistinct blob size parts h =
    let offs = range_from (length blob) 0 (length blob) size in
    let same : chunks_at 0 size blob offs ≡ parts = ground arith in
    subst IsDistinct same (chunks_at-IsDistinct 0 size blob offs)

-- The parts that the server's list names, with their contents.
abbrev pub listed_parts : (ChunkInfo → Bytes) → List ChunkInfo → List Part
listed_parts held infos = map (λ info. (info.idx, held info)) infos

empty_joined :
    (held : ChunkInfo → Bytes) (infos : List ChunkInfo) (blob : Bytes)
    → infos ≡ []
    → 0 < length blob
    → join (listed_parts held infos) ≢ blob
unfolding join sorted concat_parts
empty_joined held infos blob none_listed nonempty joined =
    let e : [] ≡ blob = sym (ap (λ l. join (listed_parts held l)) none_listed) ∙ joined in
    ground arith

module _ {W : Type 0} (setup : Setup) (net : Net W) where
  -- The server lists the holders of the chunk, and some holder of the list serves it.
  abbrev pub IsReachable : Text → (ChunkInfo → Bytes) → ChunkInfo → Type 0
  IsReachable token held info =
      (holders : List Holder) × ((w : W)
        → (w' : W) × (net.get_replicas token info.chunk_id w ≡ (reply 200 holders, w')))
      × IsServed net token info.chunk_id (held info) holders

  fetch_from_any_holder-IsReachable :
      (token : Text) (held : ChunkInfo → Bytes) (info : ChunkInfo) (w : W)
      → IsReachable token held info
      → (w' : W) × (fetch_from_any_holder setup net token info.chunk_id w
          ≡ (ok (some (held info)), w'))
  unfolding fetch_from_any_holder list_replicas
  fetch_from_any_holder-IsReachable token held info w (holders, listing, served) =
      let (v, at) = listing w in
      let (w', given) =
        first_data-IsServed net token info.chunk_id (held info) setup holders v served in
      (w', rw (fetch_from_any_holder, list_replicas, at) given)

  gather_parts_total :
      (token : Text) (held : ChunkInfo → Bytes) (infos : List ChunkInfo) (w : W)
      → All (IsReachable token held) infos
      → (w' : W) × (gather_parts setup net token infos w ≡ (ok (listed_parts held infos, []), w'))
  unfolding gather_parts
  gather_parts_total token held [] w h = (w, refl)
  gather_parts_total token held (info ∷ infos) w (here, there) =
      let (v, at) = fetch_from_any_holder-IsReachable token held info w here in
      let (v', rest) = gather_parts_total token held infos v there in (v', rw (at, rest) refl)

  -- Let the chunks of a blob that is not empty be listed in any order, and each be served by a holder.
  -- Then the recovery returns, and gives the blob.
  pub recover_chunks-split :
      (token file_ref : Text) (held : ChunkInfo → Bytes) (infos : List ChunkInfo) (blob : Bytes)
      (size : ℕ) (parts : List Part) (w w₁ w₂ : W)
      → 0 < size
      → 0 < length blob
      → split blob size ≡ ok parts
      → Permᴰ parts (listed_parts held infos)
      → net.get_valid_token w ≡ (ok token, w₁)
      → net.get_chunks token file_ref w₁ ≡ (reply 200 infos, w₂)
      → All (IsReachable token held) infos
      → (w' : W) × (recover_chunks setup net file_ref w ≡ (ok blob, w'))
  unfolding recover_chunks token_of list_chunks
  recover_chunks-split token file_ref held infos blob size parts w w₁ w₂ positive nonempty cut order
        tokens chunks reach =
      let (parts', cut', small, whole) = join-split blob size positive in
      let (w', gathered) = gather_parts_total token held infos w₂ reach in
      let same : parts' ≡ parts = ground arith in
      let joined : join (listed_parts held infos) ≡ blob =
        sym (join-permute order (split-IsDistinct blob size parts cut))
        ∙ sym (ap join same)
        ∙ whole in
      let some_listed : (length infos == 0) ≡ false = elim (List-cases infos) [
        | inl none_listed ↦ absurd (empty_joined held infos blob none_listed nonempty joined)
        | inr (x, xs, e) ↦ rw e (ground arith)
      ] in
      (
        w',
        rw (recover_chunks, token_of, list_chunks, tokens, chunks, some_listed, gathered)
            (ap (λ b. (ok b, w')) joined),
      )
