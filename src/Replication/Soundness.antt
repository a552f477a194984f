-- ===== src/Replication/Soundness.antt =====
-- What the status "replicated" stands for: devices that took the chunks.
use stardustfs.Prelude.{
  ℕ, Text, Bytes, true, List, [], ◌∷◌, ◌+◌, ◌≡◌, ◌≤◌, arith, subst, ok, length, All, all, leb,
  if◌then◌else◌,
}
use stardustfs.Table.{IsUnique}
use stardustfs.Network.{and_then, pure}
use stardustfs.Network.Ensures.{After, After-both, After-kept, After-and_then}
use stardustfs.Replication.{
  Setup, ReplicationResult, chunk_id_of, store_and_record, place_all, replicate_chunk,
  replicate_each, replicate_chunks, devices_of,
}
use stardustfs.Replication.Steady.{placing, keeps-replicate_each}
use stardustfs.Replication.Holding.{
  device_of, IsKeeping, IsWitness, IsBacked, IsBackedBeside, IsBacked-later, IsBackedBeside-next,
  IsBackedBeside-start, placement-IsUnique, turn,
}
use stardustfs.Replication.Transfer.{Net, Holder, token_of, register_chunk, placement}

module _ {W : Type 0} (setup : Setup) (net : Net W) (token : Text)
    (S : Holder → Text → Bytes → W → Type 0) (keeping : IsKeeping W net S) where
  place_all-IsBacked :
      (chunk : Text) (content : Bytes) (placed : ℕ) (holders : List Holder) (w : W)
      → IsUnique device_of holders
      → IsBackedBeside setup net token S keeping holders chunk content placed w
      → After
          (IsBacked setup net token S keeping chunk content)
          (place_all setup net token chunk content placed holders w)
  unfolding place_all
  place_all-IsBacked chunk content placed [] w apart (hs, size, unique, kept, beside) =
      (hs, size, unique, kept)
  place_all-IsBacked chunk content placed (x ∷ holders) w apart h =
      let outcome = store_and_record setup net token chunk content x w in
      After-and_then
        (λ added v.
          IsWitness (S x chunk content) added v
          × IsBackedBeside setup net token S keeping (x ∷ holders) chunk content placed v)
        (IsBacked setup net token S keeping chunk content) outcome
        (λ added.
          place_all setup net token chunk content (if added then placed + 1 else placed) holders)
        (turn setup net token S keeping x holders chunk content placed w h)
        (λ added v (new, old).
          place_all-IsBacked chunk content (if added then placed + 1 else placed) holders v apart.1
            (IsBackedBeside-next setup net token S keeping x holders chunk content placed added v
              apart new old))

  -- Every chunk has as many holders as its count.
  abbrev AreBacked : Text → List (ℕ × Bytes) → List ℕ → W → Type 0
  AreBacked file_ref [] [] w = Unit
  AreBacked file_ref (chunk ∷ chunks) (n ∷ counts) w =
      IsBacked setup net token S keeping (chunk_id_of setup file_ref chunk.0) chunk.1 n w
      × AreBacked file_ref chunks counts w
  AreBacked file_ref [] (n ∷ counts) w = ⊥
  AreBacked file_ref (chunk ∷ chunks) [] w = ⊥

  replicate_chunk-IsBacked :
      (file_ref : Text) (chunk : ℕ × Bytes) (w : W)
      → After
          (IsBacked setup net token S keeping (chunk_id_of setup file_ref chunk.0) chunk.1)
          (replicate_chunk setup net token file_ref chunk w)
  unfolding replicate_chunk
  replicate_chunk-IsBacked file_ref (idx, content) w =
      let chunk = chunk_id_of setup file_ref idx in
      After-and_then (λ u v. Unit {0}) (IsBacked setup net token S keeping chunk content)
        (register_chunk net token chunk file_ref idx (length content) w)
        (λ u. placing setup net token chunk content)
        (After-kept (λ v. Unit {0}) (register_chunk net token chunk file_ref idx (length content) w)
          tt)
        (λ u v t.
          After-and_then (λ hs v'. IsUnique device_of hs)
            (IsBacked setup net token S keeping chunk content)
            (placement net setup.min_replicas token (length content) (devices_of setup.device_id) v)
            (λ holders. place_all setup net token chunk content 0 holders)
            (placement-IsUnique setup net token S keeping setup.min_replicas (length content)
              (devices_of setup.device_id) v)
            (λ holders v' apart.
              place_all-IsBacked chunk content 0 holders v' apart
                (IsBackedBeside-start setup net token S keeping holders chunk content v')))

  replicate_each-AreBacked :
      (file_ref : Text) (chunks : List (ℕ × Bytes)) (w : W)
      → After (AreBacked file_ref chunks) (replicate_each setup net token file_ref chunks w)
  unfolding replicate_each
  replicate_each-AreBacked file_ref [] w = tt
  replicate_each-AreBacked file_ref (chunk ∷ chunks) w =
      let id = chunk_id_of setup file_ref chunk.0 in
      After-and_then (IsBacked setup net token S keeping id chunk.1)
        (AreBacked file_ref (chunk ∷ chunks)) (replicate_chunk setup net token file_ref chunk w)
        (λ placed v.
          and_then (replicate_each setup net token file_ref chunks v)
            (λ rest. pure (placed ∷ rest)))
        (replicate_chunk-IsBacked file_ref chunk w)
        (λ placed v backed.
          let outcome = replicate_each setup net token file_ref chunks v in
          After-and_then
            (λ rest v'.
              AreBacked file_ref chunks rest v'
              × IsBacked setup net token S keeping id chunk.1 placed v')
            (AreBacked file_ref (chunk ∷ chunks)) outcome (λ rest. pure (placed ∷ rest))
            (After-both (AreBacked file_ref chunks)
              (λ rest v'. IsBacked setup net token S keeping id chunk.1 placed v') outcome
              (replicate_each-AreBacked file_ref chunks v)
              (After-kept (IsBacked setup net token S keeping id chunk.1 placed) outcome (
                IsBacked-later setup net token S keeping id chunk.1 placed v outcome.1
                  (λ y c b k.
                    keeps-replicate_each setup net token (S y c b) (keeping.is_steady y c b)
                      file_ref chunks v k)
                  backed)))
            (λ rest v' (others, mine). (mine, others)))

module _ {W : Type 0} (setup : Setup) (net : Net W) (S : Holder → Text → Bytes → W → Type 0)
    (keeping : IsKeeping W net S) where
  -- Every chunk was taken by that many different devices.
  abbrev pub AreTaken : Text → List (ℕ × Bytes) → W → Type 0
  AreTaken file_ref chunks w =
      All
        (λ chunk.
          (hs : List Holder) × (setup.min_replicas ≤ length hs)
          × IsUnique device_of hs
          × All (λ h. S h (chunk_id_of setup file_ref chunk.0) chunk.1 w) hs)
        chunks

  enough :
      (token file_ref : Text) (chunks : List (ℕ × Bytes)) (counts : List ℕ) (w : W)
      → all (λ n. leb setup.min_replicas n) counts ≡ true
      → AreBacked setup net token S keeping file_ref chunks counts w
      → AreTaken file_ref chunks w
  enough token file_ref [] [] w h k = tt
  enough token file_ref [] (n ∷ counts) w h k = tt
  enough token file_ref (chunk ∷ chunks) [] w h k = elim k [ ]
  enough token file_ref (chunk ∷ chunks) (n ∷ counts) w h ((hs, size, apart, kept), rest) = (
    (hs, ground (arith, size), apart, kept),
    enough token file_ref chunks counts w (ground arith) rest,
  )

  replicate_chunks-After :
      (file_ref : Text) (chunks : List (ℕ × Bytes)) (w : W)
      → After
          (λ r v. r.is_replicated ≡ true → AreTaken file_ref chunks v)
          (replicate_chunks setup net file_ref chunks w)
  unfolding replicate_chunks
  replicate_chunks-After file_ref chunks w =
      After-and_then (λ t v. Unit {0}) _ (token_of net w) _
        (After-kept (λ v. Unit {0}) (token_of net w) tt)
        (λ token v u.
          After-and_then (AreBacked setup net token S keeping file_ref chunks) _
            (replicate_each setup net token file_ref chunks v) _
            (replicate_each-AreBacked setup net token S keeping file_ref chunks v)
            (λ counts v' backed replicated.
              enough token file_ref chunks counts v' (ground arith) backed))

  -- Where pushes that succeed were taken, and the server places a chunk on different devices: if the
  -- replication of chunks returns with the status "replicated", every chunk was taken, with its content
  -- and under its id, by at least `min_replicas` different devices.
  pub replicate_chunks_sound :
      (file_ref : Text) (chunks : List (ℕ × Bytes)) (result : ReplicationResult) (w w' : W)
      → replicate_chunks setup net file_ref chunks w ≡ (ok result, w')
      → result.is_replicated ≡ true
      → AreTaken file_ref chunks w'
  replicate_chunks_sound file_ref chunks result w w' done replicated =
      subst (After (λ r v. r.is_replicated ≡ true → AreTaken file_ref chunks v)) done
        (replicate_chunks-After file_ref chunks w) replicated
