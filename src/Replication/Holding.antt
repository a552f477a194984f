-- ===== src/Replication/Holding.antt =====
-- Holders that have taken a chunk, and what a push and a placement do to them.
use stardustfs.Prelude.{
  ℕ, none, inl, inr, Bool-cases, ◌==◌, text_eq, Text, Bytes, Bool, true, false, List, [], ◌∷◌, ◌+◌,
  ◌≡◌, refl, arith, ap, ok, err, Result, length, All, if◌then◌else◌, nat_eq, eq_iff,
}
use stardustfs.Network.{Reply, lost, reply, Run, and_then, pure, answered}
use stardustfs.Network.Ensures.{
  After, After-choice, After-both, After-map, After-kept, After-and_then,
}
use stardustfs.Replication.{Setup, store_and_record}
use stardustfs.Replication.Steady.{IsSteady, recorded, keeps-store_and_record, keeps-record_replica}
use stardustfs.Replication.Transfer.{
  Net, Holder, is_missing, listed, placement, record_replica, holder_store, relay_store_of,
  relay_result, direct_result,
}
use stardustfs.Table.{find_row, IsUnique}

abbrev pub device_of : Holder → Text
device_of h = h.device_id

-- `S h chunk content w`: by the world `w` the holder has taken the content as the chunk. What has been taken
-- stays so, a push that succeeds, directly or by the relay, is one that was taken, and the server places a
-- chunk on different devices.
pub record IsKeeping (W : Type 0) (net : Net W) (S : Holder → Text → Bytes → W → Type 0)
    : Type 0 where
  pub is_steady : (h : Holder) (chunk : Text) (content : Bytes) → IsSteady W net (S h chunk content)
  pub by_direct :
      (h : Holder) (chunk token : Text) (content : Bytes) (w w' : W)
      → net.direct_store h.connection_address chunk content token w ≡ (reply 200 tt, w')
      → S h chunk content w'
  pub by_relay :
      (h : Holder) (chunk : Text) (content : Bytes) (w w' : W)
      → net.relay_store h.device_id chunk content w ≡ (ok tt, w')
      → S h chunk content w'
  pub places_apart :
      (token : Text) (size count : ℕ) (exclude : List Text) (holders : List Holder) (w : W)
      → (net.post_placement token size count exclude w).0 ≡ reply 200 holders
      → IsUnique device_of holders

module _ {W : Type 0} (K : W → Type 0) where
  -- A test that is passed only where `K` holds.
  abbrev pub IsWitness : Bool → W → Type 0
  IsWitness b v = b ≡ true → K v

  relay_result-After :
      (outcome : Result (Unit {0}) × W)
      → ((v : W) → outcome ≡ (ok tt, v) → K v)
      → After IsWitness (relay_result outcome)
  relay_result-After (err e, v) k = λ h. ground arith
  relay_result-After (ok a, v) k = λ h. k v refl

  direct_result-After :
      (relay : Run W Bool) (outcome : Reply (Unit {0}) × W)
      → ((v : W) → After IsWitness (relay v))
      → ((v : W) → outcome ≡ (reply 200 tt, v) → K v)
      → After IsWitness (direct_result relay outcome)
  direct_result-After relay (lost, v) k j = k v
  direct_result-After relay (reply status body, v) k j =
      λ h. j v (ap (λ n. (reply n tt, v)) (ground (arith, eq_iff status 200)))

module _ {W : Type 0} (setup : Setup) (net : Net W) (token : Text)
    (S : Holder → Text → Bytes → W → Type 0) (keeping : IsKeeping W net S) where
  stored_by_relay :
      (h : Holder) (chunk : Text) (content : Bytes) (w : W)
      → After (IsWitness (S h chunk content)) (relay_store_of net h.device_id chunk content w)
  stored_by_relay h chunk content w =
      After-choice (IsWitness (S h chunk content)) (is_missing h.device_id) (pure false)
        (λ v. relay_result (net.relay_store h.device_id chunk content v)) w (λ e. ground arith)
        (relay_result-After (S h chunk content) (net.relay_store h.device_id chunk content w)
          (λ v e. keeping.by_relay h chunk content w v e))

  stored_by :
      (h : Holder) (chunk : Text) (content : Bytes) (w : W)
      → After
          (IsWitness (S h chunk content))
          (holder_store net h.device_id h.connection_address chunk content token w)
  unfolding holder_store
  stored_by h chunk content w =
      After-choice (IsWitness (S h chunk content)) (is_missing h.connection_address)
        (relay_store_of net h.device_id chunk content)
        (λ v.
          direct_result (relay_store_of net h.device_id chunk content)
            (net.direct_store h.connection_address chunk content token v))
        w (stored_by_relay h chunk content w)
        (direct_result-After (S h chunk content) (relay_store_of net h.device_id chunk content)
          (net.direct_store h.connection_address chunk content token w)
          (λ v. stored_by_relay h chunk content v)
          (λ v e. keeping.by_direct h chunk token content w v e))

  recorded_kept :
      (h : Holder) (chunk : Text) (content : Bytes) (b : Bool) (v : W)
      → IsWitness (S h chunk content) b v
      → After (IsWitness (S h chunk content)) (recorded net token chunk h b v)
  recorded_kept h chunk content true v kept =
      let outcome = record_replica net token chunk h.device_id v in
      After-map (λ b v'. S h chunk content v') (IsWitness (S h chunk content)) outcome
        (After-kept (S h chunk content) outcome (
          keeps-record_replica setup net token (S h chunk content)
            (keeping.is_steady h chunk content) chunk h.device_id v (kept refl)))
        (λ b v' k e. k)
  recorded_kept h chunk content false v kept = λ e. ground arith

  pub stored_and_recorded :
      (h : Holder) (chunk : Text) (content : Bytes) (w : W)
      → After (IsWitness (S h chunk content)) (store_and_record setup net token chunk content h w)
  unfolding store_and_record
  stored_and_recorded h chunk content w =
      After-choice (IsWitness (S h chunk content)) (is_missing h.device_id) (pure false)
        (λ v.
          and_then (holder_store net h.device_id h.connection_address chunk content token v)
            (recorded net token chunk h))
        w (λ e. ground arith)
        (After-and_then (IsWitness (S h chunk content)) (IsWitness (S h chunk content))
          (holder_store net h.device_id h.connection_address chunk content token w)
          (recorded net token chunk h) (stored_by h chunk content w)
          (λ b v kept. recorded_kept h chunk content b v kept))

  -- Every holder has taken by `v` what it has taken by `w`.
  abbrev pub IsLater : W → W → Type 0
  IsLater w v =
      (h : Holder) (chunk : Text) (content : Bytes) → S h chunk content w → S h chunk content v

  -- That many different devices have taken the content as the chunk, none of them among the candidates.
  abbrev pub IsBackedBeside : List Holder → Text → Bytes → ℕ → W → Type 0
  IsBackedBeside candidates chunk content n w =
      (hs : List Holder) × (length hs ≡ n)
      × IsUnique device_of hs
      × All (λ h. S h chunk content w) hs
      × All (λ y. find_row device_of y.device_id hs ≡ none) candidates

  abbrev pub IsBacked : Text → Bytes → ℕ → W → Type 0
  IsBacked chunk content n w =
      (hs : List Holder) × (length hs ≡ n)
      × IsUnique device_of hs
      × All (λ h. S h chunk content w) hs

  pub IsBackedBeside-later :
      (candidates : List Holder) (chunk : Text) (content : Bytes) (n : ℕ) (w v : W)
      → IsLater w v
      → IsBackedBeside candidates chunk content n w
      → IsBackedBeside candidates chunk content n v
  IsBackedBeside-later candidates chunk content n w v later (hs, size, apart, kept, beside) =
      (hs, size, apart, all_later hs kept, beside)
    where
      all_later :
          (hs : List Holder) → All (λ h. S h chunk content w) hs → All (λ h. S h chunk content v) hs
      all_later [] kept = tt
      all_later (h ∷ hs) (here, there) = (later h chunk content here, all_later hs there)

  pub IsBacked-later :
      (chunk : Text) (content : Bytes) (n : ℕ) (w v : W)
      → IsLater w v
      → IsBacked chunk content n w
      → IsBacked chunk content n v
  IsBacked-later chunk content n w v later (hs, size, apart, kept) =
      let (hs', size', apart', kept', beside) =
        IsBackedBeside-later [] chunk content n w v later (hs, size, apart, kept, tt) in
      (hs', size', apart', kept')

  still_beside :
      (x : Holder) (hs candidates : List Holder)
      → find_row device_of x.device_id candidates ≡ none
      → All (λ y. find_row device_of y.device_id hs ≡ none) candidates
      → All (λ y. find_row device_of y.device_id (x ∷ hs) ≡ none) candidates
  unfolding find_row
  still_beside x hs [] apart beside = tt
  still_beside x hs (y ∷ candidates) apart (here, there) = (
    ground (arith, here, eq_iff y.device_id x.device_id, eq_iff x.device_id y.device_id),
    still_beside x hs candidates (ground arith) there,
  )

  -- The first candidate has had its turn.
  pub IsBackedBeside-next :
      (x : Holder) (candidates : List Holder) (chunk : Text) (content : Bytes) (placed : ℕ)
      (added : Bool) (w : W)
      → IsUnique device_of (x ∷ candidates)
      → IsWitness (S x chunk content) added w
      → IsBackedBeside (x ∷ candidates) chunk content placed w
      → IsBackedBeside candidates chunk content (if added then placed + 1 else placed) w
  IsBackedBeside-next x candidates chunk content placed true w (apart, rest) h
        (hs, size, unique, kept, (fresh, beside)) =
      (
        x ∷ hs,
        omega arith,
        (fresh, unique),
        (h refl, kept),
        still_beside x hs candidates apart beside,
      )
  IsBackedBeside-next x candidates chunk content placed false w apart h
        (hs, size, unique, kept, (fresh, beside)) =
      (hs, size, unique, kept, beside)

  none_beside :
      (holders : List Holder) → All (λ y. find_row device_of y.device_id [] ≡ none) holders
  unfolding find_row
  none_beside [] = tt
  none_beside (h ∷ holders) = (refl, none_beside holders)

  pub IsBackedBeside-start :
      (candidates : List Holder) (chunk : Text) (content : Bytes) (w : W)
      → IsBackedBeside candidates chunk content 0 w
  IsBackedBeside-start candidates chunk content w = ([], refl, tt, tt, none_beside candidates)

  placement_listed :
      (outcome : Reply (List Holder) × W)
      → ((holders : List Holder) → outcome.0 ≡ reply 200 holders → IsUnique device_of holders)
      → After
          (λ hs v. IsUnique device_of hs)
          (and_then (answered outcome) (λ answer. pure (listed answer)))
  placement_listed (lost, w) apart = tt
  placement_listed (reply status holders, w) apart = elim (Bool-cases (status == 200)) [
    | inl fine ↦
        rw fine (apart holders (ap (λ n. reply n holders) (ground (arith, eq_iff status 200))))
    | inr bad ↦ rw bad tt
  ]

  pub placement-IsUnique :
      (count size : ℕ) (exclude : List Text) (w : W)
      → After (λ hs v. IsUnique device_of hs) (placement net count token size exclude w)
  unfolding placement
  placement-IsUnique count size exclude w =
      placement_listed (net.post_placement token size count exclude w)
        (λ holders e. keeping.places_apart token size count exclude holders w e)

  -- One candidate's turn.
  pub turn :
      (x : Holder) (candidates : List Holder) (chunk : Text) (content : Bytes) (placed : ℕ) (w : W)
      → IsBackedBeside (x ∷ candidates) chunk content placed w
      → After
          (λ added v.
            IsWitness (S x chunk content) added v
            × IsBackedBeside (x ∷ candidates) chunk content placed v)
          (store_and_record setup net token chunk content x w)
  turn x candidates chunk content placed w h =
      let outcome = store_and_record setup net token chunk content x w in
      After-both (IsWitness (S x chunk content))
        (λ added v. IsBackedBeside (x ∷ candidates) chunk content placed v) outcome
        (stored_and_recorded x chunk content w)
        (After-kept (IsBackedBeside (x ∷ candidates) chunk content placed) outcome (
          IsBackedBeside-later (x ∷ candidates) chunk content placed w outcome.1
            (λ y c b k.
              keeps-store_and_record setup net token (S y c b) (keeping.is_steady y c b) chunk
                content x w k)
            h))
