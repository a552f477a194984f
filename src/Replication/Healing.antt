-- ===== src/Replication/Healing.antt =====
-- What the heal of a chunk adds, and what it calls healthy.
use stardustfs.Prelude.{
  ℕ, Text, Bytes, List, ◌+◌, ◌-◌, ◌≡◌, ◌≤◌, ◌<◌, length, leb, filter, ◌⊎◌, All, not, ◌&&◌,
}
use stardustfs.Table.{IsUnique}
use stardustfs.Replication.{Setup, HealOutcome}
use stardustfs.Replication.Holding.{device_of, IsKeeping}
use stardustfs.Replication.Transfer.{Net, Holder, is_missing}

-- The holders that a heal counts: they are not offline and have an address.
abbrev pub reachable : List Holder → List Holder
reachable = filter (λ h. not h.is_offline && not (is_missing h.connection_address))

module _ {W : Type 0} (setup : Setup) (net : Net W) (token : Text)
    (S : Holder → Text → Bytes → W → Type 0) (keeping : IsKeeping W net S) where
  -- The number added is at most what was missing, and that many different devices took the same bytes as
  -- the chunk; the verdict fits the number of online holders.
  abbrev pub IsFitting : Text → ℕ → HealOutcome → W → Type 0
  IsFitting chunk online o v =
      (o.chunk_id ≡ chunk)
      × (o.added ≤ setup.min_replicas - online)
      × (o.healthy ≡ leb setup.min_replicas (online + o.added))
      × ((content : Bytes) × (hs : List Holder) × (length hs ≡ o.added)
          × IsUnique device_of hs
          × All (λ h. S h chunk content v) hs)

  abbrev IsHealed : Text → ℕ → W → HealOutcome → W → Type 0
  IsHealed chunk online w₁ o v =
      IsFitting chunk online o v × ((online < setup.min_replicas) ⊎ ((o.added ≡ 0) × (v ≡ w₁)))
