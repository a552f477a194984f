-- ===== src/Tests/Replicas.antt =====
-- Tests of the replication over small networks.
use stardustfs.Prelude.{
  Bool, any, ◌&&◌, inl, inr, none, Text, Bytes, true, false, some, List, [], ◌∷◌, codes, ok, err,
  network_error, ◌≡◌, refl, arith, ◌==◌, text_eq, text_beq, option_beq, eq_refl, if◌then◌else◌, ap,
  subst,
}
use mathlib.Core.List.{Permᴰ}
use stardustfs.Network.{reply}
use stardustfs.Chunker.{split, chunks_at, range_from}
use stardustfs.Decimal.{decimal, decimal_from}
use stardustfs.Replication.{
  Setup, ReplicationResult, HealOutcome, chunk_id_of, store_and_record, place_all, replicate_chunk,
  replicate_each, replicate_chunks,
}
use stardustfs.Replication.Transfer.{
  Net, Holder, ChunkInfo, token_of, register_chunk, placement, record_replica, holder_store,
}
use stardustfs.Replication.Recovery.{IsReachable}
use stardustfs.Replication.Files.{Engine, recover}
use stardustfs.Replication.Restoring.{read_file-recover}
use stardustfs.Table.{find_row, IsUnique}
use stardustfs.Metadata.{lookup, update}
use stardustfs.Source
use stardustfs.Source.{write_through, put_file}
use stardustfs.Jbod.{Jbod}
use stardustfs.Jbod.Files.{read_file, write_file, overwrite}
use stardustfs.Tests.{a_txt, env, jbod, same, opened}
use stardustfs.Replication.Reach.{IsHonest, directly}
use stardustfs.Replication.Holding.{IsKeeping, device_of}
use stardustfs.Replication.Soundness.{AreTaken, replicate_chunks_sound}

abbrev holder : Holder
holder = record { device_id = codes "h"; connection_address = codes "h:1"; is_offline = false }

abbrev small : Setup
small = record {
  digest = λ t. t;
  user_id = codes "u";
  min_replicas = 1;
  device_id = some (codes "d");
}

abbrev first_info : ChunkInfo
first_info = record { chunk_id = codes "a"; idx = 0 }

abbrev second_info : ChunkInfo
second_info = record { chunk_id = codes "b"; idx = 1 }

-- A network whose world is the list of the chunks that the one holder Keeps; it serves two chunks.
abbrev network : Net (List (Text × Bytes))
network = record {
  get_valid_token = λ w. (ok (codes "t"), w);
  post_chunk = λ t c f i n w. (reply 201 tt, w);
  post_placement = λ t n k ds w. (reply 200 (holder ∷ []), w);
  post_replica = λ t c d w. (reply 200 tt, w);
  get_chunks = λ t f w. (reply 200 (second_info ∷ first_info ∷ []), w);
  get_replicas = λ t c w. (reply 200 (holder ∷ []), w);
  direct_store = λ a c b t w. (reply 200 tt, (c, b) ∷ w);
  direct_fetch = λ a c t w. (reply 200 (some (if c == codes "a" then 1 ∷ 2 ∷ [] else 3 ∷ [])), w);
  relay_store = λ d c b w. (err network_error, w);
  relay_fetch = λ d c w. (err network_error, w);
}

abbrev held : ChunkInfo → Bytes
held info = if info.chunk_id == codes "a" then 1 ∷ 2 ∷ [] else 3 ∷ []

-- A holder that answers no fetch stands before the other.
abbrev silent : Holder
silent = record { device_id = codes "x"; connection_address = codes "x:1"; is_offline = false }

abbrev two_holders : Net (List (Text × Bytes))
two_holders = record network {
  get_replicas = λ t c w. (reply 200 (silent ∷ holder ∷ []), w);
  direct_fetch = λ a c t w.
      if a == codes "h:1"
      then (reply 200 (some (if c == codes "a" then 1 ∷ 2 ∷ [] else 3 ∷ [])), w)
      else (reply 404 none, w);
}

silent-IsHonest :
    (info : ChunkInfo) → IsHonest two_holders (codes "t") info.chunk_id (held info) silent
unfolding text_beq
silent-IsHonest info = (λ w b e. ground arith, λ w b e. ground arith)

served : (info : ChunkInfo) → IsReachable small two_holders (codes "t") held info
unfolding text_beq
served info = (
  silent ∷ holder ∷ [],
  (λ w. (w, refl)),
  inr (silent-IsHonest info, inl (directly refl (λ e. ground arith) (λ w. (w, refl)))),
)

abbrev engine : Engine
engine = record { encrypt = same; decrypt = opened }

read_file-recover_example :
    (w' : List (Text × Bytes)) × (j' : Jbod) × (recover small two_holders 2 env
        (some engine)
        a_txt
        jbod
        []
      ≡ (ok 3, j', w'))
    × ((read_file same opened env a_txt j').0 ≡ ok (1 ∷ 2 ∷ 3 ∷ []))
unfolding split chunks_at range_from text_beq option_beq write_file overwrite find_row lookup
    Source.write write_through put_file update
read_file-recover_example =
    read_file-recover small two_holders env env engine (codes "t") a_txt (1 ∷ 2 ∷ 3 ∷ []) held
      (second_info ∷ first_info ∷ []) 2 ((0, 1 ∷ 2 ∷ []) ∷ (1, 3 ∷ []) ∷ []) jbod [] [] [] refl refl
      (λ anonymous m known. ground arith) (refl, tt) (omega arith) (omega arith) refl
      (Permᴰ.swap refl refl) refl refl (served second_info, (served first_info, tt)) refl

abbrev is_taken : Text → Bytes → List (Text × Bytes) → Bool
is_taken c b w = any (λ p. p.0 == c && p.1 == b) w

-- The one holder has taken the bytes as the chunk.
abbrev Keeps : Holder → Text → Bytes → List (Text × Bytes) → Type 0
Keeps h c b w = is_taken c b w ≡ true

network-IsKeeping : IsKeeping (List (Text × Bytes)) network Keeps
unfolding find_row
network-IsKeeping = record {
  is_steady = λ h c b. record {
    of_token = λ w k. k;
    of_chunk = λ t d f i n w k. k;
    of_placement = λ t n m ds w k. k;
    of_replica = λ t d e w k. k;
    of_direct = λ a d t b' w k. ground arith;
    of_relay = λ d e b w k. k;
  };
  by_direct = λ h c t b w w' e.
      subst (λ v. is_taken c b v ≡ true) (ap (λ o. o.1) e) (ground (arith, eq_refl c, eq_refl b));
  by_relay = λ h c b w w' e. ground arith;
  places_apart = λ t n k ds hs w e.
      let same : holder ∷ [] ≡ hs = ground arith in subst (IsUnique device_of) same (refl, tt);
}

abbrev one_replica : ReplicationResult
one_replica = record { is_replicated = true; replicas_per_chunk = 1 ∷ [] }

replicate_chunks_sound_example :
    AreTaken small network Keeps network-IsKeeping
      (codes "f")
      ((0, 7 ∷ []) ∷ [])
      ((codes "f:0", 7 ∷ []) ∷ [])
unfolding replicate_chunks replicate_each replicate_chunk place_all store_and_record token_of
    register_chunk placement record_replica holder_store chunk_id_of decimal decimal_from text_beq
replicate_chunks_sound_example =
    replicate_chunks_sound small network Keeps network-IsKeeping (codes "f") ((0, 7 ∷ []) ∷ [])
      one_replica [] ((codes "f:0", 7 ∷ []) ∷ []) refl refl

abbrev healed : HealOutcome
healed = record { chunk_id = codes "a"; added = 1; healthy = true }

abbrev two_wanted : Setup
two_wanted = record small { min_replicas = 2 }

abbrev after_heal : List (Text × Bytes)
after_heal = (codes "a", 1 ∷ 2 ∷ []) ∷ []
