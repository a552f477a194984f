-- ===== src/Replication/Restoring.antt =====
-- A file that is recovered is read back.
use stardustfs.Prelude.{
  ℕ, Text, Bytes, some, List, ◌≡◌, ◌<◌, refl, arith, ok, err, Result, length, All,
}
use mathlib.Core.List.{Permᴰ}
use stardustfs.Table.{IsUnique}
use stardustfs.Source.{fine}
use stardustfs.Jbod.{Jbod, Env, id_of}
use stardustfs.Jbod.Files.{read_file, write_file}
use stardustfs.Jbod.RoundTrip.{OwnsIt, read_file-write_file}
use stardustfs.Network.{reply}
use stardustfs.Chunker.{split}
use stardustfs.Replication.{Setup, file_ref_of}
use stardustfs.Replication.Transfer.{Net, ChunkInfo}
use stardustfs.Replication.Recovery.{IsReachable, listed_parts, recover_chunks-split}
use stardustfs.Replication.Files.{Engine, recover, written}

written_ok :
    {W : Type 0} (size : ℕ) (outcome : Result (Unit {0}) × Jbod) (w : W)
    → outcome.0 ≡ ok tt
    → written size outcome w ≡ (ok size, outcome.1, w)
written_ok size (err e, j) w done = ground arith
written_ok size (ok u, j) w done = refl

module _ {W : Type 0} (setup : Setup) (net : Net W) (env env' : Env) (engine : Engine) where
  -- Let the engine decrypt what it encrypts, the server list the chunks of an encrypted content, in any
  -- order, and the holders of each, and in every such list let a holder give the chunk, directly or by the
  -- relay, while those before it never answer with other bytes. Then a recovery whose write returns tells
  -- the content's length, and the next read of the path returns the content. A device without an id does
  -- not recover over a file that another device owns.
  pub read_file-recover :
      (token path : Text) (content : Bytes) (held : ChunkInfo → Bytes) (infos : List ChunkInfo)
      (size : ℕ) (parts : List (ℕ × Bytes)) (j : Jbod) (w w₁ w₂ : W)
      → engine.decrypt (engine.encrypt content) ≡ ok content
      → env'.read_fault ≡ fine
      → OwnsIt path j
      → IsUnique id_of j.sources
      → 0 < size
      → 0 < length (engine.encrypt content)
      → split (engine.encrypt content) size ≡ ok parts
      → Permᴰ parts (listed_parts held infos)
      → net.get_valid_token w ≡ (ok token, w₁)
      → net.get_chunks token (file_ref_of setup path) w₁ ≡ (reply 200 infos, w₂)
      → All (IsReachable setup net token held) infos
      → (write_file engine.encrypt engine.decrypt env path content j).0 ≡ ok tt
      → (w' : W) × (j' : Jbod) × (recover setup net size env (some engine) path j w
          ≡ (ok (length content), j', w'))
        × ((read_file engine.encrypt engine.decrypt env' path j').0 ≡ ok content)
  unfolding recover
  read_file-recover token path content held infos size parts j w w₁ w₂ inverse quiet owns unique
        positive nonempty cut order tokens chunks reach done =
      let (w', recovered) =
        recover_chunks-split setup net token (file_ref_of setup path) held infos
          (engine.encrypt content) size parts w w₁ w₂ positive nonempty cut order tokens chunks
          reach in
      let j' = (write_file engine.encrypt engine.decrypt env path content j).1 in
      (
        w',
        j',
        rw (recover, recovered, inverse)
            (written_ok (length content)
              (write_file engine.encrypt engine.decrypt env path content j) w' done),
        read_file-write_file engine.encrypt engine.decrypt env env' path content j inverse quiet
            owns unique done,
      )
