-- ===== src/Sync/Keys.antt =====
-- stardustlib/sync_client.py: the upload and the download of the key's backup, with their attempts. The
-- central server is the argument `server`.
pub mod Backup
use stardustfs.Prelude.{
  ℕ, zero, suc, Text, Bytes, Bool, true, false, Option, none, some, ◌==◌, nat_eq, if◌then◌else◌,
  not, Result, ok, err, sync_error, key_not_found, leb,
}
use stardustfs.Network.{Reply, lost, reply, Run}

pub record KeyServer (W : Type 0) : Type 0 where
  pub get_valid_token : Run W Text
  pub put_key : Bytes → Text → W → Reply (Unit {0}) × W
  pub get_key : Text → W → Reply Bytes × W

abbrev pub max_key_retries : ℕ
max_key_retries = 3

unfoldable pub is_accepted : {A : Type 0} → Reply A → Bool
is_accepted lost = false
is_accepted (reply status a) = not (leb 400 status)

-- What an answer to the download ends with; none where the attempt is to be repeated.
unfoldable pub download_outcome : Reply Bytes → Option (Result Bytes)
download_outcome lost = none
download_outcome (reply status content) =
    if status == 404
    then some (err key_not_found)
    else if leb 400 status
    then none
    else some (ok content)

module _ {W : Type 0} (server : KeyServer W) where
  abbrev pub put_once : Bytes → Result Text × W → Reply (Unit {0}) × W
  put_once blob (err e, w) = (lost, w)
  put_once blob (ok token, w) = server.put_key blob token w

  abbrev pub get_once : Result Text × W → Reply Bytes × W
  get_once (err e, w) = (lost, w)
  get_once (ok token, w) = server.get_key token w

  abbrev pub after_put : Run W (Unit {0}) → Reply (Unit {0}) × W → Result (Unit {0}) × W
  after_put again (answer, w) = elim (is_accepted answer) [ true ↦ (ok tt, w) | false ↦ again w ]

  abbrev pub after_get : Run W Bytes → Reply Bytes × W → Result Bytes × W
  after_get again (answer, w) = elim (download_outcome answer) [ some r ↦ (r, w) | none ↦ again w ]

  -- With the number of attempts that are left.
  unfoldable pub upload_attempts : ℕ → Bytes → Run W (Unit {0})
  unfolding is_accepted
  upload_attempts zero blob w = (err sync_error, w)
  upload_attempts (suc left) blob w =
      after_put (upload_attempts left blob) (put_once blob (server.get_valid_token w))

  unfoldable pub upload_key : Bytes → Run W (Unit {0})
  unfolding upload_attempts
  upload_key = upload_attempts max_key_retries

  unfoldable pub download_attempts : ℕ → Run W Bytes
  unfolding download_outcome
  download_attempts zero w = (err sync_error, w)
  download_attempts (suc left) w =
      after_get (download_attempts left) (get_once (server.get_valid_token w))

  unfoldable pub download_key : Run W Bytes
  unfolding download_attempts
  download_key = download_attempts max_key_retries
