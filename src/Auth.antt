-- ===== src/Auth.antt =====
-- stardustlib/auth_client.py and the file of stardustlib/credential_store.py: the class AuthClient with
-- the store that it shares with other processes. The state is the client with the content of the
-- store's file, if it has a store; `decode` reads `exp` and `sub` from the payload of a JWT, where that
-- parses. A body of the server names the two tokens.
pub mod Tokens
use stardustfs.Prelude.{
  ℕ, Text, Bool, true, false, Option, none, some, ◌+◌, ◌==◌, nat_eq, if◌then◌else◌, ◌&&◌, Result,
  ok, err, authentication_error, network_error, credential_error, ltb, leb, is_some,
}
use stardustfs.Network.{Reply, lost, reply}

-- The JSON object of the credential file.
pub record Credentials : Type 0 where
  pub access_token : Option Text
  pub refresh_token : Option Text
  pub access_expires_at : ℕ
  pub user_id : Option Text
  pub email : Option Text
  pub key_password : Option Text

pub data StoreFile : Type 0 where
  absent damaged : StoreFile
  saved : Credentials → StoreFile

pub record Client : Type 0 where
  pub access_token : Option Text
  pub refresh_token_value : Option Text
  pub token_expires_at : ℕ
  pub offline : Bool
  pub user_id : Option Text
  pub email : Option Text
  pub key_password : Option Text

abbrev pub State : Type 0
State = Client × Option StoreFile

-- `CredentialStore.load`
unfoldable pub load : StoreFile → Result (Option Credentials)
load absent = ok none
load damaged = err credential_error
load (saved c) = ok (some c)

abbrev pub credentials_of : Client → Credentials
credentials_of c = record {
  access_token = c.access_token;
  refresh_token = c.refresh_token_value;
  access_expires_at = c.token_expires_at;
  user_id = c.user_id;
  email = c.email;
  key_password = c.key_password;
}

unfoldable pub persist : State → State
persist (c, none) = (c, none)
persist (c, some file) = (c, some (saved (credentials_of c)))

abbrev pub with_payload : Option (ℕ × Option Text) → Client → Client
with_payload none c = record c { token_expires_at = 0 }
with_payload (some (exp, sub)) c = record c { token_expires_at = exp; user_id = sub }

unfoldable pub store_tokens : (Text → Option (ℕ × Option Text)) → Text → Text → State → State
unfolding persist
store_tokens decode access refresh (c, file) = persist (
  with_payload (decode access)
      (record c { access_token = some access; refresh_token_value = some refresh }),
  file,
)

unfoldable pub clear_tokens : Client → Client
clear_tokens c = record c {
  access_token = none;
  refresh_token_value = none;
  token_expires_at = 0;
  user_id = none;
}

abbrev pub set_offline : Bool → State → State
set_offline b (c, file) = (record c { offline = b }, file)

unfoldable pub set_key_password : Option Text → State → State
unfolding persist
set_key_password password (c, file) = persist (record c { key_password = password }, file)

-- The status codes that `raise_for_status` lets through.
abbrev pub is_success : ℕ → Bool
is_success status = leb 200 status && ltb status 300

-- `login`, with the answer to its request.
unfoldable pub login :
    (Text → Option (ℕ × Option Text))
    → Text
    → Reply (Text × Text)
    → State
    → Result (Unit {0}) × State
unfolding store_tokens
login decode address lost st = (err authentication_error, set_offline true st)
login decode address (reply status (access, refresh)) (c, file) =
    if status == 401
    then (err authentication_error, (c, file))
    else if leb 500 status
    then (err authentication_error, set_offline true (c, file))
    else if is_success status
    then (
      ok tt,
      set_offline false
          (store_tokens decode access refresh (record c { email = some address }, file)),
    )
    else (err network_error, (c, file))

-- What the answer to a refresh does.
unfoldable pub refreshed :
    (Text → Option (ℕ × Option Text)) → Reply (Text × Text) → State → Result (Unit {0}) × State
unfolding store_tokens clear_tokens persist
refreshed decode lost st = (ok tt, set_offline true st)
refreshed decode (reply status (access, refresh)) (c, file) =
    if status == 401
    then (err authentication_error, persist (clear_tokens c, file))
    else if leb 500 status
    then (ok tt, (c, file))
    else if is_success status
    then (ok tt, set_offline false (store_tokens decode access refresh (c, file)))
    else (err network_error, (c, file))

-- `server` answers a refresh token.
unfoldable pub refresh_token :
    (Text → Option (ℕ × Option Text))
    → (Text → Reply (Text × Text))
    → State
    → Result (Unit {0}) × State
unfolding refreshed
refresh_token decode server (c, file) = elim c.refresh_token_value [
  | none ↦ (err authentication_error, (c, file))
  | some token ↦ refreshed decode (server token) (c, file)
]

abbrev pub with_credentials : Credentials → Client → Client
with_credentials d c = record c {
  access_token = d.access_token;
  refresh_token_value = d.refresh_token;
  token_expires_at = d.access_expires_at;
  user_id = d.user_id;
}

-- `_reload_tokens_from_store`
unfoldable pub reload_tokens : State → State
reload_tokens (c, none) = (c, none)
reload_tokens (c, some absent) = (c, some absent)
reload_tokens (c, some damaged) = (c, some damaged)
reload_tokens (c, some (saved d)) = (with_credentials d c, some (saved d))

unfoldable pub load_from_store : State → Bool × State
load_from_store (c, none) = (false, (c, none))
load_from_store (c, some absent) = (false, (c, some absent))
load_from_store (c, some damaged) = (false, (c, some damaged))
load_from_store (c, some (saved d)) = (
  is_some d.access_token,
  (
    record (with_credentials d c) { email = d.email; key_password = d.key_password },
    some (saved d),
  ),
)

-- `time.time() < self._token_expires_at - 60`
abbrev pub is_fresh : ℕ → Client → Bool
is_fresh now c = ltb (now + 60) c.token_expires_at

-- `locks` tells whether the lock is had before the timeout.
unfoldable pub refresh_with_lock :
    (Text → Option (ℕ × Option Text))
    → (Text → Reply (Text × Text))
    → Bool
    → ℕ
    → State
    → Result (Unit {0}) × State
unfolding refresh_token reload_tokens
refresh_with_lock decode server locks now (c, none) = refresh_token decode server (c, none)
refresh_with_lock decode server false now (c, some file) = (ok tt, (c, some file))
refresh_with_lock decode server true now (c, some file) =
    let (c', file') = reload_tokens (c, some file) in
    if is_some c'.access_token && is_fresh now c'
    then (ok tt, (c', file'))
    else refresh_token decode server (c', file')

abbrev pub token_after : Result (Unit {0}) × State → Result Text × State
token_after (err e, st) = (err e, st)
token_after (ok u, (c, file)) =
    (elim c.access_token [ none ↦ err authentication_error | some t ↦ ok t ], (c, file))

unfoldable pub get_valid_token :
    (Text → Option (ℕ × Option Text))
    → (Text → Reply (Text × Text))
    → Bool
    → ℕ
    → State
    → Result Text × State
unfolding refresh_with_lock
get_valid_token decode server locks now (c, file) = elim c.access_token [
  | none ↦ (err authentication_error, (c, file))
  | some token ↦
      if is_fresh now c
      then (ok token, (c, file))
      else token_after (refresh_with_lock decode server locks now (c, file))
]
