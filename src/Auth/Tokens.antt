-- ===== src/Auth/Tokens.antt =====
-- Two processes with one credential store.
use stardustfs.Prelude.{
  ℕ, Text, true, false, Option, some, ◌+◌, nat_eq, ◌≡◌, ◌<◌, arith, ok, err, authentication_error,
}
use stardustfs.Network.{Reply, reply}
use stardustfs.Auth.{
  Client, StoreFile, persist, store_tokens, is_success, refreshed, refresh_token, reload_tokens,
  is_fresh, refresh_with_lock, get_valid_token, clear_tokens,
}

module _ (decode : Text → Option (ℕ × Option Text)) (server other : Text → Reply (Text × Text))
    (now : ℕ) (c b : Client) (file : StoreFile) (old stale : Text) where
  -- A refresh that one process makes is what the next process gets: if the server answers the refresh of
  -- a client with a token of more than a minute, every other client of the store whose own token is about
  -- to end gets that token, whatever the server would answer it.
  pub get_valid_token-refresh_token :
      (status exp : ℕ) (access refresh : Text) (sub : Option Text)
      → c.refresh_token_value ≡ some old
      → server old ≡ reply status (access, refresh)
      → is_success status ≡ true
      → decode access ≡ some (exp, sub)
      → now + 60 < exp
      → b.access_token ≡ some stale
      → is_fresh now b ≡ false
      → (get_valid_token decode other true now
          (b, (refresh_token decode server (c, some file)).1.1)).0
        ≡ ok access
  unfolding get_valid_token refresh_with_lock reload_tokens refresh_token refreshed store_tokens
      persist
  get_valid_token-refresh_token status exp access refresh sub has answer success parsed long held
        ends =
      ground arith

  -- A refresh token that the server rejects ends the session of every client of the store: the next
  -- client whose own token is about to end is refused, whatever the server would answer it.
  pub get_valid_token_rejected :
      (body : Text × Text)
      → c.refresh_token_value ≡ some old
      → server old ≡ reply 401 body
      → b.access_token ≡ some stale
      → is_fresh now b ≡ false
      → (get_valid_token decode other true now
          (b, (refresh_token decode server (c, some file)).1.1)).0
        ≡ err authentication_error
  unfolding get_valid_token refresh_with_lock reload_tokens refresh_token refreshed clear_tokens
      persist
  get_valid_token_rejected body has answer held ends = ground arith
