-- ===== src/P2p/Replicas.antt =====
-- Chunks that are kept for other users: what is stored is fetched by its owner, and by nobody else.
use stardustfs.Prelude.{
  ℕ, Text, Bytes, Bool, true, false, Option, none, some, [], ◌≡◌, ◌⊎◌, inl, inr, refl, arith, sym,
  ◌∙◌, ap, subst, ◌==◌, nat_eq, text_eq, ok, err, Result, Bool-cases, Option-cases,
  permission_error, value_error, quota_exceeded, if◌then◌else◌, ltb, length,
}
use stardustfs.Parity
use stardustfs.Parity.{ParityStore, is_valid_chunk_id, owner_of}
use stardustfs.Parity.Access.{fetch-store}
use stardustfs.P2p.{
  Node, Request, Response, refused, file_content, bytes_written, Outcome, replica_store,
  replica_fetch, max_write_size,
}
use stardustfs.P2p.Handlers.{
  Auth, Verified, Verdict, reject, accept, verify_token, requester_of, parse_and_verify_any_user,
  answer, op_replica_store, op_replica_fetch, handle_replica, run_replica_op, stored_status,
  with_parity, json,
}

stored_status-ok :
    (size written : ℕ) (r : Result (Unit {0}))
    → stored_status size r ≡ ok (200, bytes_written written)
    → r ≡ ok tt
stored_status-ok size written (ok u) h = refl
stored_status-ok size written (err value_error) h = ground arith
stored_status-ok size written (err permission_error) h = ground arith
stored_status-ok size written (err quota_exceeded) h = ground arith
stored_status-ok size written (err e) h = ground arith

stored_outcome :
    (big : Bool) (r : Result Response) (written : ℕ) (n n' m : Node)
    → if◌then◌else◌ {A = Outcome} big (ok (413, refused), n) (r, m)
      ≡ (ok (200, bytes_written written), n')
    → (r ≡ ok (200, bytes_written written)) × (m ≡ n')
stored_outcome true r written n n' m h = ground arith
stored_outcome false r written n n' m h = (ap (λ o. o.0) h, ap (λ o. o.1) h)

fetch_stored :
    (body : Request) (user : Text) (hosted : Option ParityStore) (sent : Option Bytes) (n n' : Node)
    (content : Bytes) (written : ℕ)
    → sent ≡ some content
    → op_replica_store (record body { content = sent }) user (record n { parity_store = hosted })
      ≡ (ok (200, bytes_written written), n')
    → op_replica_fetch body user n' ≡ (ok (200, file_content content), n')
unfolding op_replica_store op_replica_fetch
fetch_stored body user none sent n n' content written e done = ground arith
fetch_stored body user (some p) none n n' content written e done = ground arith
fetch_stored body user (some p) (some b) n n' content written e done =
    let (r, p') = Parity.store body.chunk_id user b p in
    let (status, after) =
      stored_outcome (ltb max_write_size (length b)) (stored_status (length b) r) written
        (record n { parity_store = some p }) n' (with_parity p' n) done in
    let kept = fetch-store body.chunk_id user b p (stored_status-ok (length b) written r status) in
    let same : b ≡ content = ground arith in
    subst (λ m. op_replica_fetch body user m ≡ (ok (200, file_content content), m)) after
      (rw (kept, same) refl)

requester_of-cases :
    (body : Request) (verdict : Verdict Verified)
    → ((status : ℕ) × (requester_of body verdict ≡ reject status))
      ⊎ ((user : Text) × (requester_of body verdict ≡ accept (body, user)))
requester_of-cases body (reject status) = inl (status, refl)
requester_of-cases body (accept v) = elim (Option-cases v.user_id) [
  | inl unnamed ↦ inl (401, ground arith)
  | inr (user, named) ↦ elim (Bool-cases (user == [])) [
    | inl empty ↦ inl (401, ground arith)
    | inr given ↦ inr (user, ground arith)
  ]
]

-- A request that the check of the requester lets through is run as it came.
parse_and_verify_any_user-cases :
    (auth : Auth) (local_user : Option Text) (body : Request)
    → ((status : ℕ) × (parse_and_verify_any_user auth local_user (json body) ≡ reject status))
      ⊎ ((user : Text) × (parse_and_verify_any_user auth local_user (json body)
            ≡ accept (body, user)))
unfolding parse_and_verify_any_user
parse_and_verify_any_user-cases auth local_user body = elim (Bool-cases (body.auth_token == [])) [
  | inl missing ↦ inl (401, rw (missing, parse_and_verify_any_user) refl)
  | inr given ↦
      elim (requester_of-cases body (verify_token auth local_user false body.auth_token)) [
        | inl (status, e) ↦ inl (status, rw (given, parse_and_verify_any_user) e)
        | inr (user, e) ↦ inr (user, rw (given, parse_and_verify_any_user) e)
      ]
]

-- The check does not ask who the local user is.
any_local_user :
    (auth : Auth) (u v : Option Text) (body : Request)
    → parse_and_verify_any_user auth u (json body) ≡ parse_and_verify_any_user auth v (json body)
unfolding parse_and_verify_any_user verify_token
any_local_user auth u v body = refl

answer_written :
    (outcome : Outcome) (written : ℕ) (n' : Node)
    → answer outcome ≡ ((200, bytes_written written), n')
    → outcome ≡ (ok (200, bytes_written written), n')
answer_written (err e, n) written n' h = ground arith
answer_written (ok response, n) written n' h = ground arith

-- What a requester stores it fetches: if a store request is answered with 200, the same requester's
-- request for the chunk gets the content, and changes nothing.
pub replica_round_trip :
    (auth : Auth) (body : Request) (n n' : Node) (content : Bytes) (written : ℕ)
    → body.content ≡ some content
    → handle_replica auth replica_store (json body) n ≡ ((200, bytes_written written), n')
    → handle_replica auth replica_fetch (json body) n' ≡ ((200, file_content content), n')
unfolding handle_replica run_replica_op
replica_round_trip auth body n n' content written sent done =
    elim (parse_and_verify_any_user-cases auth n.user_id body) [
      | inl (status, e) ↦
          let step : handle_replica auth replica_store (json body) n ≡ ((status, refused), n) =
            rw (e, handle_replica) refl in
          ground arith
      | inr (user, e) ↦
          let step : handle_replica auth replica_store (json body) n
              ≡ answer (op_replica_store body user n) =
            rw (e, handle_replica) refl in
          let stored = answer_written (op_replica_store body user n) written n' (sym step ∙ done) in
          let fetched =
            fetch_stored body user n.parity_store body.content n n' content written sent stored in
          rw
            (
              handle_replica,
              any_local_user auth n'.user_id n.user_id body,
              e,
              run_replica_op,
              fetched,
            )
            refl
    ]
