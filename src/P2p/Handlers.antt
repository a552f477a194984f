-- ===== src/P2p/Handlers.antt =====
-- stardustlib/p2p_server.py: the authorisation of requests, the handlers, the operations on replicas and
-- `dispatch`. An exception that no handler catches is the server's own 500. The central server's answers
-- have the fields that it documents, and its exceptions are those that `_verify_token` catches.
use stardustfs.Prelude.{
  ℕ, Text, Bytes, Bool, true, false, Option, none, some, [], ◌==◌, nat_eq, text_eq, option_text_eq,
  if◌then◌else◌, ◌&&◌, not, Result, ok, err, value_error, permission_error, file_not_found,
  quota_exceeded, length, ltb, codes,
}
use stardustfs.Network.{Reply, lost, reply}
use stardustfs.Parity
use stardustfs.Parity.{ParityStore}
use stardustfs.P2p.{
  Node, Request, refused, done, file_content, bytes_written, Response, System, Outcome,
  max_write_size, run_op, Op, read, write, delete, list, exists, mkdir, rmdir, space_of, ReplicaOp,
  replica_store, replica_fetch, replica_delete,
}

-- The body of a token's verification, and of a share token's.
pub record Verified : Type 0 where
  pub valid : Bool
  pub user_id : Option Text

pub record Shared : Type 0 where
  pub valid : Bool
  pub names_device : Bool

pub record Auth : Type 0 where
  pub verify : Text → Reply Verified
  pub verify_share : Text → Text → Reply Shared

-- Either the status of a refusal, or what the verification gives.
pub data Verdict (A : Type 0) : Type 0 where
  reject : ℕ → Verdict A
  accept : A → Verdict A

-- What `request.json()` makes of a body: it raises, or gives a value that is no object, or an object.
pub data Incoming : Type 0 where
  no_json no_object : Incoming
  json : Request → Incoming

unfoldable pub verify_token : Auth → Option Text → Bool → Text → Verdict Verified
verify_token auth local_user same_user token = elim (auth.verify token) [
  | lost ↦ reject 503
  | reply status body ↦
      if not (status == 200)
      then reject 401
      else if not body.valid
      then reject 401
      else if same_user && not (body.user_id == local_user)
      then reject 403
      else accept body
]

unfoldable pub verify_share_token : Auth → Text → Text → Verdict (Unit {0})
verify_share_token auth token path = elim (auth.verify_share token path) [
  | lost ↦ reject 503
  | reply status body ↦
      if not (status == 200)
      then reject 401
      else if body.valid
      then accept tt
      else if body.names_device
      then reject 403
      else reject 401
]

abbrev pub as_body : Request → Verdict Verified → Verdict Request
as_body body (reject status) = reject status
as_body body (accept v) = accept body

abbrev pub as_shared_body : Request → Verdict (Unit {0}) → Verdict Request
as_shared_body body (reject status) = reject status
as_shared_body body (accept u) = accept body

unfoldable pub parse_and_verify : Auth → Option Text → Bool → Incoming → Verdict Request
unfolding verify_token verify_share_token
parse_and_verify auth local_user allow_share no_json = reject 400
parse_and_verify auth local_user allow_share no_object = reject 500
parse_and_verify auth local_user allow_share (json body) =
    if allow_share && not (body.share_token == [])
    then as_shared_body body (verify_share_token auth body.share_token body.physical_path)
    else if body.auth_token == []
    then reject 401
    else as_body body (verify_token auth local_user true body.auth_token)

abbrev pub requester_of : Request → Verdict Verified → Verdict (Request × Text)
requester_of body (reject status) = reject status
requester_of body (accept v) = elim v.user_id [
  | none ↦ reject 401
  | some user ↦ if user == [] then reject 401 else accept (body, user)
]

unfoldable pub parse_and_verify_any_user : Auth → Option Text → Incoming → Verdict (Request × Text)
unfolding verify_token
parse_and_verify_any_user auth local_user no_json = reject 400
parse_and_verify_any_user auth local_user no_object = reject 500
parse_and_verify_any_user auth local_user (json body) =
    if body.auth_token == []
    then reject 401
    else requester_of body (verify_token auth local_user false body.auth_token)

-- Only a read takes a share token.
abbrev pub allows_share : Op → Bool
allows_share read = true
allows_share _ = false

abbrev pub answer : Outcome → Response × Node
answer (err e, n) = ((500, refused), n)
answer (ok response, n) = (response, n)

unfoldable pub handle : Auth → System → Op → Incoming → Node → Response × Node
unfolding parse_and_verify
handle auth sys op request n = elim (parse_and_verify auth n.user_id (allows_share op) request) [
  | reject status ↦ ((status, refused), n)
  | accept body ↦ answer (run_op op sys body n)
]

abbrev pub with_parity : ParityStore → Node → Node
with_parity p n = record n { parity_store = some p }

abbrev pub stored_status : ℕ → Result (Unit {0}) → Result Response
stored_status size (ok u) = ok (200, bytes_written size)
stored_status size (err value_error) = ok (400, refused)
stored_status size (err permission_error) = ok (403, refused)
stored_status size (err quota_exceeded) = ok (507, refused)
stored_status size (err e) = err e

abbrev pub fetched_status : Result Bytes → Result Response
fetched_status (ok content) = ok (200, file_content content)
fetched_status (err value_error) = ok (400, refused)
fetched_status (err file_not_found) = ok (404, refused)
fetched_status (err permission_error) = ok (403, refused)
fetched_status (err e) = err e

abbrev pub deleted_status : Result (Unit {0}) → Result Response
deleted_status (ok u) = ok (200, done)
deleted_status (err value_error) = ok (400, refused)
deleted_status (err permission_error) = ok (403, refused)
deleted_status (err e) = err e

unfoldable pub op_replica_store : Request → Text → Node → Outcome
op_replica_store body requester n = elim n.parity_store [
  | none ↦ (ok (503, refused), n)
  | some p ↦ elim body.content [
    | none ↦ (ok (400, refused), n)
    | some content ↦
        if ltb max_write_size (length content)
        then (ok (413, refused), n)
        else let (r, p') = Parity.store body.chunk_id requester content p in
          (stored_status (length content) r, with_parity p' n)
  ]
]

unfoldable pub op_replica_fetch : Request → Text → Node → Outcome
op_replica_fetch body requester n = elim n.parity_store [
  | none ↦ (ok (503, refused), n)
  | some p ↦ (fetched_status (Parity.fetch body.chunk_id requester p), n)
]

unfoldable pub op_replica_delete : Request → Text → Node → Outcome
op_replica_delete body requester n = elim n.parity_store [
  | none ↦ (ok (503, refused), n)
  | some p ↦
      let (r, p') = Parity.delete body.chunk_id requester p in (deleted_status r, with_parity p' n)
]

unfoldable pub run_replica_op : ReplicaOp → Request → Text → Node → Outcome
unfolding op_replica_store op_replica_fetch op_replica_delete
run_replica_op replica_store = op_replica_store
run_replica_op replica_fetch = op_replica_fetch
run_replica_op replica_delete = op_replica_delete

unfoldable pub handle_replica : Auth → ReplicaOp → Incoming → Node → Response × Node
unfolding parse_and_verify_any_user run_replica_op
handle_replica auth op request n = elim (parse_and_verify_any_user auth n.user_id request) [
  | reject status ↦ ((status, refused), n)
  | accept (body, user) ↦ answer (run_replica_op op body user n)
]

-- The keys of `replica_map` and `op_map`.
unfoldable pub replica_op_of : Text → Option ReplicaOp
replica_op_of t =
    if t == codes "replica_store"
    then some replica_store
    else if t == codes "replica_fetch"
    then some replica_fetch
    else if t == codes "replica_delete"
    then some replica_delete
    else none

unfoldable pub op_of : Text → Option Op
op_of t =
    if t == codes "read"
    then some read
    else if t == codes "write"
    then some write
    else if t == codes "delete"
    then some delete
    else if t == codes "list"
    then some list
    else if t == codes "exists"
    then some exists
    else if t == codes "mkdir"
    then some mkdir
    else if t == codes "rmdir"
    then some rmdir
    else if t == codes "space"
    then some space_of
    else none

abbrev pub text_or_empty : Option Text → Text
text_or_empty none = []
text_or_empty (some t) = t

-- The relay's entry, which verifies no token: the requester of a replica is the own user.
unfoldable pub dispatch : System → Text → Request → Node → Response × Node
unfolding replica_op_of op_of run_replica_op
dispatch sys op payload n = elim (replica_op_of op) [
  | some replica ↦ answer (run_replica_op replica payload (text_or_empty n.user_id) n)
  | none ↦ elim (op_of op) [ none ↦ ((400, refused), n) | some o ↦ answer (run_op o sys payload n) ]
]
