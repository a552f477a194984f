-- ===== src/P2p/Access.antt =====
-- Which requests reach an operation, and which paths reach a file.
use stardustfs.Prelude.{
  ℕ, Text, Bool, true, false, List, ◌∷◌, sym, Option, none, some, [], ◌≡◌, ◌≢◌, ◌⊎◌, inl, inr, refl,
  arith, ◌∙◌, ap, ◌==◌, nat_eq, text_eq, option_text_eq, eq_iff, eq_refl, ok, Result, Bool-cases,
  ◌&&◌, not,
}
use stardustfs.Network.{Reply, lost, reply}
use stardustfs.Source
use stardustfs.Source.{Source}
use stardustfs.Jbod.{get_source_by_id}
use stardustfs.Table.{find_row}
use stardustfs.P2p.{
  Node, Request, Response, refused, System, Op, read, write, delete, list, exists, mkdir, rmdir,
  space_of, run_op, on_source, select_source_or_error, select_source_or_first, write_content,
  found_or_404, file_content, delete_existing, op_read, op_write, op_delete, op_list, op_exists,
  op_mkdir, op_rmdir, first_source,
}
use stardustfs.P2p.Confinement.{is_confined, has_dots_segment}
use stardustfs.P2p.Dots.{HasDots, HasDots-has_dots_segment}
use stardustfs.P2p.Handlers.{
  Auth, Verified, Shared, reject, accept, verify_token, verify_share_token, parse_and_verify,
  allows_share, handle, json,
}

abbrev IsRefusal : ℕ → Type 0
IsRefusal status = (status ≡ 400) ⊎ (status ≡ 401) ⊎ (status ≡ 403) ⊎ (status ≡ 503)

unauthorised : IsRefusal 401
unauthorised = inr (inl refl)

forbidden : IsRefusal 403
forbidden = inr (inr (inl refl))

unavailable : IsRefusal 503
unavailable = inr (inr (inr refl))

-- The answer to a token, or to a share token, lets the request through.
abbrev IsOwnUser : Auth → Option Text → Text → Type 0
IsOwnUser auth local_user token =
    (v : Verified) × (auth.verify token ≡ reply 200 v) × (v.valid ≡ true) × (v.user_id ≡ local_user)

abbrev IsSharedFile : Auth → Text → Text → Type 0
IsSharedFile auth token path =
    (v : Shared) × (auth.verify_share token path ≡ reply 200 v) × (v.valid ≡ true)

verify_token-cases :
    (auth : Auth) (local_user : Option Text) (token : Text) (answer : Reply Verified)
    → auth.verify token ≡ answer
    → ((status : ℕ) × (verify_token auth local_user true token ≡ reject status) × IsRefusal status)
      ⊎ ((v : Verified) × (verify_token auth local_user true token ≡ accept v)
          × IsOwnUser auth local_user token)
unfolding verify_token
verify_token-cases auth local_user token lost e = inl (503, rw (e, verify_token) refl, unavailable)
verify_token-cases auth local_user token (reply status v) e = elim (Bool-cases (status == 200)) [
  | inr bad ↦ inl (401, rw (e, bad, verify_token) refl, unauthorised)
  | inl fine ↦ elim (Bool-cases v.valid) [
    | inr invalid ↦ inl (401, rw (e, fine, invalid, verify_token) refl, unauthorised)
    | inl valid ↦ elim (Bool-cases (v.user_id == local_user)) [
      | inr other ↦ inl (403, rw (e, fine, valid, other, verify_token) refl, forbidden)
      | inl same ↦ inr (
        v,
        rw (e, fine, valid, same, verify_token) refl,
        (
          v,
          e ∙ ap (λ n. reply n v) (ground (arith, eq_iff status 200)),
          valid,
          ground (arith, eq_iff v.user_id local_user),
        ),
      )
    ]
  ]
]

verify_share_token-cases :
    (auth : Auth) (token path : Text) (answer : Reply Shared)
    → auth.verify_share token path ≡ answer
    → ((status : ℕ) × (verify_share_token auth token path ≡ reject status) × IsRefusal status)
      ⊎ ((verify_share_token auth token path ≡ accept tt) × IsSharedFile auth token path)
unfolding verify_share_token
verify_share_token-cases auth token path lost e =
    inl (503, rw (e, verify_share_token) refl, unavailable)
verify_share_token-cases auth token path (reply status v) e = elim (Bool-cases (status == 200)) [
  | inr bad ↦ inl (401, rw (e, bad, verify_share_token) refl, unauthorised)
  | inl fine ↦ elim (Bool-cases v.valid) [
    | inl valid ↦ inr (
      rw (e, fine, valid, verify_share_token) refl,
      (v, e ∙ ap (λ n. reply n v) (ground (arith, eq_iff status 200)), valid),
    )
    | inr invalid ↦ elim (Bool-cases v.names_device) [
      | inl named ↦ inl (403, rw (e, fine, invalid, named, verify_share_token) refl, forbidden)
      | inr unnamed ↦
          inl (401, rw (e, fine, invalid, unnamed, verify_share_token) refl, unauthorised)
    ]
  ]
]

-- Whether `parse_and_verify` takes the share token.
abbrev by_share : Op → Request → Bool
by_share op body = allows_share op && not (body.share_token == [])

parse_and_verify-cases :
    (auth : Auth) (local_user : Option Text) (op : Op) (body : Request)
    → ((status : ℕ) × (parse_and_verify auth local_user (allows_share op) (json body)
          ≡ reject status)
        × IsRefusal status)
      ⊎ IsOwnUser auth local_user body.auth_token
      ⊎ ((allows_share op ≡ true) × IsSharedFile auth body.share_token body.physical_path)
unfolding parse_and_verify
parse_and_verify-cases auth local_user op body = elim (Bool-cases (by_share op body)) [
  | inl share ↦
      elim (verify_share_token-cases auth body.share_token body.physical_path
        (auth.verify_share body.share_token body.physical_path) refl) [
          | inl (status, e, refusal) ↦ inl (status, rw (parse_and_verify, share, e) refl, refusal)
          | inr (e, good) ↦ inr (inr (ground arith, good))
        ]
  | inr direct ↦ elim (Bool-cases (body.auth_token == [])) [
    | inl missing ↦ inl (401, rw (parse_and_verify, direct, missing) refl, unauthorised)
    | inr given ↦
        elim (verify_token-cases auth local_user body.auth_token (auth.verify body.auth_token)
          refl) [
            | inl (status, e, refusal) ↦
                inl (status, rw (parse_and_verify, direct, given, e) refl, refusal)
            | inr (v, e, good) ↦ inr (inl good)
          ]
  ]
]

allows_share_only : (op : Op) → allows_share op ≡ true → op ≡ read
allows_share_only read h = refl
allows_share_only write h = ground arith
allows_share_only delete h = ground arith
allows_share_only list h = ground arith
allows_share_only exists h = ground arith
allows_share_only mkdir h = ground arith
allows_share_only rmdir h = ground arith
allows_share_only space_of h = ground arith

-- Every request with a JSON object as its body is refused with 400, 401, 403 or 503 and changes nothing, or the
-- central server takes its token for one of the own user, or it is a read and the central server takes
-- its share token for the very path.
pub handle_refused :
    (auth : Auth) (sys : System) (op : Op) (body : Request) (n : Node)
    → ((status : ℕ) × (handle auth sys op (json body) n ≡ ((status, refused), n))
        × IsRefusal status)
      ⊎ IsOwnUser auth n.user_id body.auth_token
      ⊎ ((op ≡ read) × IsSharedFile auth body.share_token body.physical_path)
unfolding handle
handle_refused auth sys op body n = elim (parse_and_verify-cases auth n.user_id op body) [
  | inl (status, e, refusal) ↦ inl (status, rw (handle, e) refl, refusal)
  | inr (inl good) ↦ inr (inl good)
  | inr (inr (shares, good)) ↦ inr (inr (allows_share_only op shares, good))
]

rejected :
    (sys : System) (body : Request) (choice : Option Source)
    (act : Source → Result Response × Source) (n : Node)
    → has_dots_segment body.physical_path ≡ true
    → (status : ℕ) × (on_source sys body choice act n ≡ (ok (status, refused), n))
      × ((status ≡ 400) ⊎ (status ≡ 404))
unfolding on_source is_confined
rejected sys body none act n dotted = (404, refl, inr refl)
rejected sys body (some s) act n dotted =
    let outside : is_confined (sys.data_root s) body.physical_path ≡ false = ground arith in
    (400, rw (outside, on_source) refl, inl refl)

-- A path with the segment "..", between slashes or backslashes, is refused by every operation on a path, with 400 or, where there is no
-- source, 404, and changes nothing.
pub run_op_confined :
    (op : Op) (sys : System) (body : Request) (n : Node)
    → op ≢ space_of
    → HasDots body.physical_path
    → (status : ℕ) × (run_op op sys body n ≡ (ok (status, refused), n))
      × ((status ≡ 400) ⊎ (status ≡ 404))
unfolding run_op op_read op_write op_delete op_list op_exists op_mkdir op_rmdir
run_op_confined read sys body n path dotted =
    rejected sys body _ _ n (HasDots-has_dots_segment body.physical_path dotted)
run_op_confined write sys body n path dotted =
    rejected sys body _ _ n (HasDots-has_dots_segment body.physical_path dotted)
run_op_confined delete sys body n path dotted =
    rejected sys body _ _ n (HasDots-has_dots_segment body.physical_path dotted)
run_op_confined list sys body n path dotted =
    rejected sys body _ _ n (HasDots-has_dots_segment body.physical_path dotted)
run_op_confined exists sys body n path dotted =
    rejected sys body _ _ n (HasDots-has_dots_segment body.physical_path dotted)
run_op_confined mkdir sys body n path dotted =
    rejected sys body _ _ n (HasDots-has_dots_segment body.physical_path dotted)
run_op_confined rmdir sys body n path dotted =
    rejected sys body _ _ n (HasDots-has_dots_segment body.physical_path dotted)
run_op_confined space_of sys body n path dotted = absurd (path refl)

-- The first source, named by its id.
abbrev pub on_first : Request → Source → Request
on_first body s = record body { source_id = s.source_id }

unknown_first :
    (body : Request) (n : Node) (s : Source) (rest : List Source)
    → body.source_id ≢ []
    → get_source_by_id body.source_id n.jbod ≡ none
    → n.jbod.sources ≡ s ∷ rest
    → (select_source_or_error body n.jbod ≡ none)
      × (select_source_or_first body n.jbod ≡ some s)
      × (select_source_or_first (on_first body s) n.jbod ≡ some s)
unfolding select_source_or_error select_source_or_first get_source_by_id find_row
unknown_first body n s rest named unknown listed =
    let is_named : (body.source_id == []) ≡ false = ground (arith, eq_iff body.source_id []) in
    let missing : select_source_or_error body n.jbod ≡ none =
      rw (is_named, select_source_or_error) unknown in
    let first : first_source n.jbod.sources ≡ some s = rw listed refl in
    let found : get_source_by_id s.source_id n.jbod ≡ some s =
      rw listed (ground (arith, eq_refl s.source_id)) in
    (missing, ground arith, ground arith)

-- With the id of a source that does not exist, a read answers 404, whereas a write and a delete act on
-- the first source, as they do with that source's id.
pub unknown_source :
    (sys : System) (body : Request) (n : Node) (s : Source) (rest : List Source)
    → body.source_id ≢ []
    → get_source_by_id body.source_id n.jbod ≡ none
    → n.jbod.sources ≡ s ∷ rest
    → (run_op read sys body n ≡ (ok (404, refused), n))
      × (run_op write sys body n ≡ run_op write sys (on_first body s) n)
      × (run_op delete sys body n ≡ run_op delete sys (on_first body s) n)
unfolding run_op op_read op_write op_delete on_source write_content
unknown_source sys body n s rest named unknown listed =
    let (missing, first, named_first) = unknown_first body n s rest named unknown listed in
    let same = first ∙ sym named_first in
    (
      ap
          (λ c.
            on_source sys body c
              (λ s. found_or_404 file_content (Source.read sys.fault body.physical_path s)) n)
          missing,
      ap (λ c. on_source sys body c (write_content sys body) n) same,
      ap
          (λ c.
            on_source sys body c
              (λ s. delete_existing sys body s (Source.exists body.physical_path s)) n)
          same,
    )
