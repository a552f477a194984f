-- ===== src/P2p.antt =====
-- stardustlib/p2p_server.py: the class P2PServer. The state is the JBOD manager with the parity store, if
-- hosting is enabled. The central server is the argument `auth`; the data root of a source, the
-- directories of the system and its faults are given with a request. A field of the JSON body that is
-- missing is an empty text; `data` is none where base64 does not decode it. A file is named by the
-- physical path of the request.
pub mod Confinement
pub mod Dots
pub mod Handlers
pub mod Access
pub mod Replicas
use stardustfs.Prelude.{
  ℕ, Text, Bytes, Bool, true, false, Option, none, some, List, [], ◌∷◌, ◌++◌, ◌==◌, nat_eq, text_eq,
  option_text_eq, if◌then◌else◌, ◌&&◌, not, Result, ok, err, Error, value_error, permission_error,
  file_not_found, quota_exceeded, os_error, key_not_found, length, ltb, codes,
}
use stardustfs.Paths.{join}
use stardustfs.Network.{Reply, lost, reply}
use stardustfs.Source
use stardustfs.Source.{Source, Fault, Removal, get_available_space, get_total_space}
use stardustfs.Source.Folders
use stardustfs.Jbod.{Jbod, get_source_by_id, set_source}
use stardustfs.Parity
use stardustfs.Parity.{ParityStore}
use stardustfs.P2p.Confinement.{is_confined}

pub record Node : Type 0 where
  pub jbod : Jbod
  pub parity_store : Option ParityStore
  pub user_id : Option Text

pub record Request : Type 0 where
  pub source_id : Text
  pub physical_path : Text
  pub content : Option Bytes
  pub chunk_id : Text
  pub auth_token : Text
  pub share_token : Text

pub data Body : Type 0 where
  refused done : Body
  file_content : Bytes → Body
  bytes_written : ℕ → Body
  entries : List Text → Body
  existence : Bool → Body
  space : ℕ → ℕ → Body

abbrev pub Response : Type 0
Response = ℕ × Body

-- What the operating system does to a request, by full paths.
pub record System : Type 0 where
  pub fault : Fault
  pub removal : Removal
  pub is_dir : Text → Bool
  pub list_entries : Text → List Text
  pub data_root : Source → Text

pub data Op : Type 0 where
  read write delete list exists mkdir rmdir space_of : Op

pub data ReplicaOp : Type 0 where
  replica_store replica_fetch replica_delete : ReplicaOp

abbrev pub max_write_size : ℕ
max_write_size = 104857600

abbrev pub Outcome : Type 0
Outcome = Result Response × Node

abbrev pub with_source : Source → Node → Node
with_source s n = record n { jbod = set_source s n.jbod }

abbrev pub first_source : List Source → Option Source
first_source [] = none
first_source (s ∷ sources) = some s

-- `_select_source_or_error`
unfoldable pub select_source_or_error : Request → Jbod → Option Source
select_source_or_error body j =
    if body.source_id == [] then first_source j.sources else get_source_by_id body.source_id j

-- What a writing operation makes of it: the first source takes the place of one that is not found.
unfoldable pub select_source_or_first : Request → Jbod → Option Source
select_source_or_first body j = elim (select_source_or_error body j) [
  | none ↦ first_source j.sources
  | some s ↦ some s
]

-- An operation on the chosen source, whose path is refused where it is not confined.
unfoldable pub on_source :
    System → Request → Option Source → (Source → Result Response × Source) → Node → Outcome
on_source sys body none act n = (ok (404, refused), n)
on_source sys body (some s) act n =
    if is_confined (sys.data_root s) body.physical_path
    then (let (r, s') = act s in (r, with_source s' n))
    else (ok (400, refused), n)

-- A result as the response with its body; a missing file is 404 and any other exception goes on.
abbrev pub found_or_404 : {A : Type 0} → (A → Body) → Result A × Source → Result Response × Source
found_or_404 body (ok a, s) = (ok (200, body a), s)
found_or_404 body (err file_not_found, s) = (ok (404, refused), s)
found_or_404 body (err e, s) = (err e, s)

abbrev pub or_raise : {A : Type 0} → (A → Body) → Result A × Source → Result Response × Source
or_raise body (ok a, s) = (ok (200, body a), s)
or_raise body (err e, s) = (err e, s)

unfoldable pub write_content : System → Request → Source → Result Response × Source
write_content sys body s = elim body.content [
  | none ↦ (ok (400, refused), s)
  | some content ↦
      if ltb max_write_size (length content)
      then (ok (413, refused), s)
      else or_raise (λ u. bytes_written (length content))
          (Source.write sys.fault body.physical_path content s)
]

abbrev pub delete_existing : System → Request → Source → Result Bool → Result Response × Source
delete_existing sys body s (err e) = (err e, s)
delete_existing sys body s (ok false) = (ok (404, refused), s)
delete_existing sys body s (ok true) =
    found_or_404 (λ u. done) (Source.delete sys.fault body.physical_path s)

abbrev pub full_path : System → Request → Source → Text
full_path sys body s = join (sys.data_root s) body.physical_path

abbrev pub only_in_dir :
    System → Request → (Source → Result Response × Source) → Source → Result Response × Source
only_in_dir sys body act s =
    if sys.is_dir (full_path sys body s) then act s else (ok (404, refused), s)

-- The space of the first source; without a source the index raises.
abbrev pub space_response : Option Source → Result Response
space_response none = err key_not_found
space_response (some s) = elim (get_available_space s) [
  | err e ↦ err e
  | ok available ↦ elim (get_total_space s) [
    | err e ↦ err e
    | ok total ↦ ok (200, space available total)
  ]
]

unfoldable pub op_read : System → Request → Node → Outcome
unfolding select_source_or_error on_source
op_read sys body n =
    on_source sys body (select_source_or_error body n.jbod)
      (λ s. found_or_404 file_content (Source.read sys.fault body.physical_path s)) n

unfoldable pub op_write : System → Request → Node → Outcome
unfolding select_source_or_first on_source write_content
op_write sys body n =
    on_source sys body (select_source_or_first body n.jbod) (write_content sys body) n

unfoldable pub op_delete : System → Request → Node → Outcome
unfolding select_source_or_first on_source
op_delete sys body n =
    on_source sys body (select_source_or_first body n.jbod)
      (λ s. delete_existing sys body s (Source.exists body.physical_path s)) n

unfoldable pub op_list : System → Request → Node → Outcome
unfolding select_source_or_error on_source
op_list sys body n =
    on_source sys body (select_source_or_error body n.jbod)
      (only_in_dir sys body (λ s. or_raise entries (
        Folders.list_dir sys.fault (sys.is_dir (full_path sys body s))
          (sys.list_entries (full_path sys body s)) s)))
      n

unfoldable pub op_exists : System → Request → Node → Outcome
unfolding select_source_or_error on_source
op_exists sys body n =
    on_source sys body (select_source_or_error body n.jbod)
      (λ s. or_raise existence (Source.exists body.physical_path s, s)) n

unfoldable pub op_mkdir : System → Request → Node → Outcome
unfolding select_source_or_first on_source
op_mkdir sys body n =
    on_source sys body (select_source_or_first body n.jbod)
      (λ s. or_raise (λ u. done) (Folders.mkdir sys.fault s)) n

unfoldable pub op_rmdir : System → Request → Node → Outcome
unfolding select_source_or_first on_source
op_rmdir sys body n =
    on_source sys body (select_source_or_first body n.jbod)
      (only_in_dir sys body
        (λ s. or_raise (λ u. done) (Source.rmdir sys.removal body.physical_path s)))
      n

unfoldable pub op_space : System → Request → Node → Outcome
op_space sys body n = (space_response (first_source n.jbod.sources), n)

unfoldable pub run_op : Op → System → Request → Node → Outcome
unfolding op_read op_write op_delete op_list op_exists op_mkdir op_rmdir op_space
run_op read = op_read
run_op write = op_write
run_op delete = op_delete
run_op list = op_list
run_op exists = op_exists
run_op mkdir = op_mkdir
run_op rmdir = op_rmdir
run_op space_of = op_space
