-- ===== src/Parity.antt =====
-- stardustlib/parity_store.py: the store of other users' chunks. The directory is the list of the
-- chunk files by the id in their name; its writes and removals do not fail here, and index.json is
-- always the index at hand.
pub mod Quota
pub mod Access
use stardustfs.Prelude.{
  ℕ, Text, Bytes, Bool, true, false, Option, none, some, List, [], ◌∷◌, ◌++◌, ◌+◌, ◌-◌, ◌==◌, ◌||◌,
  text_eq, nat_eq, if◌then◌else◌, Result, ok, err, Error, value_error, permission_error,
  quota_exceeded, file_not_found, length, ltb, not, codes, is_some, filter, any,
}
use stardustfs.Table.{find_row, update_rows}

pub record Meta : Type 0 where
  pub chunk_id : Text
  pub owner : Text
  pub size : ℕ

pub record Chunk : Type 0 where
  pub name : Text
  pub content : Bytes

pub record ParityStore : Type 0 where
  pub index : List Meta
  pub files : List Chunk
  pub max_bytes : Option ℕ

abbrev pub chunk_of : Meta → Text
chunk_of meta = meta.chunk_id

abbrev pub name_of : Chunk → Text
name_of file = file.name

-- `".." in chunk_id`
unfoldable pub has_dots : Text → Bool
has_dots [] = false
has_dots (x ∷ []) = false
has_dots (x ∷ y ∷ t) =
    let rest = has_dots (y ∷ t) in if x == 46 then (if y == 46 then true else rest) else rest

unfoldable pub is_valid_chunk_id : Text → Bool
unfolding has_dots
is_valid_chunk_id [] = false
is_valid_chunk_id (x ∷ t) = not (any (λ c. c == 47 || c == 92) (x ∷ t) || has_dots (x ∷ t))

-- `dict[key] = value`: a key that is there keeps its place.
unfoldable pub set_meta : Meta → List Meta → List Meta
set_meta meta [] = meta ∷ []
set_meta meta (m ∷ index) =
    if m.chunk_id == meta.chunk_id then meta ∷ index else m ∷ set_meta meta index

unfoldable pub set_chunk : Chunk → List Chunk → List Chunk
set_chunk file [] = file ∷ []
set_chunk file (f ∷ files) = if f.name == file.name then file ∷ files else f ∷ set_chunk file files

-- The sum of the sizes in the index.
unfoldable pub total : List Meta → ℕ
total [] = 0
total (m ∷ index) = m.size + total index

unfoldable pub used_bytes : ParityStore → ℕ
used_bytes p = total p.index

abbrev pub prev_size : Option Meta → ℕ
prev_size none = 0
prev_size (some m) = m.size

-- `projected > self._max_bytes`
abbrev pub over_quota : ℕ → Option ℕ → Bool
over_quota projected none = false
over_quota projected (some limit) = ltb limit projected

abbrev pub is_foreign : Text → Option Meta → Bool
is_foreign user none = false
is_foreign user (some m) = not (m.owner == user)

unfoldable pub set_max_bytes : Option ℕ → ParityStore → ParityStore
set_max_bytes limit p = record p { max_bytes = limit }

-- The chunk and its entry in the index.
unfoldable pub keep_chunk : Text → Text → Bytes → ParityStore → ParityStore
keep_chunk id user content p = record p {
  files = set_chunk (record { name = id; content = content }) p.files;
  index = set_meta (record { chunk_id = id; owner = user; size = length content }) p.index;
}

unfoldable pub store : Text → Text → Bytes → ParityStore → Result (Unit {0}) × ParityStore
store id user content p =
    let existing = find_row chunk_of id p.index in
    let projected = used_bytes p - prev_size existing + length content in
    if not (is_valid_chunk_id id)
    then (err value_error, p)
    else if is_foreign user existing
    then (err permission_error, p)
    else if over_quota projected p.max_bytes
    then (err quota_exceeded, p)
    else (ok tt, keep_chunk id user content p)

-- `open(path, "rb")` and `read`
abbrev pub read_chunk : Option Chunk → Result Bytes
read_chunk none = err file_not_found
read_chunk (some file) = ok file.content

unfoldable pub fetch : Text → Text → ParityStore → Result Bytes
fetch id user p =
    if not (is_valid_chunk_id id) then err value_error else (elim (find_row chunk_of id p.index) [
      | none ↦ err file_not_found
      | some m ↦
          if m.owner == user then read_chunk (find_row name_of id p.files) else err permission_error
    ])

unfoldable pub delete : Text → Text → ParityStore → Result (Unit {0}) × ParityStore
delete id user p =
    if not (is_valid_chunk_id id)
    then (err value_error, p)
    else (elim (find_row chunk_of id p.index) [
      | none ↦ (ok tt, p)
      | some m ↦
          if m.owner == user
          then (
            ok tt,
            record p {
              files = filter (λ f. not (f.name == id)) p.files;
              index = filter (λ x. not (x.chunk_id == id)) p.index;
            },
          )
          else (err permission_error, p)
    ])

unfoldable pub exists : Text → ParityStore → Bool
exists id p = is_some (find_row chunk_of id p.index)

unfoldable pub owner_of : Text → ParityStore → Option Text
owner_of id p = elim (find_row chunk_of id p.index) [ none ↦ none | some m ↦ some m.owner ]
