-- ===== src/Parity/Access.antt =====
-- What `store` keeps is what `fetch` returns.
use stardustfs.Prelude.{Text, Bytes, some, List, [], ◌∷◌, ◌≡◌, arith, text_eq, eq_refl, ok, length}
use stardustfs.Table.{find_row}
use stardustfs.Parity.{
  Meta, Chunk, ParityStore, chunk_of, name_of, set_meta, set_chunk, keep_chunk, store, fetch,
}

find_row-set_meta :
    (meta : Meta) (index : List Meta)
    → find_row chunk_of meta.chunk_id (set_meta meta index) ≡ some meta
unfolding find_row set_meta
find_row-set_meta meta [] = ground (arith, eq_refl meta.chunk_id)
find_row-set_meta meta (m ∷ index) =
    ground (arith, eq_refl meta.chunk_id, find_row-set_meta meta index)

find_row-set_chunk :
    (file : Chunk) (files : List Chunk)
    → find_row name_of file.name (set_chunk file files) ≡ some file
unfolding find_row set_chunk
find_row-set_chunk file [] = ground (arith, eq_refl file.name)
find_row-set_chunk file (f ∷ files) =
    ground (arith, eq_refl file.name, find_row-set_chunk file files)

-- After a store that returns, its user fetches the chunk byte for byte.
pub fetch-store :
    (id user : Text) (content : Bytes) (p : ParityStore)
    → (store id user content p).0 ≡ ok tt
    → fetch id user (store id user content p).1 ≡ ok content
unfolding store fetch keep_chunk
fetch-store id user content p done = ground (
  arith,
  eq_refl user,
  find_row-set_meta (record { chunk_id = id; owner = user; size = length content }) p.index,
  find_row-set_chunk (record { name = id; content = content }) p.files,
)
