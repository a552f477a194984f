-- ===== src/Parity/Quota.antt =====
-- The quota of the parity store.
use stardustfs.Prelude.{ℕ, List, [], ◌∷◌, ◌+◌, text_eq}
use stardustfs.Parity.{Meta}

-- The sizes of the chunks, added up.
unfoldable pub bytes_in : List Meta → ℕ
bytes_in [] = 0
bytes_in (m ∷ index) = m.size + bytes_in index
