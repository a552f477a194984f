-- ===== src/Conflict/Naming.antt =====
-- The search for a free name of a conflict copy ends: more candidates than rows are tried.
use mathlib.Core.List.{append_cancel_left, append_cancel_right}
use stardustfs.Prelude.{
  nat_eq, ◌⊎◌, sym, ◌∙◌, append_assoc, ap, ℕ, zero, suc, Text, none, some, List, [], ◌∷◌, ◌++◌, ◌+◌,
  ◌≤◌, ◌<◌, ◌≡◌, ◌≢◌, refl, arith, not, ◌==◌, text_eq, length, filter, codes, Bool-cases,
  Option-cases, inl, inr,
}
use stardustfs.Paths.{dirname, join, ends_with_slash}
use stardustfs.Table.{find_row}
use stardustfs.Table.Fresh.{length-filter_found, find_row-filter_ne}
use stardustfs.Decimal.{decimal, decimal-injective}
use stardustfs.Metadata.{Row, Db, path_of, row_at, lookup}
use stardustfs.Conflict.{
  join_if, numbered, conflict_stem, extension, conflict_path, conflict_path_seq, next_free,
  generate_conflict_name,
}

Text-cases : (t : Text) → (t ≡ []) ⊎ ((x : ℕ) × (a : Text) × (t ≡ x ∷ a))
Text-cases [] = inl refl
Text-cases (x ∷ a) = inr (x, a, refl)

join_prefix :
    (x c : ℕ) (a : Text) → (pre : Text) × ((u : Text) → join (x ∷ a) (c ∷ u) ≡ pre ++ c ∷ u)
unfolding join
join_prefix x c a = elim (Bool-cases (c == 47)) [
  | inl absolute ↦ ([], λ u. rw absolute)
  | inr relative ↦ elim (Bool-cases (ends_with_slash (x ∷ a))) [
    | inl closed ↦ (x ∷ a, λ u. rw (relative, closed))
    | inr open_end ↦ (
      (x ∷ a) ++ 47 ∷ [],
      λ u. rw (relative, open_end) (sym (append_assoc (x ∷ a) (47 ∷ []) (c ∷ u))),
    )
  ]
]

join_if-injective :
    (dir : Text) (c : ℕ) (u v : Text) → join_if dir (c ∷ u) ≡ join_if dir (c ∷ v) → u ≡ v
unfolding join_if
join_if-injective [] c u v h = cc
join_if-injective (x ∷ a) c u v h =
    let (pre, at) = join_prefix x c a in
    append_cancel_left (c ∷ []) u v (append_cancel_left pre (c ∷ u) (c ∷ v) (sym (at u) ∙ h ∙ at v))

-- A numbered name has a first character, which its number does not touch.
numbered_first :
    (stem ext : Text)
    → (c : ℕ) × (pre : Text) × ((seq : ℕ)
        → numbered stem ext seq ≡ c ∷ (pre ++ (decimal seq ++ (codes ")" ++ ext))))
unfolding numbered
numbered_first [] ext = (32, codes "(", λ seq. refl)
numbered_first (c ∷ s) ext = (
  c,
  s ++ codes " (",
  λ seq. ap (λ t. c ∷ t) (sym (append_assoc s (codes " (") (decimal seq ++ (codes ")" ++ ext)))),
)

candidate-injective :
    (dir stem ext : Text) (i j : ℕ)
    → join_if dir (numbered stem ext i) ≡ join_if dir (numbered stem ext j)
    → i ≡ j
candidate-injective dir stem ext i j h =
    let (c, pre, at) = numbered_first stem ext in
    let tail = codes ")" ++ ext in
    decimal-injective i j (
      append_cancel_right (decimal i) (decimal j) tail (
        append_cancel_left pre (decimal i ++ tail) (decimal j ++ tail) (
          join_if-injective dir c (pre ++ (decimal i ++ tail)) (pre ++ (decimal j ++ tail))
            (ap (join_if dir) (sym (at i)) ∙ h ∙ ap (join_if dir) (at j)))))

lookup_absent : (p : Text) (db : Db) → row_at p db ≡ none → lookup p db ≡ none
unfolding lookup
lookup_absent p db h = ground arith

module _ (device timestamp path : Text) where
  conflict_path_seq-injective :
      (i j : ℕ)
      → conflict_path_seq device timestamp path i ≡ conflict_path_seq device timestamp path j
      → i ≡ j
  unfolding conflict_path_seq
  conflict_path_seq-injective i j h =
      candidate-injective (dirname path) (conflict_stem device timestamp path)
        (extension device timestamp path) i j h

  -- The search with more fuel than rows, over the rows that a taken candidate can still be.
  next_free_total :
      (db : Db) (fuel seq : ℕ) (rows : List Row)
      → length rows < fuel
      → ((k : ℕ)
          → seq ≤ k
          → lookup (conflict_path_seq device timestamp path k) db ≢ none
          → find_row path_of (conflict_path_seq device timestamp path k) rows ≢ none)
      → (p : Text) × (next_free device timestamp path fuel seq db ≡ some p) × (lookup p db ≡ none)
  unfolding next_free
  next_free_total db zero seq rows h taken = elim h [ ]
  next_free_total db (suc fuel) seq rows h taken =
      elim (Option-cases (lookup (conflict_path_seq device timestamp path seq) db)) [
        | inl free ↦ (conflict_path_seq device timestamp path seq, rw free, free)
        | inr (m, e) ↦
            let cand = conflict_path_seq device timestamp path seq in
            let (p, found, free) =
              next_free_total db fuel (seq + 1) (filter (λ r. not (path_of r == cand)) rows)
                (omega (
                  arith,
                  length-filter_found path_of cand rows (taken seq (omega arith) (λ n. cc)),
                ))
                (λ k later t.
                  rw
                    (find_row-filter_ne path_of cand (conflict_path_seq device timestamp path k)
                      rows (λ same. absurd (omega (arith, conflict_path_seq-injective seq k same))))
                    (taken k (omega arith) t)) in
            (p, rw e found, free)
      ]

  -- A name for the conflict copy is always found, and no live file has it.
  pub generate_conflict_name_total :
      (db : Db)
      → (p : Text) × (generate_conflict_name device timestamp path db ≡ some p)
        × (lookup p db ≡ none)
  unfolding generate_conflict_name
  generate_conflict_name_total db =
      elim (Option-cases (lookup (conflict_path device timestamp path) db)) [
        | inl free ↦ (conflict_path device timestamp path, rw free, free)
        | inr (m, e) ↦
            let (p, found, free) =
              next_free_total db (suc (length db.files)) 2 db.files (omega arith)
                (λ k later shown absent.
                  shown (lookup_absent (conflict_path_seq device timestamp path k) db absent)) in
            (p, rw e found, free)
      ]
