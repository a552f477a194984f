-- ===== src/Table/Laws.antt =====
-- The laws of a table with a unique key: each statement as an update of the map from keys to rows.
use stardustfs.Prelude.{
  Text, Bool, Option, none, some, List, [], ◌∷◌, ◌++◌, ◌==◌, text_eq, eq_iff, if◌then◌else◌, map,
  ok, err, unique_violation, ◌≡◌, ◌≢◌, ◌⊎◌, refl, filter, arith,
}
use stardustfs.Table.{find_row, update_rows, rekey_row, IsUnique}

abbrev pub keep_if {ℓ} : {A : Type ℓ} → (A → Bool) → Option A → Option A
keep_if test none = none
keep_if test (some a) = if test a then some a else none

abbrev pub map_option {ℓ κ} : {A : Type ℓ} {B : Type κ} → (A → B) → Option A → Option B
map_option f none = none
map_option f (some a) = some (f a)

module _ {R : Type 0} (key : R → Text) where
  pub key-find_row : (p : Text) (rows : List R) (r : R) → find_row key p rows ≡ some r → key r ≡ p
  unfolding find_row
  key-find_row p [] r h = ground arith
  key-find_row p (x ∷ rows) r h = ground (arith, eq_iff (key x) p, key-find_row p rows r)

  pub find_row-update_rows :
      (p q : Text) (f : R → R) (rows : List R)
      → ((r : R) → key (f r) ≡ key r)
      → find_row key q (update_rows key p f rows)
        ≡ (if p == q then map_option f (find_row key q rows) else find_row key q rows)
  unfolding find_row update_rows
  find_row-update_rows p q f [] keeps = ground arith
  find_row-update_rows p q f (x ∷ rows) keeps = ground (
    arith,
    keeps x,
    eq_iff (key x) p,
    eq_iff (key x) q,
    eq_iff (key (f x)) q,
    eq_iff p q,
    find_row-update_rows p q f rows keeps,
  )

  pub find_row-set :
      (p : Text) (f : R → R) (rows : List R) (r : R)
      → find_row key p rows ≡ some r
      → key (f r) ≡ p
      → find_row key p (update_rows key p f rows) ≡ some (f r)
  unfolding find_row update_rows
  find_row-set p f [] r h k = cc
  find_row-set p f (x ∷ rows) r h k =
      ground (arith, eq_iff (key x) p, eq_iff (key (f x)) p, find_row-set p f rows r)

  pub update_rows_absent :
      (p : Text) (f : R → R) (rows : List R)
      → find_row key p rows ≡ none
      → update_rows key p f rows ≡ rows
  unfolding find_row update_rows
  update_rows_absent p f [] h = refl
  update_rows_absent p f (x ∷ rows) h = ground (arith, update_rows_absent p f rows)

  pub find_row-append_new :
      (q : Text) (r : R) (rows : List R)
      → find_row key (key r) rows ≡ none
      → find_row key q (rows ++ r ∷ []) ≡ (if key r == q then some r else find_row key q rows)
  unfolding find_row
  find_row-append_new q r [] h = refl
  find_row-append_new q r (x ∷ rows) h = ground (
    arith,
    eq_iff (key x) q,
    eq_iff (key r) q,
    eq_iff (key x) (key r),
    find_row-append_new q r rows,
  )

  pub find_row-filter :
      (q : Text) (test : R → Bool) (rows : List R)
      → IsUnique key rows
      → find_row key q (filter test rows) ≡ keep_if test (find_row key q rows)
  unfolding find_row
  find_row-filter q test [] u = refl
  find_row-filter q test (x ∷ rows) u =
      ground (arith, eq_iff (key x) q, find_row-filter q test rows u.1)

  pub find_row-map :
      {M : Type 0} (key' : M → Text) (g : R → M) (q : Text) (rows : List R)
      → ((r : R) → key' (g r) ≡ key r)
      → find_row key' q (map g rows) ≡ map_option g (find_row key q rows)
  unfolding find_row
  find_row-map key' g q [] same = refl
  find_row-map key' g q (x ∷ rows) same = ground (arith, same x, find_row-map key' g q rows same)

  pub IsUnique-update_rows :
      (p : Text) (f : R → R) (rows : List R)
      → ((r : R) → key (f r) ≡ key r)
      → IsUnique key rows
      → IsUnique key (update_rows key p f rows)
  unfolding update_rows
  IsUnique-update_rows p f [] keeps u = tt
  IsUnique-update_rows p f (x ∷ rows) keeps u = ground (
    arith,
    keeps x,
    find_row-update_rows p (key x) f rows keeps,
    find_row-update_rows p (key (f x)) f rows keeps,
    IsUnique-update_rows p f rows keeps u.1,
  )

  pub IsUnique-append_new :
      (r : R) (rows : List R)
      → find_row key (key r) rows ≡ none
      → IsUnique key rows
      → IsUnique key (rows ++ r ∷ [])
  unfolding find_row
  IsUnique-append_new r [] h u = (refl, tt)
  IsUnique-append_new r (x ∷ rows) h u = ground (
    arith,
    eq_iff (key x) (key r),
    eq_iff (key r) (key x),
    find_row-append_new (key x) r rows,
    IsUnique-append_new r rows,
  )

  pub IsUnique-filter :
      (test : R → Bool) (rows : List R) → IsUnique key rows → IsUnique key (filter test rows)
  IsUnique-filter test [] u = tt
  IsUnique-filter test (x ∷ rows) u =
      ground (arith, find_row-filter (key x) test rows u.1, IsUnique-filter test rows u.1)

-- A row moves to the key `new`, which no other row has.
module _ {R : Type 0} (key : R → Text) (f : R → R) (old new : Text)
    (moves : (r : R) → key (f r) ≡ new) where
  find_row-move :
      (q : Text) (rows : List R)
      → IsUnique key rows
      → (old ≡ new) ⊎ (find_row key new rows ≡ none)
      → find_row key q (update_rows key old f rows) ≡ (
          if new == q
          then map_option f (find_row key old rows)
          else if old == q
          then none
          else find_row key q rows)
  unfolding find_row update_rows
  find_row-move q [] u h = ground arith
  find_row-move q (x ∷ rows) u h = ground (
    arith,
    moves x,
    eq_iff (key x) old,
    eq_iff (key x) new,
    eq_iff (key x) q,
    eq_iff (key (f x)) q,
    eq_iff new q,
    eq_iff old q,
    find_row-move q rows u.1,
  )

  IsUnique-move :
      (rows : List R)
      → IsUnique key rows
      → (old ≡ new) ⊎ (find_row key new rows ≡ none)
      → IsUnique key (update_rows key old f rows)
  unfolding find_row update_rows
  IsUnique-move [] u h = tt
  IsUnique-move (x ∷ rows) u h = ground (
    arith,
    moves x,
    eq_iff (key x) old,
    eq_iff (key x) new,
    eq_iff new (key x),
    eq_iff old (key x),
    eq_iff new (key (f x)),
    find_row-move (key x) rows u.1,
    find_row-move (key (f x)) rows u.1,
    IsUnique-move rows u.1,
  )

  rekey_row-eq-ok :
      (rows rows' : List R)
      → rekey_row key f old new rows ≡ ok rows'
      → find_row key old rows ≢ none
      → (rows' ≡ update_rows key old f rows) × ((old ≡ new) ⊎ (find_row key new rows ≡ none))
  unfolding rekey_row
  rekey_row-eq-ok rows rows' e found = ground (arith, eq_iff old new)

  -- What a rename that is accepted does to the map, and that the keys stay unique.
  pub rekey_row_lem :
      (rows rows' : List R)
      → IsUnique key rows
      → rekey_row key f old new rows ≡ ok rows'
      → find_row key old rows ≢ none
      → IsUnique key rows'
        × ((q : Text)
            → find_row key q rows' ≡ (
                if new == q
                then map_option f (find_row key old rows)
                else if old == q
                then none
                else find_row key q rows))
  rekey_row_lem rows rows' u e found =
      let (same, free) = rekey_row-eq-ok rows rows' e found in
      rw same (IsUnique-move rows u free, λ q. find_row-move q rows u free)

  -- A rename is refused exactly where another row has the new key.
  pub rekey_row_refused :
      (rows : List R)
      → find_row key old rows ≢ none
      → old ≢ new
      → find_row key new rows ≢ none
      → rekey_row key f old new rows ≡ err unique_violation
  unfolding rekey_row
  rekey_row_refused rows found ne taken = ground (arith, eq_iff old new)

  pub rekey_row_accepted :
      (rows : List R)
      → find_row key new rows ≡ none
      → rekey_row key f old new rows ≡ ok (update_rows key old f rows)
  unfolding rekey_row
  rekey_row_accepted rows free = ground (arith, eq_iff old new)
