-- ===== src/Like/Laws.antt =====
-- LIKE with a bound text and a closing `%`: which texts it takes for those that begin with it.
use stardustfs.Prelude.{
  ℕ, Text, Bool, true, false, [], ◌∷◌, ◌++◌, ◌≡◌, ◌≢◌, refl, arith, ◌&&◌, ◌==◌, nat_eq, text_eq,
  eq_iff, All,
}
use stardustfs.Like.{fold_case, some_suffix, like, like_prefix, percent, underscore}

-- `t.startswith(p)`
unfoldable pub starts_with : Text → Text → Bool
starts_with [] t = true
starts_with (c ∷ p) [] = false
starts_with (c ∷ p) (d ∷ t) = c == d && starts_with p t

some_suffix_self : (test : Text → Bool) (t : Text) → test t ≡ true → some_suffix test t ≡ true
unfolding some_suffix
some_suffix_self test [] h = h
some_suffix_self test (c ∷ t) h = ground arith

some_suffix_empty : (t : Text) → some_suffix (like []) t ≡ true
unfolding some_suffix like
some_suffix_empty [] = refl
some_suffix_empty (c ∷ t) = ground (arith, some_suffix_empty t)

-- A text that begins with the bound text matches, whatever characters it holds.
pub like_prefix-append : (p s : Text) → like_prefix p (p ++ s) ≡ true
unfolding like
like_prefix-append [] s = some_suffix_empty s
like_prefix-append (c ∷ p) s =
    ground (arith, like_prefix-append p s, some_suffix_self (like (p ++ percent ∷ [])) (p ++ s))

-- Neither `%` nor `_`.
abbrev pub IsPlain : ℕ → Type 0
IsPlain c = (c ≢ percent) × (c ≢ underscore)

abbrev pub same_letters : Text → Text → Bool
same_letters [] t = true
same_letters (c ∷ p) [] = false
same_letters (c ∷ p) (d ∷ t) = fold_case c == fold_case d && same_letters p t

-- If the bound text holds no wildcard, LIKE compares letter by letter without the case.
pub like_prefix_plain : (p t : Text) → All IsPlain p → like_prefix p t ≡ same_letters p t
unfolding like
like_prefix_plain [] t h = some_suffix_empty t
like_prefix_plain (c ∷ p) [] h = ground arith
like_prefix_plain (c ∷ p) (d ∷ t) h = ground (arith, like_prefix_plain p t h.1)

starts_with-same_letters : (p t : Text) → starts_with p t ≡ true → same_letters p t ≡ true
unfolding starts_with
starts_with-same_letters [] t h = refl
starts_with-same_letters (c ∷ p) [] h = h
starts_with-same_letters (c ∷ p) (d ∷ t) h =
    ground (arith, starts_with-same_letters p t, eq_iff c d)

pub starts_with-append : (p t : Text) → starts_with p t ≡ true → (s : Text) × (t ≡ p ++ s)
unfolding starts_with
starts_with-append [] t h = (t, refl)
starts_with-append (c ∷ p) [] h = cc
starts_with-append (c ∷ p) (d ∷ t) h =
    let (s, e) = starts_with-append p t (ground arith) in (s, ground (arith, e))
