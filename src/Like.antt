-- ===== src/Like.antt =====
-- SQL's operator LIKE as SQLite documents it: `%` stands for any text, `_` for any character, and
-- the letters of ASCII are compared without their case.
pub mod Laws
use stardustfs.Prelude.{
  ℕ, Text, Bool, true, false, List, [], ◌∷◌, ◌++◌, ◌+◌, ◌&&◌, ◌||◌, ◌==◌, nat_eq, leb,
  if◌then◌else◌,
}

unfoldable pub fold_case : ℕ → ℕ
fold_case c = if leb 65 c && leb c 90 then c + 32 else c

-- The test holds of the text or of what is left of it behind some of its characters.
unfoldable pub some_suffix : (Text → Bool) → Text → Bool
some_suffix test [] = test []
some_suffix test (c ∷ t) = test (c ∷ t) || some_suffix test t

abbrev pub after_one : (ℕ → Bool) → (Text → Bool) → Text → Bool
after_one fits test [] = false
after_one fits test (c ∷ t) = fits c && test t

abbrev pub is_empty : Text → Bool
is_empty [] = true
is_empty (c ∷ t) = false

-- The code points of `%` and `_`.
abbrev pub percent : ℕ
percent = 37

abbrev pub underscore : ℕ
underscore = 95

abbrev pub like_step : ℕ → (Text → Bool) → Text → Bool
like_step c rest t =
    if c == percent
    then some_suffix rest t
    else if c == underscore
    then after_one (λ d. true) rest t
    else after_one (λ d. fold_case c == fold_case d) rest t

unfoldable pub like : Text → Text → Bool
unfolding fold_case some_suffix
like [] t = is_empty t
like (c ∷ pattern) t = like_step c (like pattern) t

-- `? || '%'`: the texts that begin with the bound text, as LIKE sees it.
abbrev pub like_prefix : Text → Text → Bool
like_prefix prefix t = like (prefix ++ percent ∷ []) t
