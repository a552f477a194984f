-- ===== src/Paths.antt =====
-- The methods of Python's `str` and the functions of its `posixpath` that the program applies to
-- virtual paths.
use stardustfs.Prelude.{
  ℕ, suc, Text, Bool, false, Option, none, some, [], ◌∷◌, ◌++◌, ◌==◌, nat_eq, if◌then◌else◌, any,
  all, take, drop,
}

abbrev pub slash : ℕ
slash = 47

-- `"/" in t`
unfoldable pub has_slash : Text → Bool
has_slash t = any (λ c. c == slash) t

-- `t.split("/")[0]`
unfoldable pub first_part : Text → Text
first_part [] = []
first_part (c ∷ t) = let rest = first_part t in if c == slash then [] else c ∷ rest

abbrev pub strip_one : ℕ → Text → Text
strip_one c [] = if c == slash then [] else c ∷ []
strip_one c (d ∷ t) = c ∷ d ∷ t

-- `t.rstrip("/")`
unfoldable pub rstrip_slash : Text → Text
rstrip_slash [] = []
rstrip_slash (c ∷ t) = strip_one c (rstrip_slash t)

-- `t.endswith("/")`
unfoldable pub ends_with_slash : Text → Bool
ends_with_slash [] = false
ends_with_slash (c ∷ []) = c == slash
ends_with_slash (c ∷ d ∷ t) = ends_with_slash (d ∷ t)

-- `t.rfind(c)`, or none where that is -1.
unfoldable pub last_index : ℕ → Text → Option ℕ
last_index c [] = none
last_index c (x ∷ t) = elim (last_index c t) [
  | some i ↦ some (suc i)
  | none ↦ if x == c then some 0 else none
]

-- `t.lstrip("/")`
unfoldable pub lstrip_slash : Text → Text
lstrip_slash [] = []
lstrip_slash (c ∷ t) = let rest = lstrip_slash t in if c == slash then rest else c ∷ t

-- posixpath.dirname
unfoldable pub dirname : Text → Text
unfolding last_index rstrip_slash
dirname p = elim (last_index slash p) [
  | none ↦ []
  | some i ↦
      let head = take (suc i) p in if all (λ c. c == slash) head then head else rstrip_slash head
]

-- posixpath.basename
unfoldable pub basename : Text → Text
unfolding last_index
basename p = elim (last_index slash p) [ none ↦ p | some i ↦ drop (suc i) p ]

-- posixpath.join
unfoldable pub join : Text → Text → Text
unfolding ends_with_slash
join [] b = b
join (x ∷ a) [] = if ends_with_slash (x ∷ a) then x ∷ a else (x ∷ a) ++ slash ∷ []
join (x ∷ a) (c ∷ b) =
    if c == slash
    then c ∷ b
    else if ends_with_slash (x ∷ a)
    then (x ∷ a) ++ c ∷ b
    else (x ∷ a) ++ slash ∷ c ∷ b
