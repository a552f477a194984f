-- ===== src/P2p/Confinement.antt =====
-- stardustlib/p2p_server.py: _validate_path_err, with normpath of Python's posixpath.
use stardustfs.Prelude.{
  ℕ, Text, Bool, true, false, List, [], ◌∷◌, ◌++◌, ◌==◌, nat_eq, text_eq, if◌then◌else◌, ◌&&◌, ◌||◌,
  not, map, any, codes,
}
use stardustfs.Paths.{slash, join}
use stardustfs.Like.Laws.{starts_with}

abbrev pub push_first : ℕ → List Text → List Text
push_first c [] = (c ∷ []) ∷ []
push_first c (p ∷ parts) = (c ∷ p) ∷ parts

-- `t.split("/")`
unfoldable pub split_slash : Text → List Text
split_slash [] = [] ∷ []
split_slash (c ∷ t) =
    let rest = split_slash t in if c == slash then [] ∷ rest else push_first c rest

-- `"/".join(parts)`
unfoldable pub join_slash : List Text → Text
join_slash [] = []
join_slash (p ∷ []) = p
join_slash (p ∷ q ∷ parts) = p ++ slash ∷ join_slash (q ∷ parts)

abbrev pub dots : Text
dots = codes ".."

abbrev pub is_empty : List Text → Bool
is_empty [] = true
is_empty (p ∷ done) = false

abbrev pub is_dots_first : List Text → Bool
is_dots_first [] = false
is_dots_first (p ∷ done) = p == dots

abbrev pub drop_last : List Text → List Text
drop_last [] = []
drop_last (p ∷ done) = done

-- The loop over the components; `done` is `new_comps` from its end.
unfoldable pub normal_parts : Bool → List Text → List Text → List Text
normal_parts absolute done [] = done
normal_parts absolute done (p ∷ parts) =
    if p == [] || p == codes "."
    then normal_parts absolute done parts
    else if not (p == dots) || (not absolute && is_empty done) || is_dots_first done
    then normal_parts absolute (p ∷ done) parts
    else normal_parts absolute (drop_last done) parts

abbrev pub reversed_onto : List Text → List Text → List Text
reversed_onto acc [] = acc
reversed_onto acc (p ∷ parts) = reversed_onto (p ∷ acc) parts

-- Two slashes at the start are kept, one or more than two become one.
abbrev pub initial_slashes : Text → Text
initial_slashes [] = []
initial_slashes (a ∷ []) = if a == slash then slash ∷ [] else []
initial_slashes (a ∷ b ∷ []) =
    if not (a == slash) then [] else if b == slash then slash ∷ slash ∷ [] else slash ∷ []
initial_slashes (a ∷ b ∷ c ∷ t) =
    if not (a == slash)
    then []
    else if b == slash && not (c == slash)
    then slash ∷ slash ∷ []
    else slash ∷ []

abbrev pub or_dot : Text → Text
or_dot [] = codes "."
or_dot (c ∷ t) = c ∷ t

-- posixpath.normpath
unfoldable pub normpath : Text → Text
normpath path =
    let initial = initial_slashes path in
    or_dot (
      initial
      ++ join_slash (reversed_onto [] (normal_parts (not (initial == [])) [] (split_slash path))))

abbrev pub backslash_to_slash : ℕ → ℕ
backslash_to_slash c = if c == 92 then slash else c

-- `".." in physical_path.replace("\\", "/").split("/")`
unfoldable pub has_dots_segment : Text → Bool
unfolding split_slash
has_dots_segment path = any (λ p. p == dots) (split_slash (map backslash_to_slash path))

-- Whether `_validate_path_err` returns none.
unfoldable pub is_confined : Text → Text → Bool
unfolding has_dots_segment
is_confined root path =
    let root_norm = normpath root in
    let resolved = normpath (join root_norm path) in
    not (path == [])
    && not (has_dots_segment path)
    && (resolved == root_norm || starts_with (root_norm ++ slash ∷ []) resolved)
