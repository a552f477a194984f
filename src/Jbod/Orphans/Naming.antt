-- ===== src/Jbod/Orphans/Naming.antt =====
-- The names that the manager gives to new files, as the collection sees them.
use stardustfs.Prelude.{
  ℕ, Text, true, none, some, [], ◌∷◌, ◌++◌, ◌≡◌, refl, arith, ◌||◌, nat_eq, all, ap, length, subst,
  Option-cases, inl, inr, take,
}
use stardustfs.Paths.{slash, has_slash, last_index, basename}
use stardustfs.Jbod.{generate_physical_path, strip_slash}
use stardustfs.Jbod.Orphans.{is_hex, hex_then_underscore, is_managed}

hex_then_underscore-append :
    (uuid t : Text)
    → all is_hex uuid ≡ true
    → hex_then_underscore (length uuid) (uuid ++ 95 ∷ t) ≡ true
unfolding hex_then_underscore
hex_then_underscore-append [] t h = refl
hex_then_underscore-append (c ∷ uuid) t h = ground (arith, hex_then_underscore-append uuid t)

last_index-some : (t : Text) (i : ℕ) → last_index slash t ≡ some i → has_slash t ≡ true
unfolding has_slash last_index
last_index-some [] i h = ground arith
last_index-some (c ∷ t) i h = elim (Option-cases (last_index slash t)) [
  | inl absent ↦ ground arith
  | inr (k, found) ↦ ground (arith, last_index-some t k)
]

generate_flat :
    (uuid path : Text)
    → last_index slash (strip_slash path) ≡ none
    → generate_physical_path uuid path ≡ uuid ++ 95 ∷ strip_slash path
unfolding generate_physical_path basename
generate_flat uuid path flat =
    let bare : basename (strip_slash path) ≡ strip_slash path = rw (flat, basename) refl in
    rw (flat, generate_physical_path) (ap (λ t. uuid ++ 95 ∷ t) bare)

generate_nested :
    (uuid path : Text) (i : ℕ)
    → last_index slash (strip_slash path) ≡ some i
    → generate_physical_path uuid path
      ≡ take i (strip_slash path) ++ slash ∷ (uuid ++ 95 ∷ basename (strip_slash path))
unfolding generate_physical_path
generate_nested uuid path i nested = rw (nested, generate_physical_path) refl

has_slash_behind : (s t : Text) → has_slash (s ++ slash ∷ t) ≡ true
unfolding has_slash
has_slash_behind [] t = refl
has_slash_behind (c ∷ s) t = ground (arith, has_slash_behind s t)

managed_name :
    (uuid t : Text) → length uuid ≡ 32 → all is_hex uuid ≡ true → is_managed (uuid ++ 95 ∷ t) ≡ true
unfolding is_managed
managed_name uuid t size hex =
    subst (λ n. hex_then_underscore n (uuid ++ 95 ∷ t) ≡ true) size
      (hex_then_underscore-append uuid t hex)

has_slash_named :
    (uuid t : Text) → all is_hex uuid ≡ true → has_slash (uuid ++ 95 ∷ t) ≡ has_slash t
unfolding has_slash
has_slash_named [] t hex = refl
has_slash_named (c ∷ uuid) t hex = ground (arith, has_slash_named uuid t)

-- With a UUID of 32 hexadecimal digits, the physical path of a new file lies directly below the data
-- root exactly if the virtual path, without the slashes at its ends, has no slash, and then the
-- collection recognises its name.
pub generate_physical_path_lem :
    (uuid path : Text)
    → length uuid ≡ 32
    → all is_hex uuid ≡ true
    → (has_slash (generate_physical_path uuid path) ≡ has_slash (strip_slash path))
      × (has_slash (strip_slash path) || is_managed (generate_physical_path uuid path) ≡ true)
generate_physical_path_lem uuid path size hex =
    let p = strip_slash path in
    elim (Option-cases (last_index slash p)) [
      | inl flat ↦
          rw (generate_flat uuid path flat)
            (has_slash_named uuid p hex, ground (arith, managed_name uuid p size hex))
      | inr (i, nested) ↦ rw (generate_nested uuid path i nested) (
        ground (
          arith,
          has_slash_behind (take i p) (uuid ++ 95 ∷ basename p),
          last_index-some p i nested,
        ),
        ground (arith, last_index-some p i nested),
      )
    ]
