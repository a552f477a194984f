-- ===== src/Json.antt =====
-- The values that Python's `json` gives, with the tests and lookups that the program makes on them.
-- A number with a fraction is `real`: the program only sees that it is no integer.
use stardustfs.Prelude.{
  Text, Bool, true, false, Option, none, some, ◌==◌, text_eq, if◌then◌else◌, ℤ, pos,
}

mutual
  pub data Json : Type 0 where
    null real : Json
    boolean : Bool → Json
    integer : ℤ → Json
    text : Text → Json
    array : Items → Json
    object : Fields → Json

  pub data Items : Type 0 where
    nil : Items
    cons : Json → Items → Items

  pub data Fields : Type 0 where
    end : Fields
    field : Text → Json → Fields → Fields

-- `key in d` with the value.
unfoldable pub find_field : Text → Fields → Option Json
find_field key end = none
find_field key (field k v fs) = if k == key then some v else find_field key fs

-- `d.get(key, default)`
abbrev pub get_or : Json → Option Json → Json
get_or default none = default
get_or default (some v) = v

-- `d.get(key)`
unfoldable pub get : Text → Fields → Json
get key fs = get_or null (find_field key fs)

-- `d[key] = value`
unfoldable pub set_field : Text → Json → Fields → Fields
set_field key v end = field key v end
set_field key v (field k w fs) = if k == key then field key v fs else field k w (set_field key v fs)

-- `d.pop(key, None)`
unfoldable pub pop_field : Text → Fields → Fields
pop_field key end = end
pop_field key (field k v fs) =
    let rest = pop_field key fs in if k == key then fs else field k v rest

-- `isinstance(v, int)`, which a boolean passes as 0 or 1.
abbrev pub as_int : Json → Option ℤ
as_int (integer z) = some z
as_int (boolean true) = some (pos 1)
as_int (boolean false) = some (pos 0)
as_int _ = none

abbrev pub as_text : Json → Option Text
as_text (text t) = some t
as_text _ = none

abbrev pub as_object : Json → Option Fields
as_object (object fs) = some fs
as_object _ = none

abbrev pub as_items : Json → Option Items
as_items (array xs) = some xs
as_items _ = none

abbrev pub is_boolean : Json → Bool
is_boolean (boolean b) = true
is_boolean _ = false

-- `v is None`
abbrev pub is_null : Json → Bool
is_null null = true
is_null _ = false
