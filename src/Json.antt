-- ===== src/Json.antt =====
-- The JSON values that the program passes on (nlohmann::json), and types.hpp's data about queries,
-- columns, migrations and compression. A double is its bit pattern, which the program only passes
-- on. The text of a value, `dump`, is the JSON library's: it is a parameter where it is used.
use loglite.Prelude.{
  Bool, List, Option, Text, [], arith, false, if◌then◌else◌, none, refl, some, text_eq, text_eq_iff,
  text_ltb, true, ℕ, ◌∷◌, ◌≡◌,
}
use loglite.Prelude.Int.{ℤ}

mutual
  pub data Json : Type 0 where
    null : Json
    boolean : Bool → Json
    integer : ℤ → Json
    floating : ℕ → Json
    string : Text → Json
    array : Items → Json
    object : Fields → Json

  pub data Items : Type 0 where
    nil : Items
    cons : Json → Items → Items

  pub data Fields : Type 0 where
    end : Fields
    field : Text → Json → Fields → Fields

abbrev pub is_null : Json → Bool
is_null null = true
is_null _ = false

-- `v.is_string() ? v.get<std::string>() : v.dump()`
abbrev pub text_of : (Json → Text) → Json → Text
text_of dump (string s) = s
text_of dump v = dump v

unfoldable pub find_field : Fields → Text → Option Json
find_field end k = none
find_field (field j v fs) k = if text_eq j k then some v else find_field fs k

-- `log.find(name)`: what is no object has no members.
unfoldable pub find : Json → Text → Option Json
unfolding find_field
find (object fs) k = find_field fs k
find _ k = none

pub record QueryFilter : Type 0 where
  pub field_name : Text
  pub op : Text
  pub value : Json

pub record ColumnInfo : Type 0 where
  pub name : Text
  pub type : Text
  pub not_null : Bool
  pub is_pk : Bool

pub record Migration : Type 0 where
  pub version : ℤ
  pub rollout : List Text
  pub rollback : List Text

-- `o[k] = v` on an object, whose members are kept in the order of their keys.
unfoldable pub set_field : Fields → Text → Json → Fields
set_field end k v = field k v end
set_field (field j w fs) k v =
    if text_eq j k
    then field k v fs
    else if text_ltb k j
    then field k v (field j w fs)
    else field j w (set_field fs k v)

-- The members of an object that is written out; of two with the same key the first counts.
unfoldable pub members : List (Text × Json) → Fields
unfolding set_field
members [] = end
members ((k, v) ∷ ms) = set_field (members ms) k v

pub find_field-set_field :
    (fs : Fields) (k j : Text) (v : Json)
    → find_field (set_field fs k v) j ≡ (if text_eq k j then some v else find_field fs j)
unfolding find_field set_field
find_field-set_field end k j v = refl
find_field-set_field (field i w fs) k j v =
    ground (arith, find_field-set_field fs k j v, text_eq_iff i k, text_eq_iff i j, text_eq_iff k j)
