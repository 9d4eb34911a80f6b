-- ===== src/Yaml.antt =====
-- cpp/src/config.cpp, lines 61 to 164: how a value of the configuration is made from the text of an
-- environment variable, and from a node of the YAML document. The document is yaml-cpp's: a record
-- of its operations, each with the exception (`none`) that it may throw.
use loglite.Prelude.{
  Assoc, Bool, List, Option, Text, [], codes, drop, false, find_char, if◌then◌else◌, insert, leb,
  ltb, map, none, not, some, starts_with, suc, take, text_eq, zero, ℕ, ◌%◌, ◌&&◌, ◌+◌, ◌-◌, ◌/◌,
  ◌>>=◌, ◌||◌, ◌∷◌,
}
use loglite.Prelude.Int.{negsuc, pos, to_signed, ℤ}
use loglite.Json.{Migration}
use loglite.Utils.{invalid, number, out_of_range, stoll}

pub record Yaml (N : Type 0) : Type 0 where
  -- `node[key]`: the exception of a scalar, or the child, if there is one.
  pub child : N → Text → Option (Option N)
  pub is_map : N → Bool
  pub is_sequence : N → Bool
  pub elements : N → List N
  pub entries : N → List (N × N)
  -- `node.as<T>()`
  pub as_string : N → Option Text
  pub as_bool : N → Option Bool
  pub as_int64 : N → Option ℤ

abbrev pub to_lower : ℕ → ℕ
to_lower c = if leb b'A' c && leb c b'Z' then c + 32 else c

abbrev pub lower : Text → Text
lower = map to_lower

-- A function that may throw, on each element in order.
abbrev pub map_all : {A B : Type 0} → (A → Option B) → List A → Option (List B)
map_all f [] = some []
map_all f (x ∷ xs) = do y ← f x; ys ← map_all f xs; some (y ∷ ys)

-- `from_string<T>` for text and paths, for bool, and for an integer type, by its conversion.
abbrev pub text_from_string : Text → Option Text
text_from_string s = some s

abbrev pub bool_from_string : Text → Option Bool
bool_from_string s =
    let lc = lower s in
    some (text_eq lc (codes "true") || (text_eq lc (codes "1") || text_eq lc (codes "yes")))

abbrev pub int_from_string : {T : Type 0} → (ℤ → T) → Text → Option T
int_from_string cast s = elim (stoll s) [
  | number n ↦ some (cast n)
  | invalid ↦ none
  | out_of_range ↦ none
]

-- One variable of the environment: its key behind the prefix in lower case, and its value.
unfoldable pub env_override : Text → Option (Text × Text)
env_override entry =
    if not (starts_with (codes "LOGLITE_") entry) then none else elim (find_char b'=' entry) [
      | none ↦ none
      | some eq ↦ some (lower (take (eq - 8) (drop 8 entry)), drop (eq + 1) entry)
    ]

-- The loop over the environment; a later entry replaces an earlier one of the same key.
unfoldable pub env_overrides : Assoc Text → List Text → Assoc Text
unfolding env_override insert
env_overrides out [] = out
env_overrides out (entry ∷ environ) = elim (env_override entry) [
  | none ↦ env_overrides out environ
  | some (key, value) ↦ env_overrides (insert key value out) environ
]

unfoldable pub read_env_overrides : List Text → Assoc Text
unfolding env_overrides
read_env_overrides = env_overrides []

-- `std::to_string` on a number: its decimal digits, each round one digit less. The fuel bounds the
-- digits; 20 are enough for 64 bits.
abbrev pub digits : ℕ → ℕ → Text → Text
digits zero n acc = acc
digits (suc fuel) n acc =
    let more = digits fuel (n / 10) ((b'0' + n % 10) ∷ acc) in
    if ltb n 10 then (b'0' + n) ∷ acc else more

unfoldable pub to_string : ℤ → Text
to_string (pos n) = digits 20 n []
to_string (negsuc n) = b'-' ∷ digits 20 (suc n) []

module _ {N : Type 0} (yaml : Yaml N) where
  -- `from_yaml<T>`, for each type of a member.
  unfoldable pub text_from_yaml : N → Option Text
  unfolding to_string
  text_from_yaml node = elim (yaml.as_string node) [
    | some s ↦ some s
    | none ↦ elim (yaml.as_int64 node) [ none ↦ none | some n ↦ some (to_string n) ]
  ]

  abbrev pub path_from_yaml : N → Option Text
  path_from_yaml node = yaml.as_string node

  abbrev pub bool_from_yaml : N → Option Bool
  bool_from_yaml node = yaml.as_bool node

  abbrev pub int_from_yaml : {T : Type 0} → (ℤ → T) → N → Option T
  int_from_yaml cast node = do n ← yaml.as_int64 node; some (cast n)

  abbrev pub fill_map : Assoc Text → List (N × N) → Option (Assoc Text)
  fill_map m [] = some m
  fill_map m ((k, v) ∷ kvs) = do
    key ← yaml.as_string k
    value ← yaml.as_string v
    fill_map (insert key value m) kvs

  abbrev pub map_from_yaml : N → Option (Assoc Text)
  map_from_yaml node = if yaml.is_map node then fill_map [] (yaml.entries node) else some []

  abbrev pub list_from_yaml : {T : Type 0} → (N → Option T) → N → Option (List T)
  list_from_yaml read node =
      if yaml.is_sequence node then map_all read (yaml.elements node) else some []

  -- A member: it keeps its value where the node has no such key.
  unfoldable pub member : {T : Type 0} → (N → Option T) → N → Text → T → Option T
  member read node key current = elim (yaml.child node key) [
    | none ↦ none
    | some none ↦ some current
    | some (some child) ↦ read child
  ]

  -- `load_yaml_map` on a fresh struct: nothing is set where the node is no map.
  abbrev pub compression_from_yaml : N → Option (Bool × List Text)
  compression_from_yaml node = if not (yaml.is_map node) then some (false, []) else do
    enabled ← member bool_from_yaml node (codes "enabled") false
    columns ← member (list_from_yaml text_from_yaml) node (codes "columns") []
    some (enabled, columns)

  abbrev pub migration_from_yaml : N → Option Migration
  migration_from_yaml node =
      if not (yaml.is_map node)
      then some (record { version = pos 0; rollout = []; rollback = [] })
      else do
        version ← member (int_from_yaml (to_signed 32)) node (codes "version") (pos 0)
        rollout ← member (list_from_yaml text_from_yaml) node (codes "rollout") []
        rollback ← member (list_from_yaml text_from_yaml) node (codes "rollback") []
        some (record { version = version; rollout = rollout; rollback = rollback })
