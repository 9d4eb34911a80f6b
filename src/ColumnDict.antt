-- ===== src/ColumnDict.antt =====
-- cpp/src/column_dict.hpp and column_dict.cpp: the dictionary that maps the values of a compressed
-- column to small integers. `get_or_create` holds the exclusive lock from end to end, so it is one
-- step; the order of an unordered map is taken to be the order of insertion. `S` is whatever the
-- callback that persists an entry changes.
pub mod Distinct
pub mod Create
mod Comparing
mod Candidates
mod Tests
use loglite.Prelude.{
  Assoc, Bool, List, Option, Text, [], codes, contains, false, if◌then◌else◌, insert, lookup, ltb,
  max, none, not, some, text_eq, text_ltb, true, ℕ, ◌+◌, ◌==◌, ◌||◌, ◌∷◌,
}
use loglite.Json.{Json, QueryFilter, text_of}

-- column → { value → id }
abbrev pub LookupTable : Type 0
LookupTable = Assoc (Assoc ℕ)

abbrev pub PersistFn : Type 0 → Type 0
PersistFn S = S → Text → Text → ℕ → Bool × S

-- `get_or_create` returns an id or throws; the id after the largest `int` is undefined.
pub data Outcome : Type 0 where
  returned : ℕ → Outcome
  threw overflowed : Outcome

pub data Found : Type 0 where
  value : Text → Found
  unknown_column no_value : Found

abbrev pub max_value_id : ℕ
max_value_id = 2147483647

-- `lookup_[col]`: an absent column reads as an empty map.
abbrev pub column_map : LookupTable → Text → Assoc ℕ
column_map t col = elim (lookup col t) [ none ↦ [] | some m ↦ m ]

abbrev pub max_id : Assoc ℕ → ℕ
max_id [] = 0
max_id ((v, id) ∷ m) = max id (max_id m)

unfoldable pub new_id : Assoc ℕ → ℕ
new_id [] = 1
new_id ((v, id) ∷ m) = max_id ((v, id) ∷ m) + 1

module _ {S : Type 0} where
  -- `if (persist_) { if (!persist_(…)) throw }`
  abbrev pub run_persist : Option (PersistFn S) → S → Text → Text → ℕ → Bool × S
  run_persist none s col v id = (true, s)
  run_persist (some persist) s col v id = persist s col v id

  -- The part behind the search, on the table in which the column has its entry.
  unfoldable pub create :
      Option (PersistFn S) → LookupTable → Assoc ℕ → S → Text → Text → Outcome × LookupTable × S
  unfolding new_id
  create persist t m s col v =
      let id = new_id m in
      if ltb max_value_id id
      then (overflowed, t, s)
      else let (done, s') = run_persist persist s col v id in
        if done then (returned id, insert col (insert v id m) t, s') else (threw, t, s')

  unfoldable pub get_or_create :
      Option (PersistFn S) → LookupTable → S → Text → Text → Outcome × LookupTable × S
  unfolding create
  get_or_create persist t s col v =
      let m = column_map t col in
      let t' = insert col m t in
      elim (lookup v m) [ some id ↦ (returned id, t', s) | none ↦ create persist t' m s col v ]

abbrev pub find_value : Assoc ℕ → ℕ → Option Text
find_value [] id = none
find_value ((v, vid) ∷ m) id = if vid == id then some v else find_value m id

abbrev found : Option Text → Found
found none = no_value
found (some v) = value v

unfoldable pub get_value : LookupTable → Text → ℕ → Found
get_value t col id = elim (lookup col t) [
  | none ↦ unknown_column
  | some m ↦ found (find_value m id)
]

-- The comparison of a stored value with the filter's text; any other operator matches nothing.
unfoldable pub value_matches : Text → Text → Text → Bool
value_matches op fval v =
    if text_eq op (codes "~=")
    then contains fval v || contains v fval
    else if text_eq op (codes "=")
    then text_eq v fval
    else if text_eq op (codes "!=")
    then not (text_eq v fval)
    else if text_eq op (codes ">")
    then text_ltb fval v
    else if text_eq op (codes ">=")
    then not (text_ltb v fval)
    else if text_eq op (codes "<")
    then text_ltb v fval
    else if text_eq op (codes "<=")
    then not (text_ltb fval v)
    else false

abbrev pub matching_ids : Text → Text → Assoc ℕ → List ℕ
matching_ids op fval [] = []
matching_ids op fval ((v, id) ∷ m) =
    if value_matches op fval v then id ∷ matching_ids op fval m else matching_ids op fval m

unfoldable pub query_candidates : (Json → Text) → LookupTable → QueryFilter → List ℕ
query_candidates dump t f = elim (lookup f.field_name t) [
  | none ↦ []
  | some m ↦ matching_ids f.op (text_of dump f.value) m
]
