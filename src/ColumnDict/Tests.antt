-- ===== src/ColumnDict/Tests.antt =====
-- The dictionary at concrete inputs.
use loglite.Prelude.{
  Bool-cases, In, Text, [], arith, codes, false, if◌then◌else◌, inl, inr, lookup, ltb, refl, some,
  text_eq, text_eq_iff, true, ℕ, ◌+◌, ◌↔◌, ◌∷◌, ◌≡◌, ◌≢◌,
}
use loglite.Json.{Json, QueryFilter, string}
use loglite.ColumnDict.{
  LookupTable, PersistFn, create, get_or_create, get_value, new_id, query_candidates, returned,
  threw, value, value_matches,
}
use loglite.ColumnDict.Create.{IsCoded, Kept, find_id, get_value-get_or_create}
use loglite.ColumnDict.Comparing.{Compares, like}
use loglite.ColumnDict.Candidates.{query_candidates_iff}

-- Counts the entries that it persists, and takes two at most.
abbrev two_entries : PersistFn ℕ
two_entries n col v id = if ltb n 2 then (true, n + 1) else (false, n)

abbrev levels : LookupTable
levels = (codes "level", (codes "INFO", 1) ∷ (codes "WARN", 2) ∷ []) ∷ []

apart : false ≢ true
apart h = cc

different : codes "INFO" ≢ codes "WARN"
different k = apart ((text_eq_iff (codes "INFO") (codes "WARN")).1 k)

levels-IsCoded : IsCoded levels
levels-IsCoded c = elim (Bool-cases (text_eq (codes "level") c)) [
  | inl e ↦ unfold lookup in rw e (((different, omega arith), tt), (tt, tt))
  | inr e ↦ unfold lookup in rw e tt
]

get_value-get_or_create_example :
    IsCoded (get_or_create (some two_entries) levels 0 (codes "level") (codes "ERROR")).1
    × (get_value
          (get_or_create (some two_entries) levels 0 (codes "level") (codes "ERROR")).1
          (codes "level")
          3
        ≡ value (codes "ERROR"))
    × (find_id
          (get_or_create (some two_entries) levels 0 (codes "level") (codes "ERROR")).1
          (codes "level")
          (codes "ERROR")
        ≡ some 3)
    × Kept
        (some two_entries)
        levels
        0
        (codes "level")
        (codes "ERROR")
        (get_or_create (some two_entries) levels 0 (codes "level") (codes "ERROR")).1
get_value-get_or_create_example =
    get_value-get_or_create (some two_entries) levels 0 (codes "level") (codes "ERROR") 3
      levels-IsCoded (unfold get_or_create lookup in refl)

not_returned : (id : ℕ) → threw ≢ returned id
not_returned id h = cc

refused :
    (id : ℕ)
    → (get_or_create (some two_entries) levels 2 (codes "level") (codes "ERROR")).0 ≢ returned id
unfolding get_or_create create new_id lookup
refused id = not_returned id

abbrev dump_none : Json → Text
dump_none v = []

abbrev like_in : QueryFilter
like_in = record { field_name = codes "level"; op = codes "~="; value = string (codes "IN") }

query_candidates_iff_example :
    In 1 (query_candidates dump_none levels like_in) ↔ Compares like (codes "INFO") (codes "IN")
query_candidates_iff_example =
    query_candidates_iff dump_none levels like_in like (codes "INFO") 1 refl levels-IsCoded
      (unfold lookup in refl)

query_like : query_candidates dump_none levels like_in ≡ 1 ∷ []
unfolding query_candidates lookup value_matches
query_like = refl

-- A value that stands within the filter's text is found by ~= too.
abbrev like_info : QueryFilter
like_info = record { field_name = codes "level"; op = codes "~="; value = string (codes "INFORM") }

query_reverse : query_candidates dump_none levels like_info ≡ 1 ∷ []
unfolding query_candidates lookup value_matches
query_reverse = refl
