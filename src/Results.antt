-- ===== src/Results.antt =====
-- cpp/src/types.hpp: the results of the queries, and their JSON.
use loglite.Prelude.{List, Text, [], codes, ◌∷◌}
use loglite.Prelude.Int.{ℤ}
use loglite.Json.{Items, Json, array, cons, end, integer, nil, object, set_field}

pub record PaginatedQueryResult : Type 0 where
  pub total : ℤ
  pub offset : ℤ
  pub limit : ℤ
  pub results : List Json

abbrev pub json_array : List Json → Items
json_array [] = nil
json_array (v ∷ vs) = cons v (json_array vs)

unfoldable pub to_json : PaginatedQueryResult → Json
unfolding set_field
to_json r =
    let obj = set_field end (codes "total") (integer r.total) in
    let obj = set_field obj (codes "offset") (integer r.offset) in
    let obj = set_field obj (codes "limit") (integer r.limit) in
    object (set_field obj (codes "results") (array (json_array r.results)))

pub record StatsQueryResult : Type 0 where
  pub fields : List Text
  pub data_rows : List (List Json)
