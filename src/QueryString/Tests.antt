-- ===== src/QueryString/Tests.antt =====
-- The parsers of a request at concrete inputs.
use loglite.Prelude.{List, Text, [], codes, map, refl, ◌∷◌, ◌≡◌}
use loglite.Json.{string}
use loglite.QueryString.{parse_query_filters, parse_query_string}
use loglite.QueryString.Pairs.{decode_pair, parse_query_string-join}
use loglite.QueryString.Filters.{ge, ne, parse_query_filters-join}

abbrev two_pairs : List (Text × Text)
two_pairs = (codes "a", codes "%41") ∷ (codes "b", codes "x=") ∷ []

parse_query_string-join_example :
    parse_query_string (codes "a=%41&b=x=") ≡ map decode_pair two_pairs
parse_query_string-join_example = parse_query_string-join two_pairs (
  ((refl, tt), (refl, tt), (refl, (refl, (refl, tt)))),
  (((refl, tt), (refl, tt), (refl, (refl, tt))), tt),
)

parse_query_filters-join_example :
    parse_query_filters (codes "level") (codes ">=3,!=a b")
    ≡ record { field_name = codes "level"; op = codes ">="; value = string (codes "3") }
      ∷ record { field_name = codes "level"; op = codes "!="; value = string (codes "a b") }
      ∷ []
parse_query_filters-join_example =
    parse_query_filters-join (codes "level") ((ge, codes "3") ∷ (ne, codes "a b") ∷ [])
      ((tt, (refl, tt), refl), ((tt, (refl, (refl, (refl, tt))), refl), tt))
