-- ===== src/QueryString.antt =====
-- cpp/src/handlers/common.hpp: the target of a request, its parameters, and the expressions that
-- filter a query. A multimap is the list of its entries in the order of the text.
pub mod Pairs
mod IntParam
mod Filters
mod Tests
use loglite.Prelude.{
  Bool, List, Option, Text, [], codes, drop, find_char, if◌then◌else◌, is_empty, length, none, not,
  some, starts_with, suc, take, true, zero, ℕ, ◌&&◌, ◌++◌, ◌+◌, ◌==◌, ◌||◌, ◌∷◌,
}
use loglite.Prelude.Int.{ℤ}
use loglite.Json.{QueryFilter, string}
use loglite.Utils.{Number, invalid, is_digit, number, out_of_range, stoi, url_decode}

unfoldable pub split_url_target : Text → Text × Text
split_url_target target = elim (find_char b'?' target) [
  | none ↦ (target, [])
  | some q ↦ (take q target, drop (q + 1) target)
]

-- One `key=value`, or nothing where there is no `=`.
unfoldable pub parse_pair : Text → List (Text × Text)
parse_pair pair = elim (find_char b'=' pair) [
  | none ↦ []
  | some e ↦ (url_decode (take e pair), url_decode (drop (e + 1) pair)) ∷ []
]

-- One round takes the text up to the next `&`; the fuel bounds the rounds.
pub parse_pairs : ℕ → Text → List (Text × Text)
unfolding parse_pair
parse_pairs zero qs = []
parse_pairs (suc fuel) [] = []
parse_pairs (suc fuel) (c ∷ qs) = elim (find_char b'&' (c ∷ qs)) [
  | none ↦ parse_pair (c ∷ qs)
  | some a ↦ parse_pair (take a (c ∷ qs)) ++ parse_pairs fuel (drop (a + 1) (c ∷ qs))
]

-- The pairs in the order in which they are emplaced. The order in which the multimap hands them out is
-- not fixed, and an argument of what walks it.
unfoldable pub parse_query_string : Text → List (Text × Text)
unfolding parse_pairs
parse_query_string qs = parse_pairs (suc (length qs)) qs

abbrev all_digits_or_minus : Text → Bool
all_digits_or_minus [] = true
all_digits_or_minus (c ∷ s) = (is_digit c || (c == b'-')) && all_digits_or_minus s

abbrev as_option : Number → Option ℤ
as_option (number n) = some n
as_option invalid = none
as_option out_of_range = none

unfoldable pub parse_int_param : Text → Option ℤ
unfolding stoi
parse_int_param s =
    if is_empty s then none else if not (all_digits_or_minus s) then none else as_option (stoi s)

-- The operators, in the order in which the regular expression tries them.
abbrev pub filter_ops : List Text
filter_ops =
    codes ">=" ∷ codes "<=" ∷ codes "!=" ∷ codes "~=" ∷ codes "=" ∷ codes ">" ∷ codes "<" ∷ []

-- `[^,]+`, as much as there is: the value and what follows it.
abbrev pub value_end : Text → Text × Text
value_end [] = ([], [])
value_end (c ∷ s) = if c == b',' then ([], c ∷ s) else (c ∷ (value_end s).0, (value_end s).1)

-- A match at this place: an operator, a value with at least one character, and the rest. An operator
-- that no value follows fails, and the next alternative is tried.
abbrev pub match_op : List Text → Text → Option (Text × Text × Text)
match_op [] s = none
match_op (op ∷ ops) s =
    if starts_with op s && not (is_empty (value_end (drop (length op) s)).0)
    then some (op, (value_end (drop (length op) s)).0, (value_end (drop (length op) s)).1)
    else match_op ops s

-- `while (!val.empty() && val.back() == ' ') val.pop_back()`
abbrev pub trim_back : Text → Text
trim_back [] = []
trim_back (c ∷ s) = if is_empty (trim_back s) && (c == 32) then [] else c ∷ trim_back s

-- The iterator: the next match at this place or later, then on from its end. Each round takes at
-- least one character; the fuel bounds the rounds.
pub find_filters : ℕ → Text → Text → List QueryFilter
find_filters zero name s = []
find_filters (suc fuel) name [] = []
find_filters (suc fuel) name (c ∷ s) = elim (match_op filter_ops (c ∷ s)) [
  | none ↦ find_filters fuel name s
  | some (op, val, rest) ↦
      record { field_name = name; op = op; value = string (trim_back val) }
      ∷ find_filters fuel name rest
]

unfoldable pub parse_query_filters : Text → Text → List QueryFilter
unfolding find_filters
parse_query_filters name expr = find_filters (suc (length expr)) name expr
