-- ===== src/QueryString/Filters.antt =====
-- common.hpp, ParseQueryFilters: the operator and value of each filter in an expression.
use loglite.Prelude.{
  All, List, NoByte, Text, [], ap, append-nil, arith, codes, false, is_empty, length, length-append,
  map, refl, some, subst, suc, zero, ℕ, ◌++◌, ◌<◌, ◌==◌, ◌∙◌, ◌∷◌, ◌≡◌, ◌≤◌,
}
use loglite.Json.{QueryFilter, string}
use loglite.QueryString.{
  filter_ops, find_filters, match_op, parse_query_filters, trim_back, value_end,
}

pub data FilterOp : Type 0 where
  ge le ne like eq gt lt : FilterOp

abbrev pub op_text : FilterOp → Text
op_text ge = codes ">="
op_text le = codes "<="
op_text ne = codes "!="
op_text like = codes "~="
op_text eq = codes "="
op_text gt = codes ">"
op_text lt = codes "<"

-- A value that may follow the operator: no `=` may follow where that would make a longer one.
abbrev pub CanFollow : FilterOp → Text → Type 0
CanFollow gt (v ∷ val) = (b'=' == v) ≡ false
CanFollow lt (v ∷ val) = (b'=' == v) ≡ false
CanFollow _ (v ∷ val) = Unit {0}
CanFollow _ [] = ⊥

abbrev pub Readable : FilterOp × Text → Type 0
Readable t = CanFollow t.0 t.1 × NoByte b',' t.1 × (trim_back t.1 ≡ t.1)

abbrev pub join_filters : List (FilterOp × Text) → Text
join_filters [] = []
join_filters ((op, val) ∷ []) = op_text op ++ val
join_filters ((op, val) ∷ t ∷ ts) = op_text op ++ (val ++ b',' ∷ join_filters (t ∷ ts))

abbrev pub filter_of : Text → FilterOp × Text → QueryFilter
filter_of name t = record { field_name = name; op = op_text t.0; value = string t.1 }

abbrev EndsValue : Text → Type 0
EndsValue [] = Unit {0}
EndsValue (c ∷ s) = c ≡ b','

value_end-append :
    (val rest : Text) → NoByte b',' val → EndsValue rest → value_end (val ++ rest) ≡ (val, rest)
value_end-append [] [] h e = refl
value_end-append [] (c ∷ rest) h e = ground arith
value_end-append (c ∷ val) rest h e = ground (arith, value_end-append val rest h.1 e)

match_op-token :
    (op : FilterOp) (v : ℕ) (val rest : Text)
    → CanFollow op (v ∷ val)
    → value_end (v ∷ val ++ rest) ≡ (v ∷ val, rest)
    → match_op filter_ops (op_text op ++ (v ∷ val ++ rest)) ≡ some (op_text op, v ∷ val, rest)
match_op-token ge v val rest f h = rw h refl
match_op-token le v val rest f h = rw h refl
match_op-token ne v val rest f h = rw h refl
match_op-token like v val rest f h = rw h refl
match_op-token eq v val rest f h = rw h refl
match_op-token gt v val rest f h = rw (f, h) refl
match_op-token lt v val rest f h = rw (f, h) refl

find_filters-match :
    (fuel : ℕ) (name op val rest s : Text)
    → is_empty s ≡ false
    → match_op filter_ops s ≡ some (op, val, rest)
    → find_filters (suc fuel) name s
      ≡ record { field_name = name; op = op; value = string (trim_back val) }
        ∷ find_filters fuel name rest
unfolding find_filters
find_filters-match fuel name op val rest [] e h = cc
find_filters-match fuel name op val rest (c ∷ s) e h = rw (h, find_filters) refl

find_filters-comma :
    (fuel : ℕ) (name s : Text) → find_filters (suc fuel) name (b',' ∷ s) ≡ find_filters fuel name s
unfolding find_filters
find_filters-comma fuel name s = refl

find_filters-nil : (fuel : ℕ) (name : Text) → find_filters fuel name [] ≡ []
unfolding find_filters
find_filters-nil zero name = refl
find_filters-nil (suc fuel) name = refl

op_nonempty : (op : FilterOp) (s : Text) → is_empty (op_text op ++ s) ≡ false
op_nonempty ge s = refl
op_nonempty _ s = refl

op_length : (op : FilterOp) → 1 ≤ length (op_text op)
op_length ge = omega arith
op_length _ = omega arith

-- A token at the front, with nothing or a comma behind it.
find_filters-token :
    (fuel : ℕ) (name : Text) (op : FilterOp) (val rest : Text)
    → Readable (op, val)
    → EndsValue rest
    → find_filters (suc fuel) name (op_text op ++ (val ++ rest))
      ≡ filter_of name (op, val) ∷ find_filters fuel name rest
find_filters-token fuel name op [] rest r e = absurd (no_value op r.0)
  where
    no_value : (op : FilterOp) → ¬ CanFollow op []
    no_value ge f = f
    no_value gt f = f
    no_value lt f = f
    no_value _ f = f
find_filters-token fuel name op (v ∷ val) rest r e =
    find_filters-match fuel name (op_text op) (v ∷ val) rest (op_text op ++ (v ∷ val ++ rest))
      (op_nonempty op (v ∷ val ++ rest))
      (match_op-token op v val rest r.0 (value_end-append (v ∷ val) rest r.1 e))
    ∙ rw r.2 refl

find_filters-join :
    (fuel : ℕ) (name : Text) (ts : List (FilterOp × Text))
    → length (join_filters ts) < fuel
    → All Readable ts
    → find_filters fuel name (join_filters ts) ≡ map (filter_of name) ts
find_filters-join zero name ts short h = absurd (omega arith)
find_filters-join (suc fuel) name [] short h = find_filters-nil (suc fuel) name
find_filters-join (suc fuel) name ((op, val) ∷ []) short h =
    subst (λ t. find_filters (suc fuel) name (op_text op ++ t) ≡ filter_of name (op, val) ∷ [])
      (append-nil val)
      (find_filters-token fuel name op val [] h.0 tt
        ∙ ap (λ fs. filter_of name (op, val) ∷ fs) (find_filters-nil fuel name))
find_filters-join (suc zero) name ((op, val) ∷ t ∷ ts) short h =
    absurd (
      omega (arith, length-append (op_text op) (val ++ b',' ∷ join_filters (t ∷ ts)), op_length op))
find_filters-join (suc (suc fuel)) name ((op, val) ∷ t ∷ ts) short h =
    find_filters-token (suc fuel) name op val (b',' ∷ join_filters (t ∷ ts)) h.0 refl
    ∙ ap (λ fs. filter_of name (op, val) ∷ fs)
        (find_filters-comma fuel name (join_filters (t ∷ ts))
          ∙ find_filters-join fuel name (t ∷ ts)
              (omega (
                arith,
                length-append (op_text op) (val ++ b',' ∷ join_filters (t ∷ ts)),
                length-append val (b',' ∷ join_filters (t ∷ ts)),
                op_length op,
              ))
              h.1)

-- An expression that is a series of operators with their values, joined by commas, is read as those
-- filters, in order. A value is not empty, has no comma in it and no space at its end, and does not
-- begin with `=` behind `>` or `<`.
pub parse_query_filters-join :
    (name : Text) (ts : List (FilterOp × Text))
    → All Readable ts
    → parse_query_filters name (join_filters ts) ≡ map (filter_of name) ts
unfolding parse_query_filters
parse_query_filters-join name ts h =
    find_filters-join (suc (length (join_filters ts))) name ts (omega arith) h
