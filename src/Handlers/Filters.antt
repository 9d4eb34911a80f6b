-- ===== src/Handlers/Filters.antt =====
-- query.hpp, HandleQuery: the filters among the parameters of a request.
use loglite.Prelude.{
  All, Assoc, Bool-cases, List, Text, [], ap, false, inl, inr, is_empty, keep, not, refl, sym, ◌++◌,
  ◌∙◌, ◌∷◌, ◌≡◌, ◌⊎◌,
}
use loglite.Json.{QueryFilter}
use loglite.Utils.{range_contains}
use loglite.QueryString.{parse_query_filters}
use loglite.Handlers.Query.{collect_filters, query_names}

-- The parameters that are filters, and the filters that they make.
abbrev pub filter_params : Assoc Text → Assoc Text
filter_params = keep (λ p. not (range_contains query_names p.0))

abbrev pub all_filters : Assoc Text → List QueryFilter
all_filters [] = []
all_filters ((key, value) ∷ params) = parse_query_filters key value ++ all_filters params

abbrev pub HasFilter : Text × Text → Type 0
HasFilter p = is_empty (parse_query_filters p.0 p.1) ≡ false

pub ⊎-cases : {A B : Type 0} (s : A ⊎ B) → ((a : A) × (s ≡ inl a)) ⊎ ((b : B) × (s ≡ inr b))
⊎-cases (inl a) = inl (a, refl)
⊎-cases (inr b) = inr (b, refl)

pub inr_eq : {A B : Type 0} {x y : B} → ◌≡◌ {A = A ⊎ B} (inr x) (inr y) → x ≡ y
inr_eq h = cc

pub collect_filters_sound :
    (params : Assoc Text) (fs : List QueryFilter)
    → collect_filters params ≡ inr fs
    → All HasFilter (filter_params params) × (fs ≡ all_filters (filter_params params))
unfolding collect_filters
collect_filters_sound [] fs h = (tt, sym (inr_eq h))
collect_filters_sound ((key, value) ∷ params) fs h =
    elim (Bool-cases (range_contains query_names key)) [
      | inl k ↦ rw k (collect_filters_sound params fs (rw (k, collect_filters) at h))
      | inr k ↦ elim (Bool-cases (is_empty (parse_query_filters key value))) [
        | inl e ↦ absurd (cc (rw (k, e, collect_filters) at h))
        | inr e ↦ elim (⊎-cases (collect_filters params)) [
          | inl (bad, m) ↦ absurd (cc (rw (k, e, m, collect_filters) at h))
          | inr (gs, m) ↦
              let (readable, same) = collect_filters_sound params gs m in
              rw k (
                (e, readable),
                sym (inr_eq (rw (k, e, m, collect_filters) at h))
                    ∙ ap (◌++◌ (parse_query_filters key value)) same,
              )
        ]
      ]
    ]

pub collect_filters_complete :
    (params : Assoc Text)
    → All HasFilter (filter_params params)
    → collect_filters params ≡ inr (all_filters (filter_params params))
unfolding collect_filters
collect_filters_complete [] h = refl
collect_filters_complete ((key, value) ∷ params) h =
    elim (Bool-cases (range_contains query_names key)) [
      | inl k ↦ rw (k, collect_filters) (collect_filters_complete params (rw k at h))
      | inr k ↦
          let (readable, rest) = rw k at h in
          rw (k, readable, collect_filters, collect_filters_complete params rest) refl
    ]
