-- ===== src/Database/Conditions.antt =====
-- database.cpp, build_where_clause, as the conjunction of its conditions.
use loglite.Prelude.{
  All, Bool-cases, List, Text, [], append-nil, append_assoc, arith, codes, false, if◌then◌else◌,
  inl, inr, is_empty, not, refl, true, ℕ, ◌&&◌, ◌++◌, ◌∙◌, ◌∷◌, ◌≡◌,
}
use loglite.Json.{Json, QueryFilter}
use loglite.Utils.{range_contains}
use loglite.ColumnDict.{query_candidates}
use loglite.Database.{
  Catalog, Where, allowed_ops, and_then, build_where_clause, clause, condition_params,
  condition_sql, is_compressed, known_field, marks, unknown_field, unknown_operator, where_from,
}

module _ (dump : Json → Text) (c : Catalog) where
  abbrev candidates : QueryFilter → List ℕ
  candidates f = query_candidates dump c.dictionary f

  -- A filter on a known field with a known operator, which some value of its column may satisfy.
  abbrev pub IsUsable : QueryFilter → Type 0
  IsUsable f =
      (known_field c.log_column_info f.field_name ≡ true)
      × (range_contains allowed_ops f.op ≡ true)
      × ((is_compressed c f.field_name && is_empty (candidates f)) ≡ false)

  abbrev pub and_conditions : List QueryFilter → Text
  and_conditions [] = []
  and_conditions (f ∷ fs) =
      codes " AND " ++ (condition_sql dump c f (candidates f) ++ and_conditions fs)

  -- The conditions of the filters, joined by AND; the trivial one if there are none.
  abbrev pub conjunction : List QueryFilter → Text
  conjunction [] = codes "1=1"
  conjunction (f ∷ fs) = condition_sql dump c f (candidates f) ++ and_conditions fs

  abbrev pub all_params : List QueryFilter → List Json
  all_params [] = []
  all_params (f ∷ fs) = condition_params dump c f (candidates f) ++ all_params fs

  nonempty-append : (s t : Text) → is_empty t ≡ false → is_empty (s ++ t) ≡ false
  nonempty-append [] t h = h
  nonempty-append (x ∷ s) t h = refl

  condition-nonempty :
      (f : QueryFilter) (ids : List ℕ) → is_empty (condition_sql dump c f ids) ≡ false
  unfolding condition_sql
  condition-nonempty f ids = ground (
    arith,
    nonempty-append f.field_name (codes " IN (" ++ (marks ids ++ codes ")")),
    nonempty-append f.field_name (codes " LIKE ?"),
    nonempty-append f.field_name (codes " " ++ (f.op ++ codes " ?")),
  )

  -- One usable filter, whatever has been built so far.
  where_from-usable :
      (sql : Text) (params : List Json) (f : QueryFilter) (fs : List QueryFilter)
      → IsUsable f
      → where_from dump c sql params (f ∷ fs)
        ≡ where_from dump c
            (and_then dump c sql ++ condition_sql dump c f (candidates f))
            (params ++ condition_params dump c f (candidates f))
            fs
  unfolding where_from
  where_from-usable sql params f fs u = rw (u.0, u.1, u.2) refl

  front_nonempty : (s t : Text) → is_empty s ≡ false → is_empty (s ++ t) ≡ false
  front_nonempty [] t h = cc
  front_nonempty (x ∷ s) t h = refl

  regroup :
      (sql cond rest : Text) (params ps qs : List Json)
      → clause (((sql ++ codes " AND ") ++ cond) ++ rest) ((params ++ ps) ++ qs)
        ≡ clause (sql ++ (codes " AND " ++ (cond ++ rest))) (params ++ (ps ++ qs))
  regroup sql cond rest params ps qs = simp append_assoc

  where_from-and :
      (sql : Text) (params : List Json) (fs : List QueryFilter)
      → is_empty sql ≡ false
      → All IsUsable fs
      → where_from dump c sql params fs
        ≡ clause (sql ++ and_conditions fs) (params ++ all_params fs)
  where_from-and sql params [] h u =
      unfold where_from in rw (h, append-nil sql, append-nil params) refl
  where_from-and sql params (f ∷ fs) h u =
      let cond = condition_sql dump c f (candidates f) in
      where_from-usable sql params f fs u.0
      ∙ rw h (
          where_from-and ((sql ++ codes " AND ") ++ cond)
            (params ++ condition_params dump c f (candidates f)) fs
            (nonempty-append (sql ++ codes " AND ") cond (condition-nonempty f (candidates f))) u.1
          ∙ regroup sql cond (and_conditions fs) params (condition_params dump c f (candidates f))
              (all_params fs))

  -- Usable filters make the conjunction of their conditions, in order, with their parameters.
  pub build_where_clause-conjunction :
      (fs : List QueryFilter)
      → All IsUsable fs
      → build_where_clause dump c fs ≡ clause (conjunction fs) (all_params fs)
  unfolding build_where_clause
  build_where_clause-conjunction [] u = unfold where_from in refl
  build_where_clause-conjunction (f ∷ fs) u =
      where_from-usable [] [] f fs u.0
      ∙ where_from-and (condition_sql dump c f (candidates f))
          (condition_params dump c f (candidates f)) fs (condition-nonempty f (candidates f)) u.1

  -- What the first filter that is not usable makes of the whole clause.
  abbrev pub verdict : QueryFilter → Where
  verdict f =
      if not (known_field c.log_column_info f.field_name)
      then unknown_field
      else if not (range_contains allowed_ops f.op)
      then unknown_operator
      else clause (codes "1=0") []

  stops :
      (sql : Text) (params : List Json) (g : QueryFilter) (gs : List QueryFilter)
      → ¬ IsUsable g
      → where_from dump c sql params (g ∷ gs) ≡ verdict g
  unfolding where_from
  stops sql params g gs bad = elim (Bool-cases (known_field c.log_column_info g.field_name)) [
    | inr e ↦ rw e refl
    | inl e ↦ elim (Bool-cases (range_contains allowed_ops g.op)) [
      | inr k ↦ rw (e, k) refl
      | inl k ↦ elim (Bool-cases (is_compressed c g.field_name && is_empty (candidates g))) [
        | inl h ↦ rw (e, k, h) refl
        | inr h ↦ absurd (bad (e, k, h))
      ]
    ]
  ]

  where_from-stops :
      (sql : Text) (params : List Json) (fs : List QueryFilter) (g : QueryFilter)
      (gs : List QueryFilter)
      → All IsUsable fs
      → ¬ IsUsable g
      → where_from dump c sql params (fs ++ g ∷ gs) ≡ verdict g
  where_from-stops sql params [] g gs u bad = stops sql params g gs bad
  where_from-stops sql params (f ∷ fs) g gs u bad =
      where_from-usable sql params f (fs ++ g ∷ gs) u.0
      ∙ where_from-stops (and_then dump c sql ++ condition_sql dump c f (candidates f))
          (params ++ condition_params dump c f (candidates f)) fs g gs u.1 bad

  -- The first filter that is not usable decides, whatever follows it: an unknown field or operator is
  -- an error, and a compressed column without candidates makes a clause that is never true.
  pub build_where_clause-verdict :
      (fs : List QueryFilter) (g : QueryFilter) (gs : List QueryFilter)
      → All IsUsable fs
      → ¬ IsUsable g
      → build_where_clause dump c (fs ++ g ∷ gs) ≡ verdict g
  unfolding build_where_clause
  build_where_clause-verdict fs g gs u bad = where_from-stops [] [] fs g gs u bad
