-- ===== src/Database/Placeholders.antt =====
-- database.cpp, build_where_clause: as many parameters as there are placeholders in the text.
use loglite.Prelude.{
  All, All-In, Bool-cases, In, List, NoByte, Text, [], arith, codes, count, count-append, inl, inr,
  length, length-append, refl, sym, text_eq, text_eq_iff, true, ℕ, ◌++◌, ◌∷◌, ◌≡◌,
}
use loglite.Json.{Json, QueryFilter}
use loglite.Utils.{range_contains}
use loglite.ColumnDict.{query_candidates}
use loglite.Database.{
  Catalog, allowed_ops, build_where_clause, clause, condition_params, condition_sql, id_params,
  is_compressed, marks,
}
use loglite.Database.Conditions.{
  IsUsable, all_params, and_conditions, build_where_clause-conjunction, conjunction,
}

count_none : (b : ℕ) (s : Text) → NoByte b s → count b s ≡ 0
count_none b [] h = refl
count_none b (c ∷ s) h = rw h.0 (omega (arith, count_none b s h.1))

range_contains-In : (r : List Text) (v : Text) → range_contains r v ≡ true → In v r
range_contains-In [] v h = cc
range_contains-In (x ∷ r) v h = elim (Bool-cases (text_eq x v)) [
  | inl e ↦ inl (sym ((text_eq_iff x v).0 e))
  | inr e ↦ inr (range_contains-In r v (rw e at h))
]

count_allowed : (op : Text) → In op allowed_ops → count b'?' op ≡ 0
count_allowed op i = All-In (λ o. count b'?' o ≡ 0) op allowed_ops (omega arith) i

count-marks : (ids : List ℕ) → count b'?' (marks ids) ≡ length ids
count-marks [] = refl
count-marks (id ∷ []) = refl
count-marks (id ∷ j ∷ ids) = omega (arith, count-marks (j ∷ ids))

length-id_params : (ids : List ℕ) → length (id_params ids) ≡ length ids
length-id_params [] = refl
length-id_params (id ∷ ids) = omega (arith, length-id_params ids)

module _ (dump : Json → Text) (c : Catalog) where
  abbrev pub PlainField : QueryFilter → Type 0
  PlainField f = NoByte b'?' f.field_name

  count-condition :
      (f : QueryFilter) (ids : List ℕ)
      → PlainField f
      → range_contains allowed_ops f.op ≡ true
      → count b'?' (condition_sql dump c f ids) ≡ length (condition_params dump c f ids)
  unfolding condition_sql condition_params
  count-condition f ids plain known =
      let field_free = count_none b'?' f.field_name plain in
      let op_free = count_allowed f.op (range_contains-In allowed_ops f.op known) in
      elim (Bool-cases (is_compressed c f.field_name)) [
        | inl e ↦ rw e (
            omega (
              arith,
              count-append b'?' f.field_name (codes " IN (" ++ (marks ids ++ codes ")")),
              count-append b'?' (marks ids) (codes ")"),
              count-marks ids,
              length-id_params ids,
              field_free,
            ))
        | inr e ↦ elim (Bool-cases (text_eq f.op (codes "~="))) [
          | inl k ↦
              rw (e, k)
                (omega (arith, count-append b'?' f.field_name (codes " LIKE ?"), field_free))
          | inr k ↦
              rw (e, k)
                (omega (
                  arith,
                  count-append b'?' f.field_name (codes " " ++ (f.op ++ codes " ?")),
                  count-append b'?' f.op (codes " ?"),
                  op_free,
                  field_free,
                ))
        ]
      ]

  count-and :
      (fs : List QueryFilter)
      → All (IsUsable dump c) fs
      → All PlainField fs
      → count b'?' (and_conditions dump c fs) ≡ length (all_params dump c fs)
  count-and [] u p = refl
  count-and (f ∷ fs) u p =
      let ids = query_candidates dump c.dictionary f in
      omega (
        arith,
        count-append b'?' (condition_sql dump c f ids) (and_conditions dump c fs),
        length-append (condition_params dump c f ids) (all_params dump c fs),
        count-condition f ids p.0 u.0.1,
        count-and fs u.1 p.1,
      )

  count-conjunction :
      (fs : List QueryFilter)
      → All (IsUsable dump c) fs
      → All PlainField fs
      → count b'?' (conjunction dump c fs) ≡ length (all_params dump c fs)
  count-conjunction [] u p = refl
  count-conjunction (f ∷ fs) u p =
      let ids = query_candidates dump c.dictionary f in
      omega (
        arith,
        count-append b'?' (condition_sql dump c f ids) (and_conditions dump c fs),
        length-append (condition_params dump c f ids) (all_params dump c fs),
        count-condition f ids p.0 u.0.1,
        count-and fs u.1 p.1,
      )

  -- The clause of usable filters has exactly one placeholder for each parameter, if no field's name
  -- has a question mark in it.
  pub build_where_clause-count :
      (fs : List QueryFilter)
      → All (IsUsable dump c) fs
      → All PlainField fs
      → (sql : Text) × (params : List Json) × (build_where_clause dump c fs ≡ clause sql params)
        × (count b'?' sql ≡ length params)
  build_where_clause-count fs u p = (
    conjunction dump c fs,
    all_params dump c fs,
    build_where_clause-conjunction dump c fs u,
    count-conjunction fs u p,
  )
