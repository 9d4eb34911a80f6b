-- ===== src/Reader/Names.antt =====
-- reader_database.cpp, Query: the names that the statement selects.
use loglite.Prelude.{
  All, Bool-cases, In, List, Option-cases, Text, [], ap, arith, if◌then◌else◌, inl, inr, refl, some,
  some_eq, subst, sym, text_eq_iff, true, ◌∷◌, ◌≡◌,
}
use loglite.Json.{ColumnInfo}
use loglite.Database.{known_field, pluck_column_names}
use loglite.Reader.{effective_fields, is_all, validated}

abbrev pub IsKnown : List ColumnInfo → Text → Type 0
IsKnown infos f = known_field infos f ≡ true

In-All : (P : Text → Type 0) (xs : List Text) → ((f : Text) → In f xs → P f) → All P xs
In-All P [] h = tt
In-All P (x ∷ xs) h = (h x (inl refl), In-All P xs (λ f i. h f (inr i)))

pluck_column_names-IsKnown :
    (infos : List ColumnInfo) (f : Text) → In f (pluck_column_names infos) → IsKnown infos f
pluck_column_names-IsKnown [] f i = elim i [ ]
pluck_column_names-IsKnown (ci ∷ infos) f (inl e) = ground (arith, text_eq_iff ci.name f)
pluck_column_names-IsKnown (ci ∷ infos) f (inr i) =
    ground (arith, pluck_column_names-IsKnown infos f i)

validated-IsKnown :
    (infos : List ColumnInfo) (fields gs : List Text)
    → validated infos fields ≡ some gs
    → (gs ≡ fields) × All (IsKnown infos) gs
validated-IsKnown infos [] gs h =
    subst (λ xs. (xs ≡ []) × All (IsKnown infos) xs) (some_eq h) (refl, tt)
validated-IsKnown infos (f ∷ fs) gs h = elim (Option-cases (validated infos fs)) [
  | inl e ↦ absurd (cc (rw (e, validated) at h))
  | inr (rest, e) ↦ elim (Bool-cases (known_field infos f)) [
    | inr k ↦ absurd (cc (rw (e, k, validated) at h))
    | inl k ↦
        let (same, all_known) = validated-IsKnown infos fs rest e in
        subst (λ xs. (xs ≡ f ∷ fs) × All (IsKnown infos) xs) (some_eq (rw (e, k, validated) at h))
          (ap (◌∷◌ f) same, (k, all_known))
  ]
]

-- Every name that Query selects is the name of a column, and the names are those that were asked
-- for, or all of the columns' when `*` alone was asked for; otherwise the query is refused.
pub effective_fields-IsKnown :
    (infos : List ColumnInfo) (fields gs : List Text)
    → effective_fields infos fields ≡ some gs
    → All (IsKnown infos) gs × (gs ≡ (if is_all fields then pluck_column_names infos else fields))
unfolding effective_fields
effective_fields-IsKnown infos fields gs h = elim (Bool-cases (is_all fields)) [
  | inl e ↦
      let same : pluck_column_names infos ≡ gs = some_eq (rw (e, effective_fields) at h) in
      rw e (
        subst (All (IsKnown infos)) same
            (In-All (IsKnown infos) (pluck_column_names infos) (pluck_column_names-IsKnown infos)),
        sym same,
      )
  | inr e ↦
      let (same, all_known) = validated-IsKnown infos fields gs (rw (e, effective_fields) at h) in
      rw e (all_known, same)
]
