-- ===== src/ColumnDict/Candidates.antt =====
-- column_dict.cpp, QueryCandidates: the ids by which a filter on a compressed column is answered.
use loglite.Prelude.{
  Assoc, Bool-cases, In, Option-cases, Text, [], arith, inl, inr, lookup, none, some, subst, sym,
  true, ℕ, ◌↔◌, ◌∷◌, ◌≡◌,
}
use loglite.Json.{Json, QueryFilter, text_of}
use loglite.ColumnDict.{LookupTable, column_map, matching_ids, query_candidates, value_matches}
use loglite.ColumnDict.Comparing.{Compares, Comparison, operator, value_matches_iff}
use loglite.ColumnDict.Distinct.{
  Distinct, In-lookup, column_map-none, column_map-some, find_value-lookup, lookup-In, not_coded,
}
use loglite.ColumnDict.Create.{IsCoded, find_id}

module _ (op fval : Text) where
  In-matching :
      (v : Text) (id : ℕ) (m : Assoc ℕ)
      → In (v, id) m
      → value_matches op fval v ≡ true
      → In id (matching_ids op fval m)
  In-matching v id [] i h = elim i [ ]
  In-matching v id ((w, j) ∷ m) (inl e) h =
      let same : w ≡ v = ground arith in rw (same, h) (inl (ground arith))
  In-matching v id ((w, j) ∷ m) (inr i) h = elim (Bool-cases (value_matches op fval w)) [
    | inl hit ↦ rw hit (inr (In-matching v id m i h))
    | inr miss ↦ rw miss (In-matching v id m i h)
  ]

  abbrev Match : ℕ → Assoc ℕ → Type 0
  Match id m = (v : Text) × In (v, id) m × (value_matches op fval v ≡ true)

  matching_head :
      (id : ℕ) (w : Text) (j : ℕ) (m : Assoc ℕ)
      → (In id (matching_ids op fval m) → Match id m)
      → value_matches op fval w ≡ true
      → In id (j ∷ matching_ids op fval m)
      → Match id ((w, j) ∷ m)
  matching_head id w j m rest hit (inl e) = (w, inl (ground arith), hit)
  matching_head id w j m rest hit (inr k) = let (v, at, good) = rest k in (v, inr at, good)

  matching-In : (id : ℕ) (m : Assoc ℕ) → In id (matching_ids op fval m) → Match id m
  matching-In id [] i = elim i [ ]
  matching-In id ((w, j) ∷ m) i = elim (Bool-cases (value_matches op fval w)) [
    | inl hit ↦ matching_head id w j m (matching-In id m) hit (rw hit at i)
    | inr miss ↦ let (v, at, good) = matching-In id m (rw miss at i) in (v, inr at, good)
  ]

-- Among the ids of one column no two stand for different values.
same_value :
    (v w : Text) (id : ℕ) (m : Assoc ℕ)
    → Distinct m
    → lookup v m ≡ some id
    → lookup w m ≡ some id
    → v ≡ w
same_value v w id m d hv hw =
    ground (arith, find_value-lookup v id m d hv, find_value-lookup w id m d hw)

module _ (dump : Json → Text) (t : LookupTable) (f : QueryFilter) where
  matching_iff :
      (v : Text) (id : ℕ) (m : Assoc ℕ)
      → Distinct m
      → lookup v m ≡ some id
      → In id (matching_ids f.op (text_of dump f.value) m)
        ↔ (value_matches f.op (text_of dump f.value) v ≡ true)
  matching_iff v id m d h = (
    λ i.
        let (w, at, good) = matching-In f.op (text_of dump f.value) id m i in
        let same : v ≡ w = same_value v w id m d h (lookup-In w id m d at) in rw same good,
    λ hit. In-matching f.op (text_of dump f.value) v id m (In-lookup v id m h) hit,
  )

  query_candidates-value_matches :
      (v : Text) (id : ℕ)
      → IsCoded t
      → find_id t f.field_name v ≡ some id
      → In id (query_candidates dump t f) ↔ (value_matches f.op (text_of dump f.value) v ≡ true)
  unfolding query_candidates
  query_candidates-value_matches v id coded h = elim (Option-cases (lookup f.field_name t)) [
    | inl e ↦ absurd (not_coded v id (rw (column_map-none t f.field_name e) at h))
    | inr (m, e) ↦
        let same : column_map t f.field_name ≡ m = column_map-some t f.field_name m e in
        rw (e, query_candidates)
          (matching_iff v id m (subst Distinct same (coded f.field_name))
            (subst (λ n. lookup v n ≡ some id) same h))
  ]

  -- For a value that its column codes by an id, that id is among the candidates of a filter on the
  -- column, by any of the seven operators, exactly when the value compares so with the filter's text:
  -- it is the same or another, it comes before or behind it in the order of a dictionary, or, for ~=,
  -- one of the two stands within the other.
  pub query_candidates_iff :
      (c : Comparison) (v : Text) (id : ℕ)
      → f.op ≡ operator c
      → IsCoded t
      → find_id t f.field_name v ≡ some id
      → In id (query_candidates dump t f) ↔ Compares c v (text_of dump f.value)
  query_candidates_iff c v id is_op coded h =
      let fval = text_of dump f.value in
      let (hit, candidate) = query_candidates-value_matches v id coded h in
      let (meant, matched) = value_matches_iff c fval v in
      (
        λ i. meant (subst (λ op. value_matches op fval v ≡ true) is_op (hit i)),
        λ k. candidate (subst (λ op. value_matches op fval v ≡ true) (sym is_op) (matched k)),
      )

  -- A filter on a column that the dictionary does not know has no candidates.
  pub query_candidates_unknown : lookup f.field_name t ≡ none → query_candidates dump t f ≡ []
  unfolding query_candidates
  query_candidates_unknown e = rw (e, query_candidates)
