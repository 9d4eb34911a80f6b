-- ===== src/Burn/Typed.antt =====
-- burn/src/schema.hpp, BuildLogRecord: what the fields of a log are.
use loglite.Prelude.{
  All, Bool-cases, In, List, Text, [], ap, arith, codes, false, if◌then◌else◌, inl, inr, length,
  refl, some, suc, text_eq, text_eq_refl, zero, ℕ, ◌<◌, ◌∙◌, ◌∷◌, ◌≡◌, ◌≤◌,
}
use loglite.Prelude.Int.{pos, ℤ}
use loglite.Json.{
  Fields, Json, boolean, end, find_field, find_field-set_field, integer, null, object, set_field,
  string,
}
use loglite.Burn.Schema.{
  FieldKind, FieldSpec, bool_kind, level_kind, message_kind, null_kind, number_kind, text8_kind,
  utc_now_kind,
}
use loglite.Burn.Record.{
  CalendarTime, Random, alphabet, at_least_one, build_log_record, element_at, field_value, fill_row,
  non_info_levels, random_level, random_text, utc_iso8601,
}

abbrev pub IsLetter : ℕ → Type 0
IsLetter c = In c alphabet

-- What a field of this kind may hold.
abbrev pub HasKind : FieldKind → Json → Type 0
HasKind message_kind (string s) = All IsLetter s × (0 < length s)
HasKind level_kind (string s) = In s (codes "INFO" ∷ non_info_levels)
HasKind utc_now_kind (string s) = (t : CalendarTime) × (s ≡ utc_iso8601 t)
HasKind text8_kind (string s) = All IsLetter s × (length s ≡ 8)
HasKind number_kind (integer n) = Unit
HasKind null_kind null = Unit
HasKind bool_kind (boolean b) = Unit
HasKind _ _ = ⊥

abbrev pub IsBounded : {R D : Type 0} → Random R D → Type 0
IsBounded {R} random = (last : ℕ) (r : R) → (random.index last r).0 ≤ last

element_at-In :
    {A : Type 0} (xs : List A) (i : ℕ)
    → i < length xs
    → (x : A) × (element_at xs i ≡ some x) × In x xs
element_at-In [] i h = absurd (omega arith)
element_at-In (x ∷ xs) zero h = (x, refl, inl refl)
element_at-In (x ∷ xs) (suc i) h = let (y, e, m) = element_at-In xs i (omega arith) in (y, e, inr m)

-- The member of a row for a field of a plan.
abbrev pub Holds : Fields → FieldSpec → Type 0
Holds row f = (v : Json) × (find_field row f.name ≡ some v) × HasKind f.kind v

abbrev pub IsFresh : Text → List FieldSpec → Type 0
IsFresh name plan = All (λ (f : FieldSpec). text_eq f.name name ≡ false) plan

abbrev pub IsDistinct : List FieldSpec → Type 0
IsDistinct [] = Unit
IsDistinct (f ∷ plan) = IsFresh f.name plan × IsDistinct plan

at_least_one-pos : (z : ℤ) → 0 < at_least_one z
at_least_one-pos z = ground arith

module _ {R D : Type 0} (random : Random R D) (bounded : IsBounded random) where
  random_text-IsLetter :
      (len : ℕ) (r : R)
      → (s : Text) × (r' : R) × (random_text random len r ≡ some (s, r'))
        × All IsLetter s
        × (length s ≡ len)
  unfolding random_text
  random_text-IsLetter zero r = ([], r, refl, tt, refl)
  random_text-IsLetter (suc len) r =
      let (c, e, m) = element_at-In alphabet (random.index 61 r).0 (omega (arith, bounded 61 r)) in
      let (s, r', e', ms, n) = random_text-IsLetter len (random.index 61 r).1 in
      (c ∷ s, r', rw (random_text, e, e') refl, (m, ms), ap suc n)

  random_level-In :
      (ratio : D) (r : R)
      → (s : Text) × (r' : R) × (random_level random ratio r ≡ some (s, r'))
        × In s (codes "INFO" ∷ non_info_levels)
  unfolding random_level
  random_level-In ratio r = elim (Bool-cases (random.below ratio r).0) [
    | inl e ↦ (codes "INFO", (random.below ratio r).1, rw (random_level, e) refl, inl refl)
    | inr e ↦
        let r' = (random.below ratio r).1 in
        let (s, k, m) =
          element_at-In non_info_levels (random.index 3 r').0 (omega (arith, bounded 3 r')) in
        (s, (random.index 3 r').1, rw (random_level, e, k) refl, inr m)
  ]

  field_value-HasKind :
      (mean : ℕ) (ratio : D) (kind : FieldKind) (r : R)
      → (v : Json) × (r' : R) × (field_value random mean ratio kind r ≡ some (v, r'))
        × HasKind kind v
  unfolding field_value
  field_value-HasKind mean ratio message_kind r =
      let (z, r') = random.rounded_normal mean r in
      let (s, r'', e, ms, n) = random_text-IsLetter (at_least_one z) r' in
      (string s, r'', rw (field_value, e) refl, (ms, rw n (at_least_one-pos z)))
  field_value-HasKind mean ratio level_kind r =
      let (s, r', e, m) = random_level-In ratio r in (string s, r', rw (field_value, e) refl, m)
  field_value-HasKind mean ratio utc_now_kind r =
      let (t, r') = random.utc_now r in (string (utc_iso8601 t), r', refl, (t, refl))
  field_value-HasKind mean ratio text8_kind r =
      let (s, r', e, ms, n) = random_text-IsLetter 8 r in
      (string s, r', rw (field_value, e) refl, (ms, n))
  field_value-HasKind mean ratio number_kind r =
      let (n, r') = random.between (pos 10) (pos 500) r in (integer n, r', refl, tt)
  field_value-HasKind mean ratio null_kind r = (null, r, refl, tt)
  field_value-HasKind mean ratio bool_kind r =
      let (b, r') = random.below random.half r in (boolean b, r', refl, tt)

  fill_row-Holds :
      (mean : ℕ) (ratio : D) (plan : List FieldSpec) (row : Fields) (r : R)
      → IsDistinct plan
      → (row' : Fields) × (r' : R) × (fill_row random mean ratio plan row r ≡ some (row', r'))
        × All (Holds row') plan
        × ((name : Text) → IsFresh name plan → find_field row' name ≡ find_field row name)
  unfolding fill_row
  fill_row-Holds mean ratio [] row r d = (row, r, refl, tt, λ name h. refl)
  fill_row-Holds mean ratio (f ∷ plan) row r d =
      let (v, r', e, k) = field_value-HasKind mean ratio f.kind r in
      let (row', r'', e', held, others) =
        fill_row-Holds mean ratio plan (set_field row f.name v) r' d.1 in
      let set : find_field row' f.name ≡ some v =
        others f.name d.0
        ∙ find_field-set_field row f.name f.name v
        ∙ ap (λ b. if b then some v else find_field row f.name) (text_eq_refl f.name) in
      (
        row',
        r'',
        rw (fill_row, e) e',
        ((v, set, k), held),
        λ name h.
            others name h.1
            ∙ find_field-set_field row f.name name v
            ∙ ap (λ b. if b then some v else find_field row name) h.0,
      )

  -- Where the generator draws no index above the last, a log is built for every plan whose fields have
  -- different names: it has every field of the plan, with a value of the field's kind: a message of at
  -- least one letter or digit, one of the five levels, a text of eight letters or digits, the text of
  -- a time, a number, null or a Boolean.
  pub build_log_record-HasKind :
      (plan : List FieldSpec) (mean : ℕ) (ratio : D) (r : R)
      → IsDistinct plan
      → (row : Fields) × (r' : R) × (build_log_record random plan mean ratio r
          ≡ some (object row, r'))
        × All (Holds row) plan
  unfolding build_log_record
  build_log_record-HasKind plan mean ratio r d =
      let (row, r', e, held, others) = fill_row-Holds mean ratio plan end r d in
      (row, r', rw (build_log_record, e) refl, held)
