-- ===== src/ColumnDict/Create.antt =====
-- column_dict.cpp, GetOrCreate and GetValue together.
use loglite.Prelude.{
  Assoc, Bool, Bool-cases, Option, Option-cases, Text, arith, false, if◌then◌else◌, inl, inr,
  insert, lookup, lookup-insert, ltb, none, refl, some, subst, text_eq, text_eq_iff, text_eq_refl,
  true, ℕ, ◌≡◌, ◌≢◌, ◌⊎◌,
}
use loglite.ColumnDict.{
  LookupTable, Outcome, PersistFn, column_map, create, get_or_create, get_value, max_value_id,
  new_id, overflowed, returned, run_persist, threw, value,
}
use loglite.ColumnDict.Distinct.{
  Distinct, Distinct-insert, column_map-none, column_map-some, find_value-lookup, not_coded,
}

-- Every column is coded without ambiguity.
abbrev pub IsCoded : LookupTable → Type 0
IsCoded t = (c : Text) → Distinct (column_map t c)

abbrev pub find_id : LookupTable → Text → Text → Option ℕ
find_id t c v = lookup v (column_map t c)

pub column_map-insert :
    (c d : Text) (m : Assoc ℕ) (t : LookupTable)
    → column_map (insert c m t) d ≡ (if text_eq c d then m else column_map t d)
column_map-insert c d m t = ground (arith, lookup-insert c d m t)

with_flag : {S : Type 0} (r : Bool × S) (b : Bool) → r.0 ≡ b → r ≡ (b, r.1)
with_flag r b h = ground arith

pub get_value-find_id :
    (t : LookupTable) (col v : Text) (id : ℕ)
    → IsCoded t
    → find_id t col v ≡ some id
    → get_value t col id ≡ value v
unfolding get_value
get_value-find_id t col v id coded h = elim (Option-cases (lookup col t)) [
  | inl e ↦ absurd (not_coded v id (subst (λ m. lookup v m ≡ some id) (column_map-none t col e) h))
  | inr (m, e) ↦
      let same : column_map t col ≡ m = column_map-some t col m e in
      rw
        (
          e,
          get_value,
          find_value-lookup v id m (subst Distinct same (coded col))
              (subst (λ m'. lookup v m' ≡ some id) same h),
        )
        refl
]

module _ {S : Type 0} (persist : Option (PersistFn S)) (t : LookupTable) (s : S)
    (col v : Text) where
  abbrev pub touched : LookupTable
  touched = insert col (column_map t col) t

  abbrev pub extended : LookupTable
  extended = insert col (insert v (new_id (column_map t col)) (column_map t col)) touched

  pub column_map-touched : (c : Text) → column_map touched c ≡ column_map t c
  column_map-touched c =
      ground (arith, column_map-insert col c (column_map t col) t, text_eq_iff col c)

  pub column_map-extended :
      (c : Text)
      → column_map extended c ≡ (
          if text_eq col c
          then insert v (new_id (column_map t col)) (column_map t col)
          else column_map t c)
  column_map-extended c = ground (
    arith,
    column_map-insert col c (insert v (new_id (column_map t col)) (column_map t col)) touched,
    column_map-touched c,
  )

  -- The three ways in which a call ends.
  pub data Ending : Outcome × LookupTable × S → Type 0 where
    known : (id : ℕ) → lookup v (column_map t col) ≡ some id → Ending (returned id, touched, s)
    made :
        (s' : S)
        → lookup v (column_map t col) ≡ none
        → run_persist persist s col v (new_id (column_map t col)) ≡ (true, s')
        → Ending (returned (new_id (column_map t col)), extended, s')
    failed :
        (o : Outcome) (s' : S)
        → ((id : ℕ) → o ≢ returned id)
        → (s' ≡ s) ⊎ (run_persist persist s col v (new_id (column_map t col)) ≡ (false, s'))
        → Ending (o, touched, s')

  create-Ending :
      lookup v (column_map t col) ≡ none
      → Ending (create persist touched (column_map t col) s col v)
  unfolding create
  create-Ending e = elim (Bool-cases (ltb max_value_id (new_id (column_map t col)))) [
    | inl big ↦ rw (big, create) (failed overflowed s (λ id. cc) (inl refl))
    | inr fits ↦ elim (Bool-cases (run_persist persist s col v (new_id (column_map t col))).0) [
      | inl done ↦
          rw (fits, done, create)
            (made (run_persist persist s col v (new_id (column_map t col))).1 e
              (with_flag _ true done))
      | inr not_done ↦
          rw (fits, not_done, create)
            (failed threw (run_persist persist s col v (new_id (column_map t col))).1 (λ id. cc)
              (inr (with_flag _ false not_done)))
    ]
  ]

  pub get_or_create-Ending : Ending (get_or_create persist t s col v)
  unfolding get_or_create
  get_or_create-Ending = elim (Option-cases (lookup v (column_map t col))) [
    | inl e ↦ rw (e, get_or_create) (create-Ending e)
    | inr (id, e) ↦ rw (e, get_or_create) (known id e)
  ]

  lookup-extended :
      lookup v (insert v (new_id (column_map t col)) (column_map t col))
      ≡ some (new_id (column_map t col))
  lookup-extended = rw (lookup-insert, text_eq_refl v) refl

  -- What holds of the outcome and of the table behind it.
  abbrev pub Kept : LookupTable → Type 0
  Kept t' = (c w : Text) (i : ℕ) → find_id t c w ≡ some i → find_id t' c w ≡ some i

  Ending-IsCoded : (r : Outcome × LookupTable × S) → Ending r → IsCoded t → IsCoded r.1
  Ending-IsCoded r (known j e) coded c = rw (column_map-touched c) (coded c)
  Ending-IsCoded r (made s' e persisted) coded c =
      rw (column_map-extended c) (elim (Bool-cases (text_eq col c)) [
        | inl eq ↦ rw eq (Distinct-insert v (column_map t col) (coded col) e)
        | inr ne ↦ rw ne (coded c)
      ])
  Ending-IsCoded r (failed o s' never why) coded c = rw (column_map-touched c) (coded c)

  Ending-Kept : (r : Outcome × LookupTable × S) → Ending r → Kept r.1
  Ending-Kept r (known j e) c w i k = rw (column_map-touched c) k
  Ending-Kept r (made s' e persisted) c w i k = ground (
    arith,
    column_map-extended c,
    text_eq_iff col c,
    k,
    e,
    text_eq_iff v w,
    lookup-insert v w (new_id (column_map t col)) (column_map t col),
  )
  Ending-Kept r (failed o s' never why) c w i k = rw (column_map-touched c) k

  Ending-returned :
      (r : Outcome × LookupTable × S) (id : ℕ)
      → Ending r
      → r.0 ≡ returned id
      → find_id r.1 col v ≡ some id
  Ending-returned r id (known j e) h =
      let same : j ≡ id = ground arith in rw (column_map-touched, ← same) e
  Ending-returned r id (made s' e persisted) h =
      let same : new_id (column_map t col) ≡ id = ground arith in
      rw (← same, column_map-extended col, text_eq_refl col) lookup-extended
  Ending-returned r id (failed o s' never why) h = absurd (never id h)

  Ending-failed :
      (r : Outcome × LookupTable × S)
      → Ending r
      → ((id : ℕ) → r.0 ≢ returned id)
      → (c : Text) → column_map r.1 c ≡ column_map t c
  Ending-failed r (known j e) never c = absurd (never j refl)
  Ending-failed r (made s' e persisted) never c = absurd (never _ refl)
  Ending-failed r (failed o s' _ why) never c = column_map-touched c

  Ending-keeps :
      (P : S → Type 0)
      → ((id : ℕ) → P (run_persist persist s col v id).1)
      → P s
      → (r : Outcome × LookupTable × S) → Ending r
      → P r.2
  Ending-keeps P keeps h r (known id e) = h
  Ending-keeps P keeps h r (made s' e persisted) =
      subst (λ (q : Bool × S). P q.1) persisted (keeps (new_id (column_map t col)))
  Ending-keeps P keeps h r (failed o s' never (inl same)) = rw same h
  Ending-keeps P keeps h r (failed o s' never (inr refused)) =
      subst (λ (q : Bool × S). P q.1) refused (keeps (new_id (column_map t col)))

  -- Where every column is coded without ambiguity, a call that returns an id leaves every column so,
  -- that id decodes to the value that was asked for and is the one that the value has from then on,
  -- and every value keeps the id that it had.
  pub get_value-get_or_create :
      (id : ℕ)
      → IsCoded t
      → (get_or_create persist t s col v).0 ≡ returned id
      → IsCoded (get_or_create persist t s col v).1
        × (get_value (get_or_create persist t s col v).1 col id ≡ value v)
        × (find_id (get_or_create persist t s col v).1 col v ≡ some id)
        × Kept (get_or_create persist t s col v).1
  get_value-get_or_create id coded h =
      let coded' = Ending-IsCoded _ get_or_create-Ending coded in
      let found = Ending-returned _ id get_or_create-Ending h in
      (
        coded',
        get_value-find_id (get_or_create persist t s col v).1 col v id coded' found,
        found,
        Ending-Kept _ get_or_create-Ending,
      )

  -- However a call ends, every column stays coded without ambiguity, and every value keeps its id.
  pub get_or_create-Kept :
      IsCoded t
      → IsCoded (get_or_create persist t s col v).1 × Kept (get_or_create persist t s col v).1
  get_or_create-Kept coded =
      (Ending-IsCoded _ get_or_create-Ending coded, Ending-Kept _ get_or_create-Ending)

  -- A call that throws, or overflows, leaves every column's map as it was.
  pub get_or_create_failed :
      ((id : ℕ) → (get_or_create persist t s col v).0 ≢ returned id)
      → (c : Text) → column_map (get_or_create persist t s col v).1 c ≡ column_map t c
  get_or_create_failed never = Ending-failed _ get_or_create-Ending never

  -- A value that has an id gets that id again, and nothing is persisted.
  pub get_or_create_known :
      (id : ℕ)
      → find_id t col v ≡ some id
      → ((get_or_create persist t s col v).0 ≡ returned id)
        × ((get_or_create persist t s col v).2 ≡ s)
  unfolding get_or_create
  get_or_create_known id h = rw (h, get_or_create) (refl, refl)

  -- An invariant of the callback's state that the callback keeps is kept by the call.
  pub get_or_create-keeps :
      (P : S → Type 0)
      → ((id : ℕ) → P (run_persist persist s col v id).1)
      → P s
      → P (get_or_create persist t s col v).2
  get_or_create-keeps P keeps h = Ending-keeps P keeps h _ get_or_create-Ending
