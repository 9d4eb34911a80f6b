-- ===== src/ColumnDict/Distinct.antt =====
-- One column's map: every value and every id stands once.
use loglite.Prelude.{
  All, All-In, All-append, Assoc, Bool-cases, In, Text, [], arith, inl, inr, insert, lookup, none,
  refl, some, text_eq, text_eq_iff, ℕ, ◌++◌, ◌<◌, ◌∷◌, ◌≡◌, ◌≢◌,
}
use loglite.ColumnDict.{LookupTable, column_map, find_value, max_id, new_id}

abbrev pub Differs : Text → ℕ → Text × ℕ → Type 0
Differs v id e = (v ≢ e.0) × (id ≢ e.1)

abbrev pub Distinct : Assoc ℕ → Type 0
Distinct [] = Unit {0}
Distinct ((v, id) ∷ m) = All (Differs v id) m × Distinct m

pub In-lookup : (v : Text) (id : ℕ) (m : Assoc ℕ) → lookup v m ≡ some id → In (v, id) m
unfolding lookup
In-lookup v id [] h = cc
In-lookup v id ((w, j) ∷ m) h = elim (Bool-cases (text_eq w v)) [
  | inl e ↦ inl (ground (arith, text_eq_iff w v))
  | inr e ↦ inr (In-lookup v id m (ground arith))
]

pub lookup-In : (v : Text) (id : ℕ) (m : Assoc ℕ) → Distinct m → In (v, id) m → lookup v m ≡ some id
unfolding lookup
lookup-In v id [] d i = elim i [ ]
lookup-In v id ((w, j) ∷ m) d (inl e) = ground (arith, text_eq_iff w v)
lookup-In v id ((w, j) ∷ m) d (inr i) =
    let differs : Differs w j (v, id) = All-In (Differs w j) (v, id) m d.0 i in
    ground (arith, text_eq_iff w v, lookup-In v id m d.1 i, differs)

-- The reverse search finds the value that has the id.
pub find_value-lookup :
    (v : Text) (id : ℕ) (m : Assoc ℕ) → Distinct m → lookup v m ≡ some id → find_value m id ≡ some v
unfolding lookup
find_value-lookup v id [] d h = cc
find_value-lookup v id ((w, j) ∷ m) d h = elim (Bool-cases (text_eq w v)) [
  | inl e ↦ ground (arith, text_eq_iff w v)
  | inr e ↦
      let rest : lookup v m ≡ some id = ground arith in
      let differs : Differs w j (v, id) =
        All-In (Differs w j) (v, id) m d.0 (In-lookup v id m rest) in
      ground (arith, find_value-lookup v id m d.1 rest, differs)
]

pub insert-new :
    (v : Text) (id : ℕ) (m : Assoc ℕ) → lookup v m ≡ none → insert v id m ≡ m ++ (v, id) ∷ []
unfolding lookup insert
insert-new v id [] h = refl
insert-new v id ((w, j) ∷ m) h = ground (arith, insert-new v id m)

Distinct-append :
    (v : Text) (id : ℕ) (m : Assoc ℕ)
    → Distinct m
    → lookup v m ≡ none
    → max_id m < id
    → Distinct (m ++ (v, id) ∷ [])
unfolding lookup
Distinct-append v id [] d h lt = (tt, tt)
Distinct-append v id ((w, j) ∷ m) d h lt = (
  All-append (Differs w j) m ((v, id) ∷ []) d.0
      ((λ e. ground (arith, text_eq_iff w v), λ e. omega arith), tt),
  Distinct-append v id m d.1 (ground arith) (omega arith),
)

max_id-lt-new_id : (m : Assoc ℕ) → max_id m < new_id m
unfolding new_id
max_id-lt-new_id [] = omega arith
max_id-lt-new_id ((v, id) ∷ m) = omega arith

-- A new value under the next id keeps the map distinct.
pub Distinct-insert :
    (v : Text) (m : Assoc ℕ) → Distinct m → lookup v m ≡ none → Distinct (insert v (new_id m) m)
Distinct-insert v m d h =
    rw (insert-new v (new_id m) m h) (Distinct-append v (new_id m) m d h (max_id-lt-new_id m))

pub column_map-none : (t : LookupTable) (c : Text) → lookup c t ≡ none → column_map t c ≡ []
column_map-none t c e = ground arith

pub column_map-some :
    (t : LookupTable) (c : Text) (m : Assoc ℕ) → lookup c t ≡ some m → column_map t c ≡ m
column_map-some t c m e = ground arith

pub not_coded : (v : Text) (id : ℕ) → ¬ (lookup v [] ≡ some id)
unfolding lookup
not_coded v id h = cc
