-- ===== src/ColumnDict/Comparing.antt =====
-- column_dict.cpp, QueryCandidates: what the comparisons of a filter mean.
use loglite.Prelude.{
  Bool-cases, Text, [], ap, arith, codes, contains, inl, inr, ltb, not, refl, starts_with, text_eq,
  text_eq_iff, text_ltb, true, ◌++◌, ◌<◌, ◌||◌, ◌↔◌, ◌∷◌, ◌≡◌, ◌≢◌, ◌⊎◌,
}
use loglite.ColumnDict.{value_matches}

-- The operators of filters, and their texts.
pub data Comparison : Type 0 where
  equal unequal above at_least below at_most like : Comparison

abbrev pub operator : Comparison → Text
operator equal = codes "="
operator unequal = codes "!="
operator above = codes ">"
operator at_least = codes ">="
operator below = codes "<"
operator at_most = codes "<="
operator like = codes "~="

-- In the order of a dictionary, the first text comes before the second: it is the beginning of the
-- second, or has the smaller byte where they first differ.
abbrev pub ComesBefore : Text → Text → Type 0
ComesBefore s [] = ⊥
ComesBefore [] (d ∷ t) = Unit {0}
ComesBefore (c ∷ s) (d ∷ t) = (c < d) ⊎ ((c ≡ d) × ComesBefore s t)

-- The first text stands within the second.
abbrev pub StandsIn : Text → Text → Type 0
StandsIn p s = (front : Text) × (back : Text) × (s ≡ front ++ (p ++ back))

abbrev pub Compares : Comparison → Text → Text → Type 0
Compares equal v fval = v ≡ fval
Compares unequal v fval = v ≢ fval
Compares above v fval = ComesBefore fval v
Compares at_least v fval = ComesBefore fval v ⊎ (fval ≡ v)
Compares below v fval = ComesBefore v fval
Compares at_most v fval = ComesBefore v fval ⊎ (v ≡ fval)
Compares like v fval = StandsIn fval v ⊎ StandsIn v fval

text_ltb-ComesBefore : (s t : Text) → text_ltb s t ≡ true → ComesBefore s t
text_ltb-ComesBefore [] [] h = cc
text_ltb-ComesBefore [] (d ∷ t) h = tt
text_ltb-ComesBefore (c ∷ s) [] h = cc
text_ltb-ComesBefore (c ∷ s) (d ∷ t) h = elim (Bool-cases (ltb c d)) [
  | inl e ↦ inl (ground (arith, e))
  | inr e ↦ inr (ground (arith, h, e), text_ltb-ComesBefore s t (ground (arith, h, e)))
]

ComesBefore-text_ltb : (s t : Text) → ComesBefore s t → text_ltb s t ≡ true
ComesBefore-text_ltb [] [] h = absurd h
ComesBefore-text_ltb (c ∷ s) [] h = absurd h
ComesBefore-text_ltb [] (d ∷ t) h = refl
ComesBefore-text_ltb (c ∷ s) (d ∷ t) (inl h) = ground (arith, h)
ComesBefore-text_ltb (c ∷ s) (d ∷ t) (inr (e, h)) = ground (arith, e, ComesBefore-text_ltb s t h)

-- Of two texts, one comes before the other, or they are the same.
not_before : (s t : Text) → not (text_ltb s t) ≡ true → ComesBefore t s ⊎ (t ≡ s)
not_before [] [] h = inr refl
not_before [] (d ∷ t) h = cc
not_before (c ∷ s) [] h = inl tt
not_before (c ∷ s) (d ∷ t) h = elim (Bool-cases (ltb d c)) [
  | inl e ↦ inl (inl (ground (arith, e)))
  | inr e ↦
      let same : d ≡ c = ground (arith, e, h) in
      elim (not_before s t (ground (arith, h, same))) [
        | inl k ↦ inl (inr (same, k))
        | inr k ↦ inr (cc (same, k))
      ]
]

before_not : (s t : Text) → ComesBefore t s ⊎ (t ≡ s) → not (text_ltb s t) ≡ true
before_not [] [] h = refl
before_not [] (d ∷ t) (inl h) = absurd h
before_not [] (d ∷ t) (inr h) = cc
before_not (c ∷ s) [] h = refl
before_not (c ∷ s) (d ∷ t) (inl (inl h)) = ground (arith, h)
before_not (c ∷ s) (d ∷ t) (inl (inr (e, h))) = ground (arith, e, before_not s t (inl h))
before_not (c ∷ s) (d ∷ t) (inr h) =
    let heads : d ≡ c = cc h in
    let tails : t ≡ s = cc h in ground (arith, heads, before_not s t (inr tails))

starts_with-append : (p back : Text) → starts_with p (p ++ back) ≡ true
starts_with-append [] back = refl
starts_with-append (c ∷ p) back = ground (arith, starts_with-append p back)

append-starts_with : (p s : Text) → starts_with p s ≡ true → (back : Text) × (s ≡ p ++ back)
append-starts_with [] s h = (s, refl)
append-starts_with (c ∷ p) [] h = cc
append-starts_with (c ∷ p) (d ∷ s) h =
    let same : c ≡ d = ground (arith, h) in
    let (back, e) = append-starts_with p s (ground (arith, h)) in (back, cc (same, e))

contains-StandsIn : (p s : Text) → contains p s ≡ true → StandsIn p s
contains-StandsIn p [] h = let (back, e) = append-starts_with p [] h in ([], back, e)
contains-StandsIn p (d ∷ s) h = elim (Bool-cases (starts_with p (d ∷ s))) [
  | inl e ↦ let (back, k) = append-starts_with p (d ∷ s) e in ([], back, k)
  | inr e ↦
      let (front, back, k) = contains-StandsIn p s (rw e at h) in (d ∷ front, back, ap (◌∷◌ d) k)
]

contains-append : (p front back : Text) → contains p (front ++ (p ++ back)) ≡ true
contains-append p [] back = contains-start p (p ++ back) (starts_with-append p back)
  where
    contains-start : (p s : Text) → starts_with p s ≡ true → contains p s ≡ true
    contains-start p [] h = h
    contains-start p (d ∷ s) h = rw h refl
contains-append p (c ∷ front) back = ground (arith, contains-append p front back)

StandsIn-contains : (p s : Text) → StandsIn p s → contains p s ≡ true
StandsIn-contains p s (front, back, e) = rw e (contains-append p front back)

-- Each operator of a filter is the comparison that it stands for.
pub value_matches_iff :
    (c : Comparison) (fval v : Text)
    → (value_matches (operator c) fval v ≡ true) ↔ Compares c v fval
unfolding value_matches
value_matches_iff equal fval v = ((text_eq_iff v fval).0, (text_eq_iff v fval).1)
value_matches_iff unequal fval v = (
  λ h e. cc (h, (text_eq_iff v fval).1 e),
  λ n. elim (Bool-cases (text_eq v fval)) [
    | inl e ↦ absurd (n ((text_eq_iff v fval).0 e))
    | inr e ↦ rw e refl
  ],
)
value_matches_iff above fval v = (text_ltb-ComesBefore fval v, ComesBefore-text_ltb fval v)
value_matches_iff at_least fval v = (not_before v fval, before_not v fval)
value_matches_iff below fval v = (text_ltb-ComesBefore v fval, ComesBefore-text_ltb v fval)
value_matches_iff at_most fval v = (not_before fval v, before_not fval v)
value_matches_iff like fval v = (found, matched)
  where
    found : (contains fval v || contains v fval) ≡ true → StandsIn fval v ⊎ StandsIn v fval
    found h = elim (Bool-cases (contains fval v)) [
      | inl e ↦ inl (contains-StandsIn fval v e)
      | inr e ↦ inr (contains-StandsIn v fval (rw e at h))
    ]

    matched : StandsIn fval v ⊎ StandsIn v fval → (contains fval v || contains v fval) ≡ true
    matched (inl h) = rw (StandsIn-contains fval v h) refl
    matched (inr h) = ground (arith, StandsIn-contains v fval h)
