-- ===== src/Migrations/Order.antt =====
-- migrations.cpp, the constructor's sort: the lowest pending version comes first.
use loglite.Prelude.{
  All, All-In, Bool, Bool-cases, In, List, Option, Text, [], ap, arith, false, inl, inr, keep,
  subst, sym, true, ◌∙◌, ◌∷◌, ◌≡◌, ◌≢◌,
}
use loglite.Prelude.Int.{ltb_ℤ, ℤ, ◌≤ℤ◌}
use loglite.Json.{Migration}
use loglite.Migrations.{Replies, Schema, is_pending, place, sort_migrations}

abbrev IsLower : ℤ → List Migration → Type 0
IsLower v = All (λ x. v ≤ℤ x.version)

abbrev pub IsAscending : List Migration → Type 0
IsAscending [] = Unit {0}
IsAscending (m ∷ ms) = IsLower m.version ms × IsAscending ms

lower_trans : (a b c : ℤ) → a ≤ℤ b → b ≤ℤ c → a ≤ℤ c
lower_trans a b c h k = omega (arith, h, k)

IsLower-trans : (v w : ℤ) (ms : List Migration) → v ≤ℤ w → IsLower w ms → IsLower v ms
IsLower-trans v w [] h k = tt
IsLower-trans v w (m ∷ ms) h k = (lower_trans v w m.version h k.0, IsLower-trans v w ms h k.1)

place-IsLower :
    (v : ℤ) (m : Migration) (ms : List Migration)
    → v ≤ℤ m.version
    → IsLower v ms
    → IsLower v (place m ms)
place-IsLower v m [] h k = (h, tt)
place-IsLower v m (x ∷ ms) h k = elim (Bool-cases (ltb_ℤ x.version m.version)) [
  | inl e ↦ rw e (k.0, place-IsLower v m ms h k.1)
  | inr e ↦ rw e (h, k)
]

place-IsAscending :
    (m : Migration) (ms : List Migration) → IsAscending ms → IsAscending (place m ms)
place-IsAscending m [] h = (tt, tt)
place-IsAscending m (x ∷ ms) h = elim (Bool-cases (ltb_ℤ x.version m.version)) [
  | inl e ↦ rw e (place-IsLower x.version m ms (ground (arith, e)) h.0, place-IsAscending m ms h.1)
  | inr e ↦
      let first : m.version ≤ℤ x.version = ground (arith, e) in
      rw e ((first, IsLower-trans m.version x.version ms first h.0), h)
]

sort_migrations-IsAscending : (ms : List Migration) → IsAscending (sort_migrations ms)
unfolding sort_migrations
sort_migrations-IsAscending [] = tt
sort_migrations-IsAscending (m ∷ ms) =
    place-IsAscending m (sort_migrations ms) (sort_migrations-IsAscending ms)

In-place : (x m : Migration) (ms : List Migration) → In x (m ∷ ms) → In x (place m ms)
In-place x m [] i = i
In-place x m (y ∷ ms) i = elim (Bool-cases (ltb_ℤ y.version m.version)) [
  | inl e ↦ rw e (elim i [
    | inl k ↦ inr (In-place x m ms (inl k))
    | inr (inl k) ↦ inl k
    | inr (inr k) ↦ inr (In-place x m ms (inr k))
  ])
  | inr e ↦ rw e i
]

In-sort_migrations : (x : Migration) (ms : List Migration) → In x ms → In x (sort_migrations ms)
unfolding sort_migrations
In-sort_migrations x [] i = i
In-sort_migrations x (m ∷ ms) (inl e) = In-place x m (sort_migrations ms) (inl e)
In-sort_migrations x (m ∷ ms) (inr i) =
    In-place x m (sort_migrations ms) (inr (In-sort_migrations x ms i))

apart : true ≢ false
apart h = cc

lowest_first :
    (p : Migration → Bool) (m : Migration) (rest ms : List Migration) (x : Migration)
    → IsAscending ms
    → keep p ms ≡ m ∷ rest
    → In x ms
    → p x ≡ true
    → m.version ≤ℤ x.version
lowest_first p m rest [] x h e i k = elim i [ ]
lowest_first p m rest (y ∷ ms) x h e i k = elim (Bool-cases (p y)) [
  | inl hit ↦
      let same : y ≡ m = cc (rw hit at e) in
      subst (λ (n : Migration). n.version ≤ℤ x.version) same
        (elim i [
          | inl j ↦ subst (λ (n : Migration). y.version ≤ℤ n.version) (sym j) (omega arith)
          | inr j ↦ All-In (λ n. y.version ≤ℤ n.version) x ms h.0 j
        ])
  | inr miss ↦ elim i [
    | inl j ↦ absurd (apart (sym k ∙ ap p j ∙ miss))
    | inr j ↦ lowest_first p m rest ms x h.1 (rw miss at e) j k
  ]
]

module _ {S : Type 0} (exec : S → Text → Option S) (a : Replies) where
  -- The migration that comes first among the pending ones, in the order in which the manager keeps
  -- them, has the lowest version of all that are pending, however they were configured.
  pub sort_migrations-lowest :
      (start : ℤ) (db : Schema S) (ms : List Migration) (m : Migration) (rest : List Migration)
      (x : Migration)
      → keep (is_pending exec a start db) (sort_migrations ms) ≡ m ∷ rest
      → In x ms
      → is_pending exec a start db x ≡ true
      → m.version ≤ℤ x.version
  sort_migrations-lowest start db ms m rest x e i p =
      lowest_first (is_pending exec a start db) m rest (sort_migrations ms) x
        (sort_migrations-IsAscending ms) e (In-sort_migrations x ms i) p
