-- ===== src/Migrations/Startup.antt =====
-- writer_database.cpp, Initialize: the loop that applies the migrations at a start ends.
use loglite.Prelude.{
  Bool, List, Option, Text, [], ap, arith, inl, inr, keep, length, not, refl, some, suc, sym, true,
  zero, ℕ, ◌&&◌, ◌++◌, ◌<◌, ◌||◌, ◌∙◌, ◌∷◌, ◌≡◌, ◌≢◌, ◌≤◌, ◌⊎◌,
}
use loglite.Prelude.Int.{negsuc, ℤ}
use loglite.Json.{Migration}
use loglite.Utils.{eq_ℤ, range_contains_int}
use loglite.Migrations.{
  Attempt, Replies, Schema, applied, apply_all, apply_migration, apply_pending, is_pending, raised,
  refused,
}
use loglite.Migrations.Pending.{apply_pending-Applied, apply_pending-first}

module _ {A : Type 0} where
  keep_twice : (p q : A → Bool) (xs : List A) → keep (λ x. p x && q x) xs ≡ keep q (keep p xs)
  keep_twice p q [] = refl
  keep_twice p q (x ∷ xs) = ground (arith, keep_twice p q xs)

  length-keep_le : (p : A → Bool) (xs : List A) → length (keep p xs) ≤ length xs
  length-keep_le p [] = omega arith
  length-keep_le p (x ∷ xs) = ground (arith, length-keep_le p xs)

  keep_same : (p q : A → Bool) (xs : List A) → ((x : A) → p x ≡ q x) → keep p xs ≡ keep q xs
  keep_same p q [] h = refl
  keep_same p q (x ∷ xs) h = rw (h x, keep_same p q xs h) refl

range_contains_int-append :
    (vs : List ℤ) (v w : ℤ)
    → range_contains_int (vs ++ v ∷ []) w ≡ (range_contains_int vs w || eq_ℤ v w)
range_contains_int-append [] v w = ground arith
range_contains_int-append (x ∷ vs) v w = ground (arith, range_contains_int-append vs v w)

eq_ℤ_refl : (v : ℤ) → eq_ℤ v v ≡ true
eq_ℤ_refl v = ground arith

module _ {S : Type 0} (exec : S → Text → Option S) (a : Replies) where
  abbrev pub pending : Schema S → List Migration → List Migration
  pending db ms = keep (is_pending exec a (negsuc 0) db) ms

  -- Adding the version of the first pending migration leaves fewer that are pending.
  fewer_pending :
      (db db' : Schema S) (ms : List Migration) (m : Migration) (rest : List Migration)
      → pending db ms ≡ m ∷ rest
      → db'.versions ≡ db.versions ++ m.version ∷ []
      → length (pending db' ms) < length (pending db ms)
  fewer_pending db db' ms m rest first grown =
      let left : Migration → Bool = λ x. not (eq_ℤ m.version x.version) in
      let same : (x : Migration)
          → is_pending exec a (negsuc 0) db' x ≡ (is_pending exec a (negsuc 0) db x && left x) =
        λ x. rw (grown, range_contains_int-append db.versions m.version x.version) (ground arith) in
      let twice : pending db' ms ≡ keep left (m ∷ rest) =
        keep_same _ _ ms same
        ∙ keep_twice (is_pending exec a (negsuc 0) db) left ms
        ∙ ap (keep left) first in
      let gone : keep left (m ∷ rest) ≡ keep left rest = rw (eq_ℤ_refl m.version) refl in
      rw (twice, first, gone) (omega (arith, length-keep_le left rest))

  -- How the loop may end: with nothing pending, or with a pending migration that failed.
  abbrev pub Settled : List Migration → Attempt → Schema S → Type 0
  Settled ms outcome db' =
      ((outcome ≡ refused) × (pending db' ms ≡ []))
      ⊎ ((m : Migration) × (prev : Schema S) × (is_pending exec a (negsuc 0) prev m ≡ true)
          × (apply_migration exec a prev m ≡ (outcome, db'))
          × (outcome ≢ applied))

  Attempt-cases : (r : Attempt) → (r ≡ applied) ⊎ (r ≡ refused) ⊎ (r ≡ raised)
  Attempt-cases applied = inl refl
  Attempt-cases refused = inr (inl refl)
  Attempt-cases raised = inr (inr refl)

  not_applied : (r : Attempt) → (r ≡ refused) ⊎ (r ≡ raised) → r ≢ applied
  not_applied r (inl e) k = cc
  not_applied r (inr e) k = cc

  apply_all-more :
      (fuel : ℕ) (db : Schema S) (ms : List Migration)
      → (apply_pending exec a (negsuc 0) db ms).0 ≡ applied
      → apply_all exec a (suc fuel) db ms
        ≡ apply_all exec a fuel (apply_pending exec a (negsuc 0) db ms).1 ms
  unfolding apply_all
  apply_all-more fuel db ms h = rw (h, apply_all) refl

  apply_all-ends :
      (fuel : ℕ) (db : Schema S) (ms : List Migration)
      → (apply_pending exec a (negsuc 0) db ms).0 ≢ applied
      → apply_all exec a (suc fuel) db ms ≡ some (apply_pending exec a (negsuc 0) db ms)
  unfolding apply_all
  apply_all-ends fuel db ms h = elim (Attempt-cases (apply_pending exec a (negsuc 0) db ms).0) [
    | inl e ↦ absurd (h e)
    | inr (inl e) ↦
        rw (e, apply_all) (ap (λ r. some (r, (apply_pending exec a (negsuc 0) db ms).1)) (sym e))
    | inr (inr e) ↦
        rw (e, apply_all) (ap (λ r. some (r, (apply_pending exec a (negsuc 0) db ms).1)) (sym e))
  ]

  -- If SQLite takes the rows of `versions`, the loop at a start ends, within one round more than
  -- there are pending migrations: either no migration above -1 is left whose version was not applied,
  -- or the last round attempted such a migration and failed.
  pub apply_all-Settled :
      (fuel : ℕ) (db : Schema S) (ms : List Migration)
      → ((v : ℤ) → a.steps v ≡ true)
      → length (pending db ms) < fuel
      → (outcome : Attempt) × (db' : Schema S) × (apply_all exec a fuel db ms ≡ some (outcome, db'))
        × Settled ms outcome db'
  apply_all-Settled zero db ms steps h = absurd (omega (arith, h))
  apply_all-Settled (suc fuel) db ms steps h =
      let round = apply_pending exec a (negsuc 0) db ms in
      elim (apply_pending-first exec a (negsuc 0) db ms) [
        | inl (none_left, e) ↦ (
          round.0,
          round.1,
          apply_all-ends fuel db ms (λ k. cc (e, k)),
          inl (ap (λ r. r.0) e, rw e none_left),
        )
        | inr (m, rest, first, p, e) ↦ elim (Attempt-cases round.0) [
          | inl k ↦
              let (n, others, first', done) =
                apply_pending-Applied exec a (negsuc 0) db ms steps k in
              let less = fewer_pending db round.1 ms n others first' done.1 in
              let (outcome, db', ends, settled) =
                apply_all-Settled fuel round.1 ms steps (omega (arith, h, less)) in
              (outcome, db', apply_all-more fuel db ms k ∙ ends, settled)
          | inr failed ↦
              let never = not_applied round.0 failed in
              (round.0, round.1, apply_all-ends fuel db ms never, inr (m, db, p, sym e, never))
        ]
      ]
