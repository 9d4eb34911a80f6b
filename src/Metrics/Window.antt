-- ===== src/Metrics/Window.antt =====
-- What the window keeps: metrics.cpp, Collect, prune and Flush over a series of observations.
use loglite.Prelude.{
  All, Bool, List, Text, [], ap, append-nil, append_assoc, arith, keep, lookup, ltb, refl, subst, ℕ,
  ◌++◌, ◌+◌, ◌<◌, ◌∙◌, ◌∷◌, ◌≡◌, ◌≤◌,
}
use loglite.Prelude.Int.{pos}
use loglite.Metrics.{Observation, Registry, collect, configure, flush, gauge, prune, reset}

module _ {V : Type 0} where
  -- Times do not fall along the list, and are at least `lo`.
  abbrev pub IsOrdered : ℕ → List (Observation V) → Type 0
  IsOrdered lo [] = Unit {0}
  IsOrdered lo (o ∷ os) = (lo ≤ o.at) × IsOrdered o.at os

  -- Younger than the window at time `now`.
  abbrev pub is_fresh : ℕ → ℕ → Observation V → Bool
  is_fresh window now o = ltb now (o.at + window)

  -- Collect each observation at the time that it carries.
  pub collect_all : Registry V → List (Observation V) → Registry V
  collect_all r [] = r
  collect_all r (o ∷ os) = collect_all (collect r o.at o.name o.value o.item_count) os

  keep-prune :
      (window t now : ℕ) (xs ys : List (Observation V))
      → t ≤ now
      → keep (is_fresh window now) (prune window t xs ++ ys) ≡ keep (is_fresh window now) (xs ++ ys)
  unfolding prune
  keep-prune window t now [] ys h = refl
  keep-prune window t now (o ∷ xs) ys h = ground (arith, keep-prune window t now xs ys h)

  IsOrdered-lower :
      (lo hi : ℕ) (xs : List (Observation V)) → lo ≤ hi → IsOrdered hi xs → IsOrdered lo xs
  IsOrdered-lower lo hi [] h s = tt
  IsOrdered-lower lo hi (o ∷ xs) h s = (omega arith, s.1)

  IsOrdered-prune :
      (window t lo : ℕ) (xs ys : List (Observation V))
      → IsOrdered lo (xs ++ ys)
      → IsOrdered lo (prune window t xs ++ ys)
  unfolding prune
  IsOrdered-prune window t lo [] ys s = s
  IsOrdered-prune window t lo (o ∷ xs) ys s =
      ground (arith, IsOrdered-prune window t lo xs ys (IsOrdered-lower lo o.at (xs ++ ys) s.0 s.1))

  keep_all :
      (window now lo : ℕ) (xs : List (Observation V))
      → IsOrdered lo xs
      → now < lo + window
      → keep (is_fresh window now) xs ≡ xs
  keep_all window now lo [] s h = refl
  keep_all window now lo (o ∷ xs) s h = ground (arith, keep_all window now o.at xs s.1)

  prune-eq-keep :
      (window now lo : ℕ) (xs : List (Observation V))
      → IsOrdered lo xs
      → prune window now xs ≡ keep (is_fresh window now) xs
  unfolding prune
  prune-eq-keep window now lo [] s = refl
  prune-eq-keep window now lo (o ∷ xs) s =
      ground (arith, prune-eq-keep window now o.at xs s.1, keep_all window now o.at xs s.1)

  window-collect_all :
      (r : Registry V) (os : List (Observation V)) → (collect_all r os).window ≡ r.window
  unfolding collect_all collect
  window-collect_all r [] = refl
  window-collect_all r (o ∷ os) = window-collect_all (collect r o.at o.name o.value o.item_count) os

  flush-from :
      (r : Registry V) (os : List (Observation V)) (now lo : ℕ)
      → IsOrdered lo (r.observations ++ os)
      → All (λ o. o.at ≤ now) os
      → (flush (collect_all r os) now).0 ≡ keep (is_fresh r.window now) (r.observations ++ os)
  unfolding collect_all flush
  flush-from r [] now lo s h =
      rw append-nil (prune-eq-keep r.window now lo r.observations (rw append-nil at s))
  flush-from r (o ∷ os) now lo s h =
      let r' = collect r o.at o.name o.value o.item_count in
      flush-from r' os now lo
        (unfold collect in
          rw append_assoc (IsOrdered-prune r.window o.at lo r.observations (o ∷ os) s))
        h.1
      ∙ (unfold collect in
          rw append_assoc (keep-prune r.window o.at now r.observations (o ∷ os) h.0))

  -- A flush at a time `now`, after any series of observations collected at non-falling times up to
  -- `now` by a registry that held none, returns exactly those younger than the window, in order,
  -- and leaves no observation behind.
  pub flush-collect_all :
      (r : Registry V) (os : List (Observation V)) (now : ℕ)
      → r.observations ≡ []
      → IsOrdered 0 os
      → All (λ o. o.at ≤ now) os
      → ((flush (collect_all r os) now).0 ≡ keep (is_fresh r.window now) os)
        × ((flush (collect_all r os) now).1.observations ≡ [])
  unfolding flush
  flush-collect_all r os now e s h = (
    (unfold flush in flush-from r os now 0 (rw e s) h)
        ∙ ap (λ xs. keep (is_fresh r.window now) (xs ++ os)) e,
    refl,
  )

  -- A new window that is configured at a time `t`, for a registry whose observations stand in the
  -- order of their times, is the one that a flush at any time from `t` on goes by.
  pub flush-configure :
      (r : Registry V) (window t now : ℕ)
      → IsOrdered 0 r.observations
      → t ≤ now
      → (flush (configure r window t) now).0 ≡ keep (is_fresh window now) r.observations
  unfolding flush configure
  flush-configure r window t now s h =
      let pruned =
        subst (λ ys. IsOrdered 0 ys) (append-nil (prune window t r.observations))
          (IsOrdered-prune window t 0 r.observations [] (rw append-nil s)) in
      prune-eq-keep window now 0 (prune window t r.observations) pruned
      ∙ subst (λ zs. keep (is_fresh window now) zs ≡ keep (is_fresh window now) r.observations)
          (append-nil (prune window t r.observations))
          (keep-prune window t now r.observations [] h
            ∙ ap (keep (is_fresh window now)) (append-nil r.observations))

  -- After a reset nothing is flushed and every gauge reads 0.
  pub flush-reset :
      (r : Registry V) (window now : ℕ) (name : Text)
      → ((flush (reset r window) now).0 ≡ []) × (gauge (reset r window) name ≡ pos 0)
  unfolding flush reset gauge prune lookup
  flush-reset r window now name = (refl, refl)
