-- ===== src/Tasks/Summaries.antt =====
-- diagnostics.hpp, summarize_observations: each name's summary is that of its own samples.
use loglite.Prelude.{
  All, Bool-cases, List, Text, [], ap, false, fun_ext, if◌then◌else◌, inl, inr, keep, map, refl,
  subst, text_eq, text_eq_iff, ◌∙◌, ◌∷◌, ◌≡◌,
}
use loglite.Metrics.{Observation}
use loglite.Tasks.Diagnostics.{
  ObservationSummary, ValueDouble, add_all, add_sample, add_to, finish_summary, initial_summary,
  summarize_observations,
}

-- No name stands twice.
abbrev pub Distinct : List Text → Type 0
Distinct [] = Unit
Distinct (n ∷ ns) = All (λ m. text_eq m n ≡ false) ns × Distinct ns

module _ {D : Type 0} (double : ValueDouble D) where
  abbrev pub named : Text → List (Observation D) → List (Observation D)
  named n = keep (λ o. text_eq n o.name)

  abbrev pub sum_samples : ObservationSummary D → List (Observation D) → ObservationSummary D
  sum_samples s [] = s
  sum_samples s (o ∷ samples) = sum_samples (add_sample double s o) samples

  -- The summaries when the one of a name is `f` of it.
  abbrev table : (Text → ObservationSummary D) → List Text → List (Text × ObservationSummary D)
  table f = map (λ n. (n, f n))

  abbrev next : (Text → ObservationSummary D) → Observation D → Text → ObservationSummary D
  next f o n = if text_eq n o.name then add_sample double (f n) o else f n

  table_same :
      (f : Text → ObservationSummary D) (o : Observation D) (ns : List Text)
      → All (λ m. text_eq m o.name ≡ false) ns
      → table f ns ≡ table (next f o) ns
  table_same f o [] h = refl
  table_same f o (n ∷ ns) h = rw (next, h.0) (ap (◌∷◌ (n, f n)) (table_same f o ns h.1))

  add_to-table :
      (f : Text → ObservationSummary D) (o : Observation D) (ns : List Text)
      → Distinct ns
      → add_to double (table f ns) o ≡ table (next f o) ns
  unfolding add_to
  add_to-table f o [] d = refl
  add_to-table f o (n ∷ ns) d = elim (Bool-cases (text_eq n o.name)) [
    | inr e ↦ rw (add_to, next, e) (ap (◌∷◌ (n, f n)) (add_to-table f o ns d.1))
    | inl e ↦
        let same : n ≡ o.name = (text_eq_iff n o.name).0 e in
        rw (add_to, next, e)
          (ap (◌∷◌ (n, add_sample double (f n) o))
            (table_same f o ns (subst (λ m. All (λ k. text_eq k m ≡ false) ns) same d.0)))
  ]

  one_more :
      (f : Text → ObservationSummary D) (o : Observation D) (samples : List (Observation D))
      (n : Text)
      → sum_samples (next f o n) (named n samples) ≡ sum_samples (f n) (named n (o ∷ samples))
  one_more f o samples n = elim (Bool-cases (text_eq n o.name)) [
    | inl e ↦ rw (next, e) refl
    | inr e ↦ rw (next, e) refl
  ]

  add_all-table :
      (f : Text → ObservationSummary D) (samples : List (Observation D)) (ns : List Text)
      → Distinct ns
      → add_all double (table f ns) samples ≡ table (λ n. sum_samples (f n) (named n samples)) ns
  unfolding add_all
  add_all-table f [] ns d = refl
  add_all-table f (o ∷ samples) ns d =
      rw (add_all, add_to-table f o ns d)
        (add_all-table (next f o) samples ns d
          ∙ ap (λ g. table g ns) (fun_ext (λ n. one_more f o samples n)))

  map-map :
      (f : Text → ObservationSummary D) (g : ObservationSummary D → ObservationSummary D)
      (ns : List Text)
      → map (λ (e : Text × ObservationSummary D). (e.0, g e.1)) (table f ns)
        ≡ table (λ n. g (f n)) ns
  map-map f g [] = refl
  map-map f g (n ∷ ns) = ap (◌∷◌ (n, g (f n))) (map-map f g ns)

  -- For names of which none stands twice, the summary of each is made of exactly the samples of that
  -- name, in order, whatever other samples stand between them.
  pub summarize_observations-named :
      (names : List Text) (samples : List (Observation D))
      → Distinct names
      → summarize_observations double names samples
        ≡ map
            (λ n.
              (n, finish_summary double (sum_samples (initial_summary double) (named n samples))))
            names
  unfolding summarize_observations
  summarize_observations-named names samples d =
      rw (summarize_observations, add_all-table (λ n. initial_summary double) samples names d)
        (map-map (λ n. sum_samples (initial_summary double) (named n samples))
          (finish_summary double) names)
