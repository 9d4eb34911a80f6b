-- ===== src/Handlers/Windows.antt =====
-- stats.hpp, HandleStats: the requests whose statistics are read.
use loglite.Prelude.{
  Assoc, Bool-cases, Option, Option-cases, Text, arith, codes, inl, inr, lookup, none, some,
  some_eq, subst, sym, text_eq, text_eq_iff, true, ◌∙◌, ◌≡◌, ◌⊎◌,
}
use loglite.Prelude.Int.{ltb_ℤ, ℤ, ◌-ℤ◌, ◌≤ℤ◌}
use loglite.Handlers.Query.{first_missing, param}
use loglite.Handlers.Stats.{ordering_of, read_stats, stats_names, times_error, window_error}

inr_eq : {A B : Type 0} {x y : B} → ◌≡◌ {A = A ⊎ B} (inr x) (inr y) → x ≡ y
inr_eq h = cc

module _ (parse_iso8601 : Text → Option ℤ) (day : ℤ) where
  -- The two texts are times, the first before the second by at most a day.
  abbrev pub IsWindow : Text → Text → Type 0
  IsWindow since until =
      (s : ℤ) × (u : ℤ) × (parse_iso8601 since ≡ some s)
      × (parse_iso8601 until ≡ some u)
      × (ltb_ℤ s u ≡ true)
      × (u -ℤ s ≤ℤ day)

  window_error-none :
      (s u : ℤ) → window_error parse_iso8601 day s u ≡ none → (ltb_ℤ s u ≡ true) × (u -ℤ s ≤ℤ day)
  window_error-none s u h = elim (Bool-cases (ltb_ℤ s u)) [
    | inr e ↦ absurd (cc (rw (window_error, e) at h))
    | inl e ↦ elim (Bool-cases (ltb_ℤ day (u -ℤ s))) [
      | inl k ↦ absurd (cc (rw (window_error, e, k) at h))
      | inr k ↦ (e, ground (arith, k))
    ]
  ]

  times_error-IsWindow :
      (since until : Text) → times_error parse_iso8601 day since until ≡ none → IsWindow since until
  times_error-IsWindow since until h = elim (Option-cases (parse_iso8601 since)) [
    | inl e ↦ absurd (cc (rw (times_error, e) at h))
    | inr (s, e) ↦ elim (Option-cases (parse_iso8601 until)) [
      | inl k ↦ absurd (cc (rw (times_error, e, k) at h))
      | inr (u, k) ↦
          let (earlier, short) = window_error-none s u (rw (times_error, e, k) at h) in
          (s, u, e, k, earlier, short)
    ]
  ]

  ordering_of-either :
      (params : Assoc Text) (o : Text)
      → ordering_of params ≡ some o
      → (o ≡ codes "asc") ⊎ (o ≡ codes "desc")
  unfolding ordering_of
  ordering_of-either params o h = elim (Option-cases (lookup (codes "ordering") params)) [
    | inl e ↦ inr (sym (some_eq (rw (ordering_of, e) at h)))
    | inr (v, e) ↦ elim (Bool-cases (text_eq v (codes "asc"))) [
      | inl a ↦
          inl (sym (some_eq (rw (ordering_of, e, a) at h)) ∙ (text_eq_iff v (codes "asc")).0 a)
      | inr a ↦ elim (Bool-cases (text_eq v (codes "desc"))) [
        | inl d ↦
            inr
              (sym (some_eq (rw (ordering_of, e, a, d) at h)) ∙ (text_eq_iff v (codes "desc")).0 d)
        | inr d ↦ absurd (cc (rw (ordering_of, e, a, d) at h))
      ]
    ]
  ]

  -- Statistics are read only for requests with all four parameters, whose `since` and `until` are
  -- times with `since` before `until` by at most a day, and in one of the two orders.
  pub read_stats-IsWindow :
      (params : Assoc Text) (ordering : Text)
      → read_stats parse_iso8601 day params ≡ inr ordering
      → (first_missing stats_names params ≡ none)
        × IsWindow (param (codes "since") params) (param (codes "until") params)
        × ((ordering ≡ codes "asc") ⊎ (ordering ≡ codes "desc"))
  unfolding read_stats
  read_stats-IsWindow params ordering h = elim (Option-cases (first_missing stats_names params)) [
    | inr (p, m) ↦ absurd (cc (rw (read_stats, m) at h))
    | inl m ↦ elim (Option-cases (ordering_of params)) [
      | inl n ↦ absurd (cc (rw (read_stats, m, n) at h))
      | inr (o, n) ↦
          elim (Option-cases (
            times_error parse_iso8601 day (param (codes "since") params)
              (param (codes "until") params))) [
                | inr (msg, t) ↦ absurd (cc (rw (read_stats, m, n, t) at h))
                | inl t ↦
                    let same : o ≡ ordering = inr_eq (rw (read_stats, m, n, t) at h) in
                    (
                      m,
                      times_error-IsWindow _ _ t,
                      subst (λ x. (x ≡ codes "asc") ⊎ (x ≡ codes "desc")) same
                          (ordering_of-either params o n),
                    )
              ]
    ]
  ]
