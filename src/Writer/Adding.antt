-- ===== src/Writer/Adding.antt =====
-- writer_database.cpp, Insert: the rows that a batch adds to the log table.
use mathlib.Core.Option
use loglite.Prelude.{
  List, Option, Text, [], ap, append-nil, append_assoc, arith, inl, inr, length, length-append,
  none, refl, some, sym, true, ℕ, ◌++◌, ◌+◌, ◌∙◌, ◌∷◌, ◌≡◌, ◌≤◌,
}
use loglite.Json.{ColumnInfo, Json}
use loglite.ColumnDict.Create.{failed}
use loglite.Database.{SqlValue}
use loglite.Writer.{
  Answers, Bound, Writer, bind_columns, failed, insert_logs, is_open, skipped, step_row, values,
}
use loglite.Writer.Batches.{
  Bound-cases, bind_columns-logs, insert_logs-was_open, roll_back-closed, step_row-cases,
  step_row-was_open,
}

-- The rows that `n` insertions have added.
abbrev pub Added : Writer → ℕ → Writer → Type 0
Added w n w' =
    (new : List (List SqlValue)) × (w'.tables.logs ≡ w.tables.logs ++ new) × (length new ≡ n)

module _ (dump : Json → Text) (compressed : List Text) (a : Answers) where
  step_row-Added :
      (w : Writer) (vs : List SqlValue)
      → is_open (step_row dump compressed a w vs).1 ≡ true
      → Added w (step_row dump compressed a w vs).0 (step_row dump compressed a w vs).1
  step_row-Added w vs =
      step_row-cases dump compressed a (λ r. is_open r.1 ≡ true → Added w r.0 r.1) w vs
        (λ o. (vs ∷ [], refl, refl)) (λ o. ([], sym (append-nil w.tables.logs), refl))
        (λ e o. absurd (cc (o, roll_back-closed w.tables)))

  map-some :
      {f : ℕ → ℕ} (o : Option ℕ) (n : ℕ)
      → Option.map f o ≡ some n
      → (m : ℕ) × (o ≡ some m) × (f m ≡ n)
  map-some none n h = cc
  map-some (some m) n h = (m, refl, cc)

  step_row-le : (w : Writer) (vs : List SqlValue) → (step_row dump compressed a w vs).0 ≤ 1
  step_row-le w vs =
      step_row-cases dump compressed a (λ r. r.0 ≤ 1) w vs (omega arith) (omega arith)
        (λ e. omega arith)

  Added-then : (w w' w'' : Writer) (m n : ℕ) → Added w m w' → Added w' n w'' → Added w (m + n) w''
  Added-then w w' w'' m n (xs, e, le) (ys, e', le') = (
    xs ++ ys,
    e' ∙ ap (λ zs. zs ++ ys) e ∙ append_assoc w.tables.logs xs ys,
    omega (arith, length-append xs ys),
  )

  module _ (w : Writer) (cols : List ColumnInfo) (log : Json) (logs : List Json) where
    abbrev bound : Bound × Writer
    bound = bind_columns dump compressed a w log cols

    log_fails : bound.0 ≡ failed → (insert_logs dump compressed a w cols (log ∷ logs)).0 ≡ none
    unfolding insert_logs
    log_fails e = rw (e, insert_logs) refl

    log_skipped :
        bound.0 ≡ skipped
        → insert_logs dump compressed a w cols (log ∷ logs)
          ≡ insert_logs dump compressed a bound.1 cols logs
    unfolding insert_logs
    log_skipped e = rw (e, insert_logs) refl

    log_stepped :
        (vs : List SqlValue)
        → bound.0 ≡ values vs
        → insert_logs dump compressed a w cols (log ∷ logs) ≡ (
          Option.map
              (λ m. (step_row dump compressed a bound.1 vs).0 + m)
              (insert_logs dump compressed a (step_row dump compressed a bound.1 vs).1 cols logs).0,
          (insert_logs dump compressed a (step_row dump compressed a bound.1 vs).1 cols logs).1,
        )
    unfolding insert_logs
    log_stepped vs e = rw (e, insert_logs) refl

  Added-from :
      (w w' w'' : Writer) (n : ℕ) → w'.tables.logs ≡ w.tables.logs → Added w' n w'' → Added w n w''
  Added-from w w' w'' n same (xs, e, len) = (xs, e ∙ ap (λ zs. zs ++ xs) same, len)

  -- The rows that the loop over the logs adds, when nothing throws and SQLite rolls nothing back.
  pub insert_logs-Added :
      (w : Writer) (cols : List ColumnInfo) (logs : List Json) (n : ℕ)
      → (insert_logs dump compressed a w cols logs).0 ≡ some n
      → is_open (insert_logs dump compressed a w cols logs).1 ≡ true
      → Added w n (insert_logs dump compressed a w cols logs).1 × (n ≤ length logs)
  unfolding insert_logs
  insert_logs-Added w cols [] n h o =
      let zero_rows : n ≡ 0 = ground arith in
      (([], sym (append-nil w.tables.logs), sym zero_rows), omega arith)
  insert_logs-Added w cols (log ∷ logs) n h o =
      let bound = bind_columns dump compressed a w log cols in
      elim (Bound-cases bound.0) [
        | inl e ↦ let fails = log_fails w cols log logs e in cc
        | inr (inl e) ↦
            let eq = log_skipped w cols log logs e in
            let o' : is_open (insert_logs dump compressed a bound.1 cols logs).1 ≡ true =
              sym (ap (λ r. is_open r.1) eq) ∙ o in
            let same =
              bind_columns-logs dump compressed a w log cols
                (insert_logs-was_open dump compressed a bound.1 cols logs o') in
            let (grown, few) =
              insert_logs-Added bound.1 cols logs n (sym (ap (λ r. r.0) eq) ∙ h) o' in
            rw eq (
              Added-from w bound.1 (insert_logs dump compressed a bound.1 cols logs).1 n same grown,
              omega (arith, few),
            )
        | inr (inr (vs, e)) ↦
            let eq = log_stepped w cols log logs vs e in
            let one = step_row dump compressed a bound.1 vs in
            let o' : is_open (insert_logs dump compressed a one.1 cols logs).1 ≡ true =
              sym (ap (λ r. is_open r.1) eq) ∙ o in
            let one_open = insert_logs-was_open dump compressed a one.1 cols logs o' in
            let same =
              bind_columns-logs dump compressed a w log cols
                (step_row-was_open dump compressed a bound.1 vs one_open) in
            let (m, rest, sum) =
              map-some (insert_logs dump compressed a one.1 cols logs).0 n
                (sym (ap (λ r. r.0) eq) ∙ h) in
            let (grown, few) = insert_logs-Added one.1 cols logs m rest o' in
            let end = (insert_logs dump compressed a one.1 cols logs).1 in
            let all : Added bound.1 (one.0 + m) end =
              Added-then bound.1 one.1 end one.0 m (step_row-Added bound.1 vs one_open) grown in
            rw (eq, sym sum)
              (
                Added-from w bound.1 end (one.0 + m) same all,
                omega (arith, few, step_row-le bound.1 vs),
              )
      ]
