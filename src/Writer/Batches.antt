-- ===== src/Writer/Batches.antt =====
-- writer_database.cpp, Insert: what a batch does to the tables, and an induction over its logs.
use loglite.Prelude.{
  All, Bool-cases, List, Option-cases, Text, [], c_str, false, inl, inr, is_some, not, refl, some,
  true, ℕ, ◌&&◌, ◌++◌, ◌∷◌, ◌≡◌, ◌⊎◌,
}
use loglite.Json.{ColumnInfo, Json, is_null, text_of}
use loglite.Utils.{range_contains}
use loglite.ColumnDict.Create.{failed, get_or_create-keeps}
use loglite.Database.{SqlValue, serialize_value}
use loglite.Writer.{
  Answers, Bound, StepResult, Tables, Writer, bind_columns, encode_value, failed,
  insert_column_dict_value, insert_logs, is_open, raw_value, refused, roll_back, skipped, step_row,
  taken, undone, values,
}

pub Bound-cases :
    (b : Bound) → (b ≡ failed) ⊎ (b ≡ skipped) ⊎ ((vs : List SqlValue) × (b ≡ values vs))
Bound-cases failed = inl refl
Bound-cases skipped = inr (inl refl)
Bound-cases (values vs) = inr (inr (vs, refl))

-- What holds while a transaction is open: nothing in a batch begins one, so it was open all along.
abbrev pub WhileOpen : (Tables → Type 0) → Tables → Type 0
WhileOpen P t = is_some t.begun ≡ true → P t

pub StepResult-cases : (r : StepResult) → (r ≡ taken) ⊎ (r ≡ refused) ⊎ (r ≡ undone)
StepResult-cases taken = inl refl
StepResult-cases refused = inr (inl refl)
StepResult-cases undone = inr (inr refl)

pub roll_back-closed : (t : Tables) → is_some (roll_back t).begun ≡ false
unfolding roll_back
roll_back-closed t = elim (Option-cases t.begun) [
  | inl e ↦ rw (e, roll_back, e) refl
  | inr (c, e) ↦ rw (e, roll_back) refl
]

module _ (a : Answers) (t : Tables) (c v : Text) (id : ℕ) where
  -- A row of the dictionary: taken, or refused, or refused with no transaction left.
  pub entry-cases :
      (P : Tables → Type 0)
      → (a.takes_entry c v id ≡ taken
          → P (record t {
            column_dictionary =
                t.column_dictionary
                ++ record { column = c_str c; text = c_str v; value_id = id } ∷ [];
          }))
      → P t
      → (a.takes_entry c v id ≡ undone → P (roll_back t))
      → P (insert_column_dict_value a t c v id).1
  unfolding insert_column_dict_value
  entry-cases P row same undo = elim (StepResult-cases (a.takes_entry c v id)) [
    | inl e ↦ rw (e, insert_column_dict_value) (row e)
    | inr (inl e) ↦ rw (e, insert_column_dict_value) same
    | inr (inr e) ↦ rw (e, insert_column_dict_value) (undo e)
  ]

  entry-closed :
      is_some t.begun ≡ false → is_some (insert_column_dict_value a t c v id).1.begun ≡ false
  entry-closed h = entry-cases (λ u. is_some u.begun ≡ false) (λ e. h) h (λ e. roll_back-closed t)

  entry-logs :
      (L : List (List SqlValue))
      → WhileOpen (λ u. u.logs ≡ L) t
      → WhileOpen (λ u. u.logs ≡ L) (insert_column_dict_value a t c v id).1
  entry-logs L h =
      entry-cases (WhileOpen (λ u. u.logs ≡ L)) (λ e. h) h
        (λ e o. absurd (cc (o, roll_back-closed t)))

module _ (dump : Json → Text) (compressed : List Text) (a : Answers) where
  encode_value-keeps :
      (P : Tables → Type 0)
      → ((t : Tables) (c v : Text) (id : ℕ) → P t → P (insert_column_dict_value a t c v id).1)
      → (w : Writer) (name : Text) (s : Json) → P w.tables
      → P (encode_value dump compressed a w name s).1.tables
  unfolding encode_value
  encode_value-keeps P entry w name s h =
      elim (Bool-cases (range_contains compressed name && not (is_null s))) [
        | inl e ↦ rw e (
            get_or_create-keeps (some (insert_column_dict_value a)) w.dictionary w.tables name
              (text_of dump s) P (λ id. entry w.tables name (text_of dump s) id h) h)
        | inr e ↦ rw e h
      ]

  -- Binding a log changes the tables only by rows of the dictionary.
  pub bind_columns-keeps :
      (P : Tables → Type 0)
      → ((t : Tables) (c v : Text) (id : ℕ) → P t → P (insert_column_dict_value a t c v id).1)
      → (w : Writer) (log : Json) (cols : List ColumnInfo) → P w.tables
      → P (bind_columns dump compressed a w log cols).1.tables
  unfolding bind_columns
  bind_columns-keeps P entry w log [] h = h
  bind_columns-keeps P entry w log (ci ∷ cols) h =
      let raw = raw_value log ci.name in
      let here = encode_value-keeps P entry w ci.name (serialize_value dump raw) h in
      let rest =
        bind_columns-keeps P entry
          (encode_value dump compressed a w ci.name (serialize_value dump raw)).1 log cols here in
      elim (Bool-cases (ci.not_null && is_null raw)) [
        | inl e ↦ rw e h
        | inr e ↦
            elim (Option-cases
              (encode_value dump compressed a w ci.name (serialize_value dump raw)).0) [
                | inl k ↦ rw (e, k, bind_columns) here
                | inr (x, k) ↦ rw (e, k, bind_columns) rest
              ]
      ]

  -- A row of the log table: taken and counted, or refused, or refused with no transaction left.
  pub step_row-cases :
      (P : ℕ × Writer → Type 0) (w : Writer) (vs : List SqlValue)
      → P (1, record w { tables = record w.tables { logs = w.tables.logs ++ vs ∷ [] } })
      → P (0, w)
      → (a.takes_log vs ≡ undone → P (0, record w { tables = roll_back w.tables }))
      → P (step_row dump compressed a w vs)
  unfolding step_row
  step_row-cases P w vs row same undo = elim (StepResult-cases (a.takes_log vs)) [
    | inl e ↦ rw (e, step_row) row
    | inr (inl e) ↦ rw (e, step_row) same
    | inr (inr e) ↦ rw (e, step_row) (undo e)
  ]

  -- An invariant that binding a log and inserting a row keep is kept by the loop over the logs.
  pub insert_logs-keeps :
      (C : Json → Type 0) (P : Writer → Type 0) (cols : List ColumnInfo)
      → ((w : Writer) (log : Json) → C log → P w → P (bind_columns dump compressed a w log cols).1)
      → ((w : Writer) (vs : List SqlValue) → P w → P (step_row dump compressed a w vs).1)
      → (w : Writer) (logs : List Json) → All C logs
      → P w
      → P (insert_logs dump compressed a w cols logs).1
  unfolding insert_logs
  insert_logs-keeps C P cols bind step w [] cs h = h
  insert_logs-keeps C P cols bind step w (log ∷ logs) (c, cs) h =
      let bound = bind_columns dump compressed a w log cols in
      let skip = insert_logs-keeps C P cols bind step bound.1 logs cs (bind w log c h) in
      elim (Bound-cases bound.0) [
        | inl e ↦ rw (e, insert_logs) (bind w log c h)
        | inr (inl e) ↦ rw (e, insert_logs) skip
        | inr (inr (vs, e)) ↦
            rw (e, insert_logs)
              (insert_logs-keeps C P cols bind step (step_row dump compressed a bound.1 vs).1 logs
                cs (step bound.1 vs (bind w log c h)))
      ]

  pub any_logs : (logs : List Json) → All (λ log. Unit {0}) logs
  any_logs [] = tt
  any_logs (log ∷ logs) = (tt, any_logs logs)

  abbrev IsClosed : Writer → Type 0
  IsClosed w = is_open w ≡ false

  bind_columns-IsClosed :
      (w : Writer) (log : Json) (cols : List ColumnInfo)
      → IsClosed w
      → IsClosed (bind_columns dump compressed a w log cols).1
  bind_columns-IsClosed = bind_columns-keeps (λ t. is_some t.begun ≡ false) (entry-closed a)

  step_row-IsClosed :
      (w : Writer) (vs : List SqlValue) → IsClosed w → IsClosed (step_row dump compressed a w vs).1
  step_row-IsClosed w vs h =
      step_row-cases (λ r. IsClosed r.1) w vs h h (λ e. roll_back-closed w.tables)

  was_open : (w w' : Writer) → (IsClosed w → IsClosed w') → is_open w' ≡ true → is_open w ≡ true
  was_open w w' closed o = elim (Bool-cases (is_open w)) [
    | inl e ↦ e
    | inr e ↦ absurd (cc (closed e, o))
  ]

  pub bind_columns-was_open :
      (w : Writer) (log : Json) (cols : List ColumnInfo)
      → is_open (bind_columns dump compressed a w log cols).1 ≡ true
      → is_open w ≡ true
  bind_columns-was_open w log cols =
      was_open w (bind_columns dump compressed a w log cols).1 (bind_columns-IsClosed w log cols)

  pub step_row-was_open :
      (w : Writer) (vs : List SqlValue)
      → is_open (step_row dump compressed a w vs).1 ≡ true
      → is_open w ≡ true
  step_row-was_open w vs = was_open w (step_row dump compressed a w vs).1 (step_row-IsClosed w vs)

  pub insert_logs-was_open :
      (w : Writer) (cols : List ColumnInfo) (logs : List Json)
      → is_open (insert_logs dump compressed a w cols logs).1 ≡ true
      → is_open w ≡ true
  insert_logs-was_open w cols logs = was_open w (insert_logs dump compressed a w cols logs).1 (
      insert_logs-keeps (λ log. Unit {0}) IsClosed cols
        (λ w log c h. bind_columns-IsClosed w log cols h) step_row-IsClosed w logs (any_logs logs))

  -- Binding writes no row of the log table.
  pub bind_columns-logs :
      (w : Writer) (log : Json) (cols : List ColumnInfo)
      → is_open (bind_columns dump compressed a w log cols).1 ≡ true
      → (bind_columns dump compressed a w log cols).1.tables.logs ≡ w.tables.logs
  bind_columns-logs w log cols =
      bind_columns-keeps (WhileOpen (λ u. u.logs ≡ w.tables.logs))
        (λ t c v id. entry-logs a t c v id w.tables.logs) w log cols (λ o. refl)
