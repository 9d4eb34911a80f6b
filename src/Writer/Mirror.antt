-- ===== src/Writer/Mirror.antt =====
-- writer_database.cpp: the dictionary in memory and the rows on disk tell the same ids.
use loglite.Prelude.{
  Bool-cases, List, Option, Option-cases, Text, [], ap, arith, c_str, false, if◌then◌else◌, inl,
  inr, insert, is_some, lookup, lookup-insert, not, refl, some, subst, sym, text_eq, text_eq_iff,
  true, ℕ, ◌&&◌, ◌++◌, ◌∙◌, ◌∷◌, ◌≡◌, ◌⊎◌,
}
use loglite.Json.{ColumnInfo, Json, is_null, text_of}
use loglite.Utils.{range_contains}
use loglite.ColumnDict.{LookupTable, Outcome, column_map, get_or_create, new_id}
use loglite.ColumnDict.Create.{
  Ending, IsCoded, column_map-extended, column_map-insert, column_map-touched, extended, failed,
  find_id, get_or_create-Ending, get_or_create-Kept, known, made, touched,
}
use loglite.Database.{SqlValue, serialize_value}
use loglite.Writer.Batches.{StepResult-cases, roll_back-closed, step_row-cases}
use loglite.Writer.{
  Answers, DictRow, Tables, Writer, bind_columns, encode_value, failed, insert_column_dict_value,
  is_open, load_dictionary, load_row, raw_value, step_row,
}

-- What a restart would load is what the process holds.
abbrev pub Mirrors : LookupTable → List DictRow → Type 0
Mirrors t rows = (c v : Text) → find_id t c v ≡ find_id (load_dictionary [] rows) c v

load-append :
    (lut : LookupTable) (rows : List DictRow) (row : DictRow)
    → load_dictionary lut (rows ++ row ∷ []) ≡ load_row (load_dictionary lut rows) row
unfolding load_dictionary
load-append lut [] row = refl
load-append lut (r ∷ rows) row = load-append (load_row lut r) rows row

-- An id that is set for one value of one column.
abbrev set_id : (Text → Text → Option ℕ) → Text → Text → ℕ → Text → Text → Option ℕ
set_id ids col v id c w =
    if text_eq col c then (if text_eq v w then some id else ids c w) else ids c w

find_id-load_row :
    (lut : LookupTable) (row : DictRow) (c w : Text)
    → find_id (load_row lut row) c w ≡ set_id (find_id lut) row.column row.text row.value_id c w
find_id-load_row lut row c w = ground (
  arith,
  column_map-insert row.column c (insert row.text row.value_id (column_map lut row.column)) lut,
  lookup-insert row.text w row.value_id (column_map lut row.column),
  text_eq_iff row.column c,
)

module _ (a : Answers) (t : LookupTable) (s : Tables) (col v : Text) where
  abbrev call : Outcome × LookupTable × Tables
  call = get_or_create (some (insert_column_dict_value a)) t s col v

  find_id-extended :
      (c w : Text)
      → find_id (extended (some (insert_column_dict_value a)) t s col v) c w
        ≡ set_id (find_id t) col v (new_id (column_map t col)) c w
  find_id-extended c w = ground (
    arith,
    column_map-extended (some (insert_column_dict_value a)) t s col v c,
    lookup-insert v w (new_id (column_map t col)) (column_map t col),
    text_eq_iff col c,
  )

  persisted_row :
      (id : ℕ) (s' : Tables)
      → c_str col ≡ col
      → c_str v ≡ v
      → insert_column_dict_value a s col v id ≡ (true, s')
      → (s'.column_dictionary
          ≡ s.column_dictionary ++ record { column = col; text = v; value_id = id } ∷ [])
        × (s'.begun ≡ s.begun)
  unfolding insert_column_dict_value
  persisted_row id s' hc hv h = elim (StepResult-cases (a.takes_entry col v id)) [
    | inl e ↦
        let same = ap (λ r. r.1) (rw (e, insert_column_dict_value, hc, hv) at h) in
        (
          sym (ap (λ (t : Tables). t.column_dictionary) same),
          sym (ap (λ (t : Tables). t.begun) same),
        )
    | inr (inl e) ↦ absurd (cc (rw (e, insert_column_dict_value) at h))
    | inr (inr e) ↦ absurd (cc (rw (e, insert_column_dict_value) at h))
  ]

  refused_row :
      (id : ℕ) (s' : Tables)
      → insert_column_dict_value a s col v id ≡ (false, s')
      → (s' ≡ s) ⊎ (is_some s'.begun ≡ false)
  unfolding insert_column_dict_value
  refused_row id s' h = elim (StepResult-cases (a.takes_entry col v id)) [
    | inl e ↦ absurd (cc (rw (e, insert_column_dict_value) at h))
    | inr (inl e) ↦ inl (sym (ap (λ r. r.1) (rw (e, insert_column_dict_value) at h)))
    | inr (inr e) ↦ inr (
        subst (λ t. is_some t.begun ≡ false) (ap (λ r. r.1) (rw (e, insert_column_dict_value) at h))
          (roll_back-closed s))
  ]

  find_id-touched :
      (c w : Text)
      → find_id (touched (some (insert_column_dict_value a)) t s col v) c w ≡ find_id t c w
  find_id-touched c w =
      ap (lookup w) (column_map-touched (some (insert_column_dict_value a)) t s col v c)

  set_id-eq :
      (ids ids' : Text → Text → Option ℕ) (id : ℕ) (c w : Text)
      → ids c w ≡ ids' c w
      → set_id ids col v id c w ≡ set_id ids' col v id c w
  set_id-eq ids ids' id c w h = ground arith

  -- While a transaction is open, the dictionary and the rows tell the same ids.
  abbrev pub MirrorsOpen : LookupTable → Tables → Type 0
  MirrorsOpen lut t = is_some t.begun ≡ true → Mirrors lut t.column_dictionary

  Ending-Mirrors :
      (r : Outcome × LookupTable × Tables)
      → c_str col ≡ col
      → c_str v ≡ v
      → Ending (some (insert_column_dict_value a)) t s col v r
      → MirrorsOpen t s
      → MirrorsOpen r.1 r.2
  Ending-Mirrors r hc hv (known id e) m o c w = find_id-touched c w ∙ m o c w
  Ending-Mirrors r hc hv (made s' e persisted) m o c w =
      let id = new_id (column_map t col) in
      let row : DictRow = record { column = col; text = v; value_id = id } in
      let (rows, same) = persisted_row id s' hc hv persisted in
      find_id-extended c w
      ∙ set_id-eq (find_id t) (find_id (load_dictionary [] s.column_dictionary)) id c w
          (m (ap is_some (sym same) ∙ o) c w)
      ∙ sym (find_id-load_row (load_dictionary [] s.column_dictionary) row c w)
      ∙ ap (λ (lut : LookupTable). find_id lut c w) (sym (load-append [] s.column_dictionary row))
      ∙ ap (λ rows. find_id (load_dictionary [] rows) c w) (sym rows)
  Ending-Mirrors r hc hv (failed x s' never why) m o c w =
      untouched s' (refused_or_same s' why) o c w
    where
      refused_or_same :
          (s' : Tables)
          → (s' ≡ s)
            ⊎ (insert_column_dict_value a s col v (new_id (column_map t col)) ≡ (false, s'))
          → (s' ≡ s) ⊎ (is_some s'.begun ≡ false)
      refused_or_same s' (inl e) = inl e
      refused_or_same s' (inr e) = refused_row (new_id (column_map t col)) s' e

      untouched :
          (s' : Tables)
          → (s' ≡ s) ⊎ (is_some s'.begun ≡ false)
          → MirrorsOpen (touched (some (insert_column_dict_value a)) t s col v) s'
      untouched s' (inl e) = rw e (λ o c w. find_id-touched c w ∙ m o c w)
      untouched s' (inr e) = λ o. absurd (cc (e, o))

  -- However a call ends, an open transaction has rows that tell what the dictionary tells.
  pub call-Mirrors : c_str col ≡ col → c_str v ≡ v → MirrorsOpen t s → MirrorsOpen call.1 call.2
  call-Mirrors hc hv =
      Ending-Mirrors call hc hv (get_or_create-Ending (some (insert_column_dict_value a)) t s col v)

-- A writer is consistent when its dictionary is coded without ambiguity and mirrored on disk.
pub record IsConsistent (w : Writer) : Type 0 where
  pub coded : IsCoded w.dictionary
  pub mirrored : Mirrors w.dictionary w.tables.column_dictionary

-- The same, while a transaction is open.
abbrev pub IsConsistentOpen : Writer → Type 0
IsConsistentOpen w =
    IsCoded w.dictionary × (is_open w ≡ true → Mirrors w.dictionary w.tables.column_dictionary)

module _ (dump : Json → Text) (compressed : List Text) where
  -- No value of a compressed column has a byte 0, nor has the column's name.
  abbrev pub IsWhole : List ColumnInfo → Json → Type 0
  IsWhole [] log = Unit {0}
  IsWhole (ci ∷ cols) log =
      (range_contains compressed ci.name ≡ true
        → (c_str ci.name ≡ ci.name)
          × (c_str (text_of dump (serialize_value dump (raw_value log ci.name)))
              ≡ text_of dump (serialize_value dump (raw_value log ci.name))))
      × IsWhole cols log

module _ (dump : Json → Text) (compressed : List Text) (a : Answers) where
  encode_value-IsConsistent :
      (w : Writer) (name : Text) (s : Json)
      → (range_contains compressed name ≡ true
          → (c_str name ≡ name) × (c_str (text_of dump s) ≡ text_of dump s))
      → IsConsistentOpen w
      → IsConsistentOpen (encode_value dump compressed a w name s).1
  unfolding encode_value
  encode_value-IsConsistent w name s whole (coded, mirrored) =
      elim (Bool-cases (range_contains compressed name && not (is_null s))) [
        | inl e ↦
            let (hc, hv) = whole (ground (arith, e)) in
            rw e (
              (get_or_create-Kept (some (insert_column_dict_value a)) w.dictionary w.tables name
                  (text_of dump s) coded).0,
              call-Mirrors a w.dictionary w.tables name (text_of dump s) hc hv mirrored,
            )
        | inr e ↦ rw e (coded, mirrored)
      ]

  pub bind_columns-IsConsistent :
      (w : Writer) (log : Json) (cols : List ColumnInfo)
      → IsWhole dump compressed cols log
      → IsConsistentOpen w
      → IsConsistentOpen (bind_columns dump compressed a w log cols).1
  unfolding bind_columns
  bind_columns-IsConsistent w log [] whole h = h
  bind_columns-IsConsistent w log (ci ∷ cols) (one, whole) h =
      let raw = raw_value log ci.name in
      let here = encode_value-IsConsistent w ci.name (serialize_value dump raw) one h in
      let rest =
        bind_columns-IsConsistent
          (encode_value dump compressed a w ci.name (serialize_value dump raw)).1 log cols whole
          here in
      elim (Bool-cases (ci.not_null && is_null raw)) [
        | inl e ↦ rw e h
        | inr e ↦
            elim (Option-cases
              (encode_value dump compressed a w ci.name (serialize_value dump raw)).0) [
                | inl k ↦ rw (e, k, bind_columns) here
                | inr (x, k) ↦ rw (e, k, bind_columns) rest
              ]
      ]

  pub step_row-IsConsistent :
      (w : Writer) (vs : List SqlValue)
      → IsConsistentOpen w
      → IsConsistentOpen (step_row dump compressed a w vs).1
  step_row-IsConsistent w vs h =
      step_row-cases dump compressed a (λ r. IsConsistentOpen r.1) w vs h h
        (λ e. (h.0, λ o. absurd (cc (o, roll_back-closed w.tables))))
