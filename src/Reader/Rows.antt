-- ===== src/Reader/Rows.antt =====
-- reader_database.cpp, Query, against writer_database.cpp, Insert: a row that is stored is read back.
use loglite.Prelude.{
  Bool, Bool-cases, List, Option-cases, Text, [], arith, false, if◌then◌else◌, inl, inr, not, refl,
  some, some_eq, subst, sym, true, ℕ, ◌&&◌, ◌>>=◌, ◌∷◌, ◌≡◌,
}
use loglite.Json.{
  ColumnInfo, Fields, Json, array, boolean, end, floating, integer, is_null, null, object,
  set_field, string, text_of,
}
use loglite.Utils.{range_contains}
use loglite.ColumnDict.{LookupTable, get_value}
use loglite.ColumnDict.Create.{
  IsCoded, failed, find_id, get_or_create-Kept, get_value-find_id, get_value-get_or_create,
}
use loglite.Database.Values.{column_to_json-bind_param, kept}
use loglite.Database.{SqlValue, bind_param, pluck_column_names, serialize_value}
use loglite.Writer.{
  Answers, Bound, Writer, bind_columns, encode_value, failed, insert_column_dict_value, raw_value,
  skipped, values, with_value,
}
use loglite.Reader.{decode_cell, decode_row, decoded, get_int, is_integer}
use loglite.Reader.Decoding.{IsInt, compressed_cell, decode_id}

-- No value of the first dictionary has another id in the second, or none.
abbrev pub Extends : LookupTable → LookupTable → Type 0
Extends t t' = (c v : Text) (id : ℕ) → find_id t c v ≡ some id → find_id t' c v ≡ some id

-- The parts of a row's values.
with_value-values :
    (v : SqlValue) (b : Bound) (vs : List SqlValue)
    → with_value v b ≡ values vs
    → (us : List SqlValue) × (b ≡ values us) × (vs ≡ v ∷ us)
with_value-values v (values us) vs h = (us, refl, cc)
with_value-values v skipped vs h = cc
with_value-values v failed vs h = cc

both_hold : (b c : Bool) → (b && not c) ≡ true → (b ≡ true) × (c ≡ false)
both_hold b c h = ground (arith, h)

module _ (dump : Json → Text) (compressed : List Text) where
  abbrev is_coded_value : Text → Json → Bool
  is_coded_value name s = range_contains compressed name && not (is_null s)

  -- What a reader sees of a value: its text, where its column is compressed, and else what is kept of the
  -- value as it is serialized.
  abbrev pub view : Text → Json → Json
  view name raw =
      let s = serialize_value dump raw in
      if is_coded_value name s then string (text_of dump s) else kept s

  abbrev pub row_view : Json → List ColumnInfo → Fields
  row_view log [] = end
  row_view log (ci ∷ cols) =
      set_field (row_view log cols) ci.name (view ci.name (raw_value log ci.name))

module _ (dump : Json → Text) (compressed : List Text) (a : Answers) where
  encode_value-Extends :
      (w : Writer) (name : Text) (s : Json)
      → IsCoded w.dictionary
      → IsCoded (encode_value dump compressed a w name s).1.dictionary
        × Extends w.dictionary (encode_value dump compressed a w name s).1.dictionary
  unfolding encode_value
  encode_value-Extends w name s coded = elim (Bool-cases (is_coded_value dump compressed name s)) [
    | inl e ↦ rw e (
        get_or_create-Kept (some (insert_column_dict_value a)) w.dictionary w.tables name
          (text_of dump s) coded)
    | inr e ↦ rw e (coded, λ c v id h. h)
  ]

  pub bind_columns-Extends :
      (w : Writer) (log : Json) (cols : List ColumnInfo)
      → IsCoded w.dictionary
      → IsCoded (bind_columns dump compressed a w log cols).1.dictionary
        × Extends w.dictionary (bind_columns dump compressed a w log cols).1.dictionary
  unfolding bind_columns
  bind_columns-Extends w log [] coded = (coded, λ c v id h. h)
  bind_columns-Extends w log (ci ∷ cols) coded =
      let raw = raw_value log ci.name in
      let one = encode_value dump compressed a w ci.name (serialize_value dump raw) in
      let (coded', kept) = encode_value-Extends w ci.name (serialize_value dump raw) coded in
      let (coded'', rest) = bind_columns-Extends one.1 log cols coded' in
      elim (Bool-cases (ci.not_null && is_null raw)) [
        | inl e ↦ rw e (coded, λ c v id h. h)
        | inr e ↦ elim (Option-cases one.0) [
          | inl k ↦ rw (e, k, bind_columns) (coded', kept)
          | inr (x, k) ↦ rw (e, k, bind_columns) (coded'', λ c v id h. rest c v id (kept c v id h))
        ]
      ]

  -- A value that is coded by an id.
  coded_cell :
      (w : Writer) (name : Text) (s : Json) (cell : SqlValue) (t : LookupTable)
      → IsCoded w.dictionary
      → IsCoded t
      → IsInt t
      → Extends (encode_value dump compressed a w name s).1.dictionary t
      → range_contains compressed name ≡ true
      → is_null s ≡ false
      → (encode_value dump compressed a w name s).0 ≡ some cell
      → decode_cell compressed t name cell ≡ some (string (text_of dump s))
  coded_cell w name s cell t coded coded' ints later c k h =
      let (id, stored, made_id, dictionary) =
        compressed_cell dump compressed a w name s cell c k h in
      let (coded'', found_value, found_id, rest) =
        get_value-get_or_create (some (insert_column_dict_value a)) w.dictionary w.tables name
          (text_of dump s) id coded made_id in
      let now =
        later name (text_of dump s) id
          (subst (λ d. find_id d name (text_of dump s) ≡ some id) (sym dictionary) found_id) in
      rw stored (
        decode_id dump compressed a t name (text_of dump s) id c (ints name (text_of dump s) id now)
          (get_value-find_id t name (text_of dump s) id coded' now))

  -- A value that is stored as it is.
  plain_cell :
      (t : LookupTable) (name : Text) (raw : Json)
      → is_coded_value dump compressed name (serialize_value dump raw) ≡ false
      → decode_cell compressed t name (bind_param dump (serialize_value dump raw))
        ≡ some (kept (serialize_value dump raw))
  unfolding decode_cell
  plain_cell t name raw h =
      rw (column_to_json-bind_param dump raw) (not_decoded name (serialize_value dump raw) h)
    where
      not_decoded :
          (name : Text) (s : Json)
          → is_coded_value dump compressed name s ≡ false
          → (if range_contains compressed name && is_integer (kept s)
              then (get_int (kept s) >>= λ id. decoded (get_value t name id))
              else some (kept s))
            ≡ some (kept s)
      not_decoded name null h = ground arith
      not_decoded name (boolean b) h = ground arith
      not_decoded name (integer n) h = ground (arith, h)
      not_decoded name (floating x) h = ground arith
      not_decoded name (string x) h = ground arith
      not_decoded name (array x) h = ground arith
      not_decoded name (object x) h = ground arith

  cell-view :
      (w : Writer) (name : Text) (raw : Json) (cell : SqlValue) (t : LookupTable)
      → IsCoded w.dictionary
      → IsCoded t
      → IsInt t
      → Extends (encode_value dump compressed a w name (serialize_value dump raw)).1.dictionary t
      → (encode_value dump compressed a w name (serialize_value dump raw)).0 ≡ some cell
      → decode_cell compressed t name cell ≡ some (view dump compressed name raw)
  unfolding encode_value
  cell-view w name raw cell t coded coded' ints later h =
      let s = serialize_value dump raw in
      elim (Bool-cases (is_coded_value dump compressed name s)) [
        | inl e ↦
            let (c, k) = both_hold (range_contains compressed name) (is_null s) e in
            rw e (coded_cell w name s cell t coded coded' ints later c k h)
        | inr e ↦
            let stored : bind_param dump s ≡ cell = some_eq (rw (e, encode_value) at h) in
            rw (e, ← stored) (plain_cell t name raw e)
      ]

  pub decode_row-bind_columns :
      (w : Writer) (log : Json) (cols : List ColumnInfo) (vs : List SqlValue) (t : LookupTable)
      → IsCoded w.dictionary
      → IsCoded t
      → IsInt t
      → Extends (bind_columns dump compressed a w log cols).1.dictionary t
      → (bind_columns dump compressed a w log cols).0 ≡ values vs
      → decode_row compressed t (pluck_column_names cols) vs
        ≡ some (row_view dump compressed log cols)
  unfolding bind_columns decode_row
  decode_row-bind_columns w log [] vs t coded coded' ints later h = refl
  decode_row-bind_columns w log (ci ∷ cols) vs t coded coded' ints later h =
      let raw = raw_value log ci.name in
      let one = encode_value dump compressed a w ci.name (serialize_value dump raw) in
      let (coded'', kept) = encode_value-Extends w ci.name (serialize_value dump raw) coded in
      let (after_coded, rest) = bind_columns-Extends one.1 log cols coded'' in
      elim (Bool-cases (ci.not_null && is_null raw)) [
        | inl e ↦ absurd (cc (rw (e, bind_columns) at h))
        | inr e ↦ elim (Option-cases one.0) [
          | inl k ↦ absurd (cc (rw (e, k, bind_columns) at h))
          | inr (cell, k) ↦
              let (us, bound, row) = with_value-values cell _ vs (rw (e, k, bind_columns) at h) in
              let after = (bind_columns dump compressed a one.1 log cols).1.dictionary in
              let later' : Extends after t = rw (e, k, bind_columns) at later in
              let first =
                cell-view w ci.name raw cell t coded coded' ints
                  (λ c v id f. later' c v id (rest c v id f)) k in
              let others =
                decode_row-bind_columns one.1 log cols us t coded'' coded' ints later' bound in
              rw (row, decode_row, first, others) refl
        ]
      ]
