-- ===== src/Reader/Decoding.antt =====
-- reader_database.cpp, Query, against writer_database.cpp, Insert: what is stored for a compressed
-- column is read back.
use loglite.Prelude.{
  Assoc, List, Option, Option-cases, Text, arith, false, inl, inr, insert, lookup, none, refl, some,
  subst, sym, true, ℕ, ◌%◌, ◌^◌, ◌≡◌, ◌≤◌,
}
use loglite.Prelude.Int.{pos}
use loglite.Json.{Json, integer, is_null, string, text_of}
use loglite.Utils.{int_max, overflowed, range_contains, threw}
use loglite.ColumnDict.{
  LookupTable, Outcome, PersistFn, column_map, create, get_or_create, get_value, overflowed,
  returned, threw, value,
}
use loglite.ColumnDict.Create.{IsCoded, find_id, get_value-get_or_create}
use loglite.Database.{SqlValue, column_to_json, sql_integer}
use loglite.Writer.{Answers, Writer, encode_value, insert_column_dict_value}
use loglite.Reader.{decode_cell, decoded, get_int}

-- Every id is an `int`.
abbrev pub IsInt : LookupTable → Type 0
IsInt t = (c v : Text) (id : ℕ) → find_id t c v ≡ some id → id ≤ int_max

module _ {S : Type 0} (persist : Option (PersistFn S)) (t : LookupTable) (s : S)
    (col v : Text) where
  create-fits :
      (m : Assoc ℕ) (t' : LookupTable) (id : ℕ)
      → (create persist t' m s col v).0 ≡ returned id
      → id ≤ int_max
  unfolding create
  create-fits m t' id h = ground arith

  get_or_create-fits :
      (id : ℕ) → IsInt t → (get_or_create persist t s col v).0 ≡ returned id → id ≤ int_max
  unfolding get_or_create
  get_or_create-fits id ints h = elim (Option-cases (lookup v (column_map t col))) [
    | inl e ↦
        create-fits (column_map t col) (insert col (column_map t col) t) id
          (rw (e, get_or_create) at h)
    | inr (i, e) ↦
        let same : i ≡ id = cc (rw (e, get_or_create) at h) in
        subst (λ j. j ≤ int_max) same (ints col v i e)
  ]

get_int_small : (n : ℕ) → n ≤ int_max → get_int (integer (pos n)) ≡ some n
unfolding get_int
get_int_small n h = let low : n % 2 ^ 32 ≡ n = omega (arith, h) in rw low (ground (arith, h))

-- What the writer binds for an outcome of the dictionary.
abbrev cell_of : Outcome → Option SqlValue
cell_of (returned id) = some (sql_integer (pos id))
cell_of threw = none
cell_of overflowed = none

stored_id :
    (o : Outcome) (cell : SqlValue)
    → cell_of o ≡ some cell
    → (id : ℕ) × (cell ≡ sql_integer (pos id)) × (o ≡ returned id)
stored_id (returned id) cell h = (id, cc, refl)
stored_id threw cell h = cc
stored_id overflowed cell h = cc

module _ (dump : Json → Text) (compressed : List Text) (a : Answers) where
  pub compressed_cell :
      (w : Writer) (name : Text) (s : Json) (cell : SqlValue)
      → range_contains compressed name ≡ true
      → is_null s ≡ false
      → (encode_value dump compressed a w name s).0 ≡ some cell
      → (id : ℕ) × (cell ≡ sql_integer (pos id))
        × ((get_or_create
              (some (insert_column_dict_value a))
              w.dictionary
              w.tables
              name
              (text_of dump s)).0
            ≡ returned id)
        × ((encode_value dump compressed a w name s).1.dictionary
            ≡ (get_or_create
                (some (insert_column_dict_value a))
                w.dictionary
                w.tables
                name
                (text_of dump s)).1)
  unfolding encode_value
  compressed_cell w name s cell c k h =
      let made =
        get_or_create (some (insert_column_dict_value a)) w.dictionary w.tables name
          (text_of dump s) in
      let (id, stored, outcome) = stored_id made.0 cell (rw (c, k, encode_value) at h) in
      (id, stored, outcome, rw (c, k, encode_value) refl)

  pub decode_id :
      (dictionary : LookupTable) (name v : Text) (id : ℕ)
      → range_contains compressed name ≡ true
      → id ≤ int_max
      → get_value dictionary name id ≡ value v
      → decode_cell compressed dictionary name (sql_integer (pos id)) ≡ some (string v)
  unfolding decode_cell column_to_json
  decode_id dictionary name v id c small h =
      rw (c, get_int_small id small) (subst (λ r. decoded r ≡ some (string v)) (sym h) refl)

  -- What Insert stores for a value of a compressed column that is not null, in a dictionary that is
  -- coded without ambiguity and whose ids are of type `int`, is decoded by Query as the text of that
  -- value.
  pub decode_cell-encode_value :
      (w : Writer) (name : Text) (s : Json) (cell : SqlValue)
      → IsCoded w.dictionary
      → IsInt w.dictionary
      → range_contains compressed name ≡ true
      → is_null s ≡ false
      → (encode_value dump compressed a w name s).0 ≡ some cell
      → decode_cell compressed (encode_value dump compressed a w name s).1.dictionary name cell
        ≡ some (string (text_of dump s))
  decode_cell-encode_value w name s cell coded ints c k h =
      let (id, stored, made_id, dictionary) = compressed_cell w name s cell c k h in
      let (coded', found_value, found_id, rest) =
        get_value-get_or_create (some (insert_column_dict_value a)) w.dictionary w.tables name
          (text_of dump s) id coded made_id in
      rw (stored, dictionary)
        (decode_id _ name (text_of dump s) id c
          (get_or_create-fits (some (insert_column_dict_value a)) w.dictionary w.tables name
            (text_of dump s) id ints made_id)
          found_value)
