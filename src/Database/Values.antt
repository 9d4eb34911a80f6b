-- ===== src/Database/Values.antt =====
-- database.cpp: values on their way into a column and back, and the numbers read from pragmas.
use native.Mathlib.Nat.{div-mul-le_self, le-max_right, mul-le-mul_left}
use loglite.Prelude.{
  Bool-cases, Text, [], arith, if◌then◌else◌, inl, inr, max, refl, some, ℕ, ◌*◌, ◌/◌, ◌<◌, ◌==◌,
  ◌∷◌, ◌≡◌, ◌≤◌, ◌⊎◌,
}
use loglite.Prelude.Int.{to_signed}
use loglite.Json.{Json, array, boolean, floating, integer, null, object, string}
use loglite.Database.{
  bind_param, column_to_json, estimate_avg_row_bytes, normalize_vacuum_mode, serialize_value,
}

-- What a column keeps of a value: the low 64 bits of an integer.
abbrev pub kept : Json → Json
kept (integer n) = integer (to_signed 64 n)
kept v = v

-- What is bound for any value reads back as what is kept of its serialized form: null, floating
-- numbers and texts are unchanged, an integer has its low 64 bits, a boolean is 0 or 1, and an array or
-- an object is its text.
pub column_to_json-bind_param :
    (dump : Json → Text) (v : Json)
    → column_to_json (bind_param dump (serialize_value dump v)) ≡ kept (serialize_value dump v)
unfolding column_to_json bind_param serialize_value
column_to_json-bind_param dump null = refl
column_to_json-bind_param dump (boolean b) = refl
column_to_json-bind_param dump (integer n) = refl
column_to_json-bind_param dump (floating x) = refl
column_to_json-bind_param dump (string s) = refl
column_to_json-bind_param dump (array xs) = refl
column_to_json-bind_param dump (object fs) = refl

-- A mode that is not refused is 0, 1 or 2.
pub normalize_vacuum_mode-le : (mode : Text) (n : ℕ) → normalize_vacuum_mode mode ≡ some n → n ≤ 2
unfolding normalize_vacuum_mode
normalize_vacuum_mode-le [] n h = ground arith
normalize_vacuum_mode-le (c ∷ []) n h = ground arith
normalize_vacuum_mode-le (c ∷ d ∷ mode) n h = ground arith

estimate_of :
    (row_count db_size avg : ℕ)
    → avg * max 1 row_count ≤ db_size
    → (1 ≤ (if avg == 0 then 1 else avg))
      × (((if avg == 0 then 1 else avg) ≡ 1)
          ⊎ ((if avg == 0 then 1 else avg) * row_count ≤ db_size))
estimate_of row_count db_size avg h = elim (Bool-cases (avg == 0)) [
  | inl e ↦ rw e (omega arith, inl refl)
  | inr e ↦
      let positive : 0 < avg = ground arith in
      rw e (
        omega (arith, positive),
        inr (omega (arith, h, mul-le-mul_left avg (le-max_right 1 row_count))),
      )
]

-- The estimate is at least a byte; unless it is just that, as many rows of that size as there are
-- fit into the database.
pub estimate_avg_row_bytes-bounds :
    (row_count db_size : ℕ)
    → (1 ≤ estimate_avg_row_bytes row_count db_size)
      × ((estimate_avg_row_bytes row_count db_size ≡ 1)
          ⊎ (estimate_avg_row_bytes row_count db_size * row_count ≤ db_size))
unfolding estimate_avg_row_bytes
estimate_avg_row_bytes-bounds row_count db_size =
    estimate_of row_count db_size (db_size / max 1 row_count)
      (div-mul-le_self db_size (max 1 row_count))
