-- ===== src/Burn/Record.antt =====
-- burn/src/schema.hpp, RandomText and BuildLogRecord: a log that fits a plan. The generator of random
-- numbers and the clock are a state `R`, with what the standard library draws from it.
use loglite.Prelude.{
  Bool, List, Option, Text, [], codes, if◌then◌else◌, leb, length, none, some, suc, zero, ℕ, ◌++◌,
  ◌-◌, ◌>>=◌, ◌∷◌,
}
use loglite.Prelude.Int.{pos, pos_part, ℤ}
use loglite.Yaml.{digits}
use loglite.Json.{Fields, Json, boolean, end, integer, null, object, set_field, string}
use loglite.Burn.Schema.{
  FieldKind, FieldSpec, bool_kind, level_kind, message_kind, null_kind, number_kind, text8_kind,
  utc_now_kind,
}

-- The members of `std::tm`, the year and the month as a calendar counts them.
pub record CalendarTime : Type 0 where
  pub year : ℕ
  pub month : ℕ
  pub day : ℕ
  pub hour : ℕ
  pub minute : ℕ
  pub second : ℕ

abbrev pub zeros : ℕ → Text
zeros zero = []
zeros (suc n) = b'0' ∷ zeros n

-- `{:0wd}`
abbrev pub padded : ℕ → ℕ → Text
padded w n = zeros (w - length (digits 20 n [])) ++ digits 20 n []

unfoldable pub utc_iso8601 : CalendarTime → Text
utc_iso8601 t =
    padded 4 t.year
    ++ (b'-' ∷ padded 2 t.month)
    ++ (b'-' ∷ padded 2 t.day)
    ++ (b'T' ∷ padded 2 t.hour)
    ++ (b':' ∷ padded 2 t.minute)
    ++ (b':' ∷ padded 2 t.second)
    ++ codes "Z"

-- `D` is double.
pub record Random (R D : Type 0) : Type 0 where
  -- `uniform_int_distribution<size_t>(0, last)`
  pub index : ℕ → R → ℕ × R
  -- `uniform_int_distribution<int>(low, high)`
  pub between : ℤ → ℤ → R → ℤ × R
  -- `round(normal_distribution(mean, max(1, mean / 4)))`, which has no fraction.
  pub rounded_normal : ℕ → R → ℤ × R
  -- `uniform_real_distribution(0, 1) < ratio`
  pub below : D → R → Bool × R
  pub half : D
  -- `gmtime_r` of the clock.
  pub utc_now : R → CalendarTime × R

abbrev pub alphabet : Text
alphabet = codes "abcdefghijklmnopqrstuvwxyzABCDEFGHIJKLMNOPQRSTUVWXYZ0123456789"

abbrev pub non_info_levels : List Text
non_info_levels = codes "DEBUG" ∷ codes "WARNING" ∷ codes "ERROR" ∷ codes "CRITICAL" ∷ []

-- `xs[i]`, which has no defined behaviour out of range.
abbrev pub element_at {ℓ} : {A : Type ℓ} → List A → ℕ → Option A
element_at [] i = none
element_at (x ∷ xs) zero = some x
element_at (x ∷ xs) (suc i) = element_at xs i

-- `max(1.0, round(…))`, as a size.
abbrev pub at_least_one : ℤ → ℕ
at_least_one z = if leb 1 (pos_part z) then pos_part z else 1

abbrev pub drawn_string : {R : Type 0} → Option (Text × R) → Option (Json × R)
drawn_string none = none
drawn_string (some (s, r)) = some (string s, r)

module _ {R D : Type 0} (random : Random R D) where
  unfoldable pub random_text : ℕ → R → Option (Text × R)
  random_text zero r = some ([], r)
  random_text (suc len) r =
      let (i, r') = random.index 61 r in
      element_at alphabet i >>= λ c. random_text len r' >>= λ rest. some (c ∷ rest.0, rest.1)

  unfoldable pub random_level : D → R → Option (Text × R)
  random_level info_ratio r =
      let (is_info, r') = random.below info_ratio r in
      if is_info
      then some (codes "INFO", r')
      else (let (i, r'') = random.index 3 r' in
          element_at non_info_levels i >>= λ level. some (level, r''))

  unfoldable pub field_value : ℕ → D → FieldKind → R → Option (Json × R)
  unfolding random_text random_level utc_iso8601
  field_value mean info_ratio message_kind r =
      let (len, r') = random.rounded_normal mean r in
      drawn_string (random_text (at_least_one len) r')
  field_value mean info_ratio level_kind r = drawn_string (random_level info_ratio r)
  field_value mean info_ratio utc_now_kind r =
      let (t, r') = random.utc_now r in some (string (utc_iso8601 t), r')
  field_value mean info_ratio text8_kind r = drawn_string (random_text 8 r)
  field_value mean info_ratio number_kind r =
      let (n, r') = random.between (pos 10) (pos 500) r in some (integer n, r')
  field_value mean info_ratio null_kind r = some (null, r)
  field_value mean info_ratio bool_kind r =
      let (b, r') = random.below random.half r in some (boolean b, r')

  -- The loop over the fields, with the row so far.
  unfoldable pub fill_row : ℕ → D → List FieldSpec → Fields → R → Option (Fields × R)
  unfolding field_value
  fill_row mean info_ratio [] row r = some (row, r)
  fill_row mean info_ratio (f ∷ plan) row r = field_value mean info_ratio f.kind r >>= λ drawn.
      fill_row mean info_ratio plan (set_field row f.name drawn.0) drawn.1

  unfoldable pub build_log_record : List FieldSpec → ℕ → D → R → Option (Json × R)
  unfolding fill_row
  build_log_record plan mean info_ratio r =
      fill_row mean info_ratio plan end r >>= λ filled. some (object filled.0, filled.1)
