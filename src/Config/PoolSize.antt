-- ===== src/Config/PoolSize.antt =====
-- config.cpp, resolve_pool_size, and the standard library's strtoul.
use loglite.Prelude.{
  Bool, Option, Text, [], codes, false, if◌then◌else◌, is_empty, ltb, max, none, not, some, text_eq,
  true, ℕ, ◌%◌, ◌+◌, ◌-◌, ◌==◌, ◌^◌, ◌||◌, ◌∷◌,
}
use loglite.Prelude.Int.{}
use loglite.Utils.{is_digit, read_digits, starts_with_digit, strip_front, strip_spaces}
use loglite.Yaml.{lower}

-- The text up to its first NUL: `c_str()`, as strtoul reads it.
abbrev pub c_str : Text → Text
c_str [] = []
c_str (c ∷ s) = if c == 0 then [] else c ∷ c_str s

abbrev pub skip_digits : Text → Text
skip_digits [] = []
skip_digits (c ∷ s) = if is_digit c then skip_digits s else c ∷ s

abbrev pub ulong_max : ℕ
ulong_max = 18446744073709551615

-- `strtoul(s, &end, 10)` behind the sign: no conversion, or the number and the rest at `end`. A number
-- out of range is the largest one, and a negative one wraps around.
abbrev pub strtoul_digits : Bool → Text → Option (ℕ × Text)
strtoul_digits is_negative s =
    let n = read_digits 0 s in
    if not (starts_with_digit s)
    then none
    else if ltb ulong_max n
    then some (ulong_max, skip_digits s)
    else some (if is_negative then (ulong_max + 1 - n) % (ulong_max + 1) else n, skip_digits s)

abbrev pub strtoul_signed : Text → Option (ℕ × Text)
strtoul_signed [] = none
strtoul_signed (c ∷ s) =
    if c == b'-'
    then strtoul_digits true s
    else if c == b'+'
    then strtoul_digits false s
    else strtoul_digits false (c ∷ s)

unfoldable pub strtoul : Text → Option (ℕ × Text)
strtoul s = strtoul_signed (strip_front (c_str s))

-- `hardware` is `std::thread::hardware_concurrency()`; `none` is the exception.
unfoldable pub resolve_pool_size : ℕ → Text → Option ℕ
unfolding strip_spaces strtoul
resolve_pool_size hardware db_pool_size =
    let lc = lower (strip_spaces db_pool_size) in
    if is_empty lc
    then none
    else if text_eq lc (codes "auto")
    then some (max 1 hardware)
    else elim (strtoul lc) [
      | none ↦ none
      | some (n, rest) ↦ if not (is_empty rest) || (n == 0) then none else some (n % 2 ^ 32)
    ]
