-- ===== src/Utils.antt =====
-- cpp/src/utils.hpp: numbers in text, sizes, percent-decoding and trimming, and the searches of a
-- range. `stoll` and `stoi` are the standard library's: blanks, a sign, digits, and what follows the
-- digits is ignored. Clocks and the calendar's formats are not modelled.
pub mod Decode
pub mod Sizes
mod Spaces
mod Tests
use loglite.Prelude.{
  Bool, List, Option, Text, [], any, codes, drop, false, if◌then◌else◌, is_empty, leb, length, none,
  not, some, take, text_eq, ℕ, ◌%◌, ◌&&◌, ◌*◌, ◌++◌, ◌+◌, ◌-◌, ◌==◌, ◌||◌, ◌∷◌,
}
use loglite.Prelude.Int.{neg_part, pos, pos_part, sub_ℕ, ℤ, ◌*ℤ◌}

-- `std::isspace` in the C locale.
abbrev pub is_space : ℕ → Bool
is_space c = (c == 32) || (leb 9 c && leb c 13)

abbrev pub is_digit : ℕ → Bool
is_digit c = leb b'0' c && leb c b'9'

-- `range_contains` on a range of texts, and on one of integers.
abbrev pub range_contains : List Text → Text → Bool
range_contains r v = any (λ x. text_eq x v) r

abbrev pub eq_ℤ : ℤ → ℤ → Bool
eq_ℤ a b = (pos_part a == pos_part b) && (neg_part a == neg_part b)

abbrev pub range_contains_int : List ℤ → ℤ → Bool
range_contains_int r v = any (λ x. eq_ℤ x v) r

-- What a conversion to an integer of a given range does.
pub data Number : Type 0 where
  number : ℤ → Number
  invalid out_of_range : Number

-- The value of the digits at the front, behind those that `acc` stands for.
abbrev pub read_digits : ℕ → Text → ℕ
read_digits acc [] = acc
read_digits acc (c ∷ s) =
    let rest = read_digits (acc * 10 + (c - b'0')) s in if is_digit c then rest else acc

abbrev pub starts_with_digit : Text → Bool
starts_with_digit [] = false
starts_with_digit (c ∷ s) = is_digit c

-- The digits behind the sign; `top` is the largest value, and the least is -(top + 1).
abbrev pub unsigned_number : ℕ → Text → Number
unsigned_number top s =
    if not (starts_with_digit s)
    then invalid
    else if leb (read_digits 0 s) top
    then number (pos (read_digits 0 s))
    else out_of_range

abbrev pub negated_number : ℕ → Text → Number
negated_number top s =
    if not (starts_with_digit s)
    then invalid
    else if leb (read_digits 0 s) (top + 1)
    then number (sub_ℕ 0 (read_digits 0 s))
    else out_of_range

abbrev pub signed_number : ℕ → Text → Number
signed_number top [] = invalid
signed_number top (c ∷ s) =
    if c == b'-'
    then negated_number top s
    else if c == b'+'
    then unsigned_number top s
    else unsigned_number top (c ∷ s)

-- `while (!s.empty() && isspace(s.front())) s.remove_prefix(1)`
abbrev pub strip_front : Text → Text
strip_front [] = []
strip_front (c ∷ s) = if is_space c then strip_front s else c ∷ s

-- `while (!s.empty() && isspace(s.back())) s.remove_suffix(1)`
abbrev pub strip_back : Text → Text
strip_back [] = []
strip_back (c ∷ s) = if is_empty (strip_back s) && is_space c then [] else c ∷ strip_back s

unfoldable pub strip_spaces : Text → Text
strip_spaces s = strip_back (strip_front s)

abbrev pub int_max : ℕ
int_max = 2147483647

abbrev pub int64_max : ℕ
int64_max = 9223372036854775807

unfoldable pub stoi : Text → Number
stoi s = signed_number int_max (strip_front s)

unfoldable pub stoll : Text → Number
stoll s = signed_number int64_max (strip_front s)

abbrev pub ends_with : Text → Text → Bool
ends_with s u = leb (length u) (length s) && text_eq (drop (length s - length u) s) u

-- The sizes that `parse_size_to_bytes` returns, and what it throws. A product past the range of
-- int64 has no defined value.
pub data Size : Type 0 where
  bytes : ℤ → Size
  threw overflowed : Size

abbrev fits_int64 : ℤ → Bool
fits_int64 n = leb (pos_part n) int64_max && leb (neg_part n) (int64_max + 1)

times : Number → ℕ → Size
times (number n) mult =
    let total = n *ℤ pos mult in if fits_int64 total then bytes total else overflowed
times invalid mult = threw
times out_of_range mult = threw

-- The units with their multipliers, in the order in which the loop tries them.
abbrev units : List (Text × ℕ)
units =
    (codes "TB", 1024 * 1024 * 1024 * 1024)
    ∷ (codes "GB", 1024 * 1024 * 1024)
    ∷ (codes "MB", 1024 * 1024)
    ∷ (codes "KB", 1024)
    ∷ (codes "B", 1)
    ∷ []

try_units : List (Text × ℕ) → Text → Size
unfolding times stoll
try_units [] s = threw
try_units ((unit, mult) ∷ rest) s =
    if ends_with s unit
    then times (stoll (take (length s - length unit) s)) mult
    else try_units rest s

unfoldable pub parse_size_to_bytes : Text → Size
unfolding try_units
parse_size_to_bytes = try_units units

-- The value of a hexadecimal digit.
abbrev pub hex_value : ℕ → Option ℕ
hex_value c =
    if is_digit c
    then some (c - b'0')
    else if leb b'a' c && leb c b'f'
    then some (c - b'a' + 10)
    else if leb b'A' c && leb c b'F'
    then some (c - b'A' + 10)
    else none

-- `static_cast<char>(std::stoi(hex, nullptr, 16))` on two characters: nothing where stoi throws.
-- A blank or a sign may stand for the first digit, and a second character that is no digit is
-- ignored (so is the x of 0x).
unfoldable pub hex_byte : ℕ → ℕ → Text
hex_byte d e = elim (hex_value d) [
  | some x ↦ elim (hex_value e) [ some y ↦ (16 * x + y) ∷ [] | none ↦ x ∷ [] ]
  | none ↦ elim (hex_value e) [
    | none ↦ []
    | some y ↦
        if is_space d || (d == b'+')
        then y ∷ []
        else if d == b'-'
        then ((256 - y) % 256) ∷ []
        else []
  ]
]

abbrev plus_to_space : ℕ → ℕ
plus_to_space c = if c == b'+' then 32 else c

unfoldable pub url_decode : Text → Text
unfolding hex_byte
url_decode [] = []
url_decode (c ∷ []) = plus_to_space c ∷ []
url_decode (c ∷ d ∷ []) = plus_to_space c ∷ plus_to_space d ∷ []
url_decode (c ∷ d ∷ e ∷ s) =
    let escaped = url_decode s in
    let plain = url_decode (d ∷ e ∷ s) in
    if c == b'%' then hex_byte d e ++ escaped else plus_to_space c ∷ plain
