-- ===== src/Utils/Sizes.antt =====
-- utils.hpp, parse_size_to_bytes, and the numbers that it reads.
use loglite.Prelude.{
  All, Text, [], ap, append-nil, append_assoc, arith, codes, drop, drop-length, false,
  if◌then◌else◌, leb, length, length-append, le→leb, refl, subst, sym, take, take-length, text_eq,
  text_eq_refl, true, ℕ, ◌*◌, ◌++◌, ◌+◌, ◌-◌, ◌<◌, ◌==◌, ◌^◌, ◌∙◌, ◌∷◌, ◌≡◌, ◌≤◌,
}
use loglite.Prelude.Int.{pos, ◌*ℤ◌}
use loglite.Utils.{
  bytes, ends_with, int64_max, is_digit, number, out_of_range, parse_size_to_bytes, read_digits,
  signed_number, starts_with_digit, stoll, strip_front, times,
}

abbrev pub IsDigits : Text → Type 0
IsDigits = All (λ c. is_digit c ≡ true)

-- The value of decimal digits, behind those that `acc` stands for.
abbrev pub decimal : ℕ → Text → ℕ
decimal acc [] = acc
decimal acc (c ∷ s) = decimal (acc * 10 + (c - b'0')) s

-- Digits are read to their end, and no further.
pub read_digits-decimal :
    (acc : ℕ) (d rest : Text)
    → IsDigits d
    → starts_with_digit rest ≡ false
    → read_digits acc (d ++ rest) ≡ decimal acc d
read_digits-decimal acc [] [] h k = refl
read_digits-decimal acc [] (c ∷ rest) h k = rw k refl
read_digits-decimal acc (c ∷ d) rest h k =
    rw h.0 (read_digits-decimal (acc * 10 + (c - b'0')) d rest h.1 k)

-- A number of the range, written in digits and followed by anything but a digit, is read as itself.
pub signed_number-digits :
    (top c : ℕ) (d rest : Text)
    → IsDigits (c ∷ d)
    → starts_with_digit rest ≡ false
    → signed_number top (c ∷ d ++ rest)
      ≡ (if leb (decimal 0 (c ∷ d)) top then number (pos (decimal 0 (c ∷ d))) else out_of_range)
signed_number-digits top c d rest h k =
    let minus : (c == b'-') ≡ false = ground (arith, h.0) in
    let plus : (c == b'+') ≡ false = ground (arith, h.0) in
    rw (minus, plus, h.0, read_digits-decimal (0 * 10 + (c - b'0')) d rest h.1 k) refl

pub strip_front-digit : (c : ℕ) (s : Text) → is_digit c ≡ true → strip_front (c ∷ s) ≡ c ∷ s
strip_front-digit c s h = ground (arith, h)

stoll-digits :
    (c : ℕ) (d : Text)
    → IsDigits (c ∷ d)
    → decimal 0 (c ∷ d) ≤ int64_max
    → stoll (c ∷ d) ≡ number (pos (decimal 0 (c ∷ d)))
unfolding stoll
stoll-digits c d h le = rw (strip_front-digit c d h.0) (
    subst (λ t. signed_number int64_max t ≡ number (pos (decimal 0 (c ∷ d)))) (append-nil (c ∷ d))
      (signed_number-digits int64_max c d [] h refl
        ∙ rw (le→leb (decimal 0 (c ∷ d)) int64_max le) refl))

-- The front of a text whose end is as long as `u`.
front_length : (d w u : Text) → length w ≡ length u → length (d ++ w) - length u ≡ length d
front_length d w u e = omega (arith, length-append d w)

drop_front : (d w u : Text) → length w ≡ length u → drop (length (d ++ w) - length u) (d ++ w) ≡ w
drop_front d w u e = rw (front_length d w u e) (drop-length d w)

ends_with_other :
    (d w u : Text) → length w ≡ length u → text_eq w u ≡ false → ends_with (d ++ w) u ≡ false
ends_with_other d w u e h = rw (drop_front d w u e, h) (ground arith)

ends_with_self : (d u : Text) → ends_with (d ++ u) u ≡ true
ends_with_self d u =
    rw
      (
        drop_front d u u refl,
        text_eq_refl u,
        le→leb (length u) (length (d ++ u)) (omega (arith, length-append d u)),
      )
      refl

*ℤ-pos : (m n : ℕ) → pos m *ℤ pos n ≡ pos (m * n)
unfolding ◌*ℤ◌
*ℤ-pos m n = ground arith

times_pos :
    (n mult : ℕ) → n * mult ≤ int64_max → times (number (pos n)) mult ≡ bytes (pos (n * mult))
unfolding times
times_pos n mult h = rw *ℤ-pos (ground arith)

-- The last of some digits.
last_digit :
    (c : ℕ) (d : Text)
    → IsDigits (c ∷ d)
    → (front : Text) × (l : ℕ) × (c ∷ d ≡ front ++ l ∷ []) × (is_digit l ≡ true)
last_digit c [] h = ([], c, refl, h.0)
last_digit c (e ∷ d) h =
    let (front, l, eq, good) = last_digit e d h.1 in (c ∷ front, l, ap (◌∷◌ c) eq, good)

-- A unit of two letters is no end of a number of bytes.
not_unit :
    (c : ℕ) (d u : Text) (a b : ℕ)
    → IsDigits (c ∷ d)
    → u ≡ a ∷ b ∷ []
    → is_digit a ≡ false
    → ends_with (c ∷ d ++ codes "B") u ≡ false
not_unit c d u a b h e letter =
    let (front, l, eq, good) = last_digit c d h in
    rw e (
      subst (λ t. ends_with (t ++ codes "B") (a ∷ b ∷ []) ≡ false) (sym eq)
        (rw append_assoc
          (ends_with_other front (l ∷ codes "B") (a ∷ b ∷ []) refl (ground (arith, good, letter)))))

sized :
    (c : ℕ) (d unit : Text) (mult : ℕ)
    → IsDigits (c ∷ d)
    → 0 < mult
    → decimal 0 (c ∷ d) * mult ≤ int64_max
    → times (stoll (take (length (c ∷ d ++ unit) - length unit) (c ∷ d ++ unit))) mult
      ≡ bytes (pos (decimal 0 (c ∷ d) * mult))
sized c d unit mult h pos_mult fits =
    rw
      (
        front_length (c ∷ d) unit unit refl,
        take-length (c ∷ d) unit,
        stoll-digits c d h (grind arith),
      )
      (times_pos (decimal 0 (c ∷ d)) mult fits)

-- The units, with their powers of 1024.
pub data SizeUnit : Type 0 where
  b kb mb gb tb : SizeUnit

abbrev pub unit_text : SizeUnit → Text
unit_text b = codes "B"
unit_text kb = codes "KB"
unit_text mb = codes "MB"
unit_text gb = codes "GB"
unit_text tb = codes "TB"

abbrev pub unit_power : SizeUnit → ℕ
unit_power b = 0
unit_power kb = 1
unit_power mb = 2
unit_power gb = 3
unit_power tb = 4

-- Digits followed by a unit are their number times the unit's power of 1024, if that is in range.
pub parse_size_to_bytes-unit :
    (u : SizeUnit) (c : ℕ) (d : Text)
    → IsDigits (c ∷ d)
    → decimal 0 (c ∷ d) * 1024 ^ unit_power u ≤ int64_max
    → parse_size_to_bytes (c ∷ d ++ unit_text u)
      ≡ bytes (pos (decimal 0 (c ∷ d) * 1024 ^ unit_power u))
unfolding parse_size_to_bytes
parse_size_to_bytes-unit tb c d h fits =
    rw (ends_with_self (c ∷ d) (codes "TB"))
      (sized c d (codes "TB") (1024 ^ 4) h (omega arith) fits)
parse_size_to_bytes-unit gb c d h fits =
    rw
      (
        ends_with_other (c ∷ d) (codes "GB") (codes "TB") refl refl,
        ends_with_self (c ∷ d) (codes "GB"),
      )
      (sized c d (codes "GB") (1024 ^ 3) h (omega arith) fits)
parse_size_to_bytes-unit mb c d h fits =
    rw
      (
        ends_with_other (c ∷ d) (codes "MB") (codes "TB") refl refl,
        ends_with_other (c ∷ d) (codes "MB") (codes "GB") refl refl,
        ends_with_self (c ∷ d) (codes "MB"),
      )
      (sized c d (codes "MB") (1024 ^ 2) h (omega arith) fits)
parse_size_to_bytes-unit kb c d h fits =
    rw
      (
        ends_with_other (c ∷ d) (codes "KB") (codes "TB") refl refl,
        ends_with_other (c ∷ d) (codes "KB") (codes "GB") refl refl,
        ends_with_other (c ∷ d) (codes "KB") (codes "MB") refl refl,
        ends_with_self (c ∷ d) (codes "KB"),
      )
      (sized c d (codes "KB") 1024 h (omega arith) fits)
parse_size_to_bytes-unit b c d h fits =
    rw
      (
        not_unit c d (codes "TB") b'T' b'B' h refl refl,
        not_unit c d (codes "GB") b'G' b'B' h refl refl,
        not_unit c d (codes "MB") b'M' b'B' h refl refl,
        not_unit c d (codes "KB") b'K' b'B' h refl refl,
        ends_with_self (c ∷ d) (codes "B"),
      )
      (sized c d (codes "B") 1 h (omega arith) fits)
