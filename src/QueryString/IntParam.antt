-- ===== src/QueryString/IntParam.antt =====
-- common.hpp, ParseIntParam.
use loglite.Prelude.{
  Option, Text, [], append-nil, arith, false, if◌then◌else◌, leb, le→leb, none, refl, some, subst,
  true, ℕ, ◌*◌, ◌++◌, ◌+◌, ◌-◌, ◌∙◌, ◌∷◌, ◌≡◌, ◌≤◌,
}
use loglite.Prelude.Int.{pos, sub_ℕ, ℤ}
use loglite.Utils.{int_max, read_digits, starts_with_digit, stoi}
use loglite.Utils.Sizes.{
  IsDigits, decimal, read_digits-decimal, signed_number-digits, strip_front-digit,
}
use loglite.QueryString.{all_digits_or_minus, as_option, parse_int_param}

accepted_digits : (d : Text) → IsDigits d → all_digits_or_minus d ≡ true
accepted_digits [] h = refl
accepted_digits (c ∷ d) h = rw (h.0, accepted_digits d h.1) refl

accepted-append :
    (d rest : Text)
    → all_digits_or_minus d ≡ true
    → all_digits_or_minus rest ≡ true
    → all_digits_or_minus (d ++ rest) ≡ true
accepted-append [] rest h k = k
accepted-append (c ∷ d) rest h k = ground (arith, accepted-append d rest)

-- What a number in decimal is as a parameter, when its largest value is `top`.
abbrev in_int : ℕ → ℕ → ℤ → Option ℤ
in_int top n z = if leb n top then some z else none

positive :
    (c : ℕ) (d rest : Text)
    → IsDigits (c ∷ d)
    → starts_with_digit rest ≡ false
    → as_option (stoi (c ∷ d ++ rest))
      ≡ in_int int_max (decimal 0 (c ∷ d)) (pos (decimal 0 (c ∷ d)))
unfolding stoi
positive c d rest h k =
    rw (strip_front-digit c (d ++ rest) h.0, signed_number-digits int_max c d rest h k)
      (ground arith)

negative :
    (c : ℕ) (d : Text)
    → IsDigits (c ∷ d)
    → as_option (stoi (b'-' ∷ c ∷ d))
      ≡ in_int (int_max + 1) (decimal 0 (c ∷ d)) (sub_ℕ 0 (decimal 0 (c ∷ d)))
unfolding stoi
negative c d h =
    let first = 0 * 10 + (c - b'0') in
    let all : read_digits first d ≡ decimal first d =
      subst (λ t. read_digits first t ≡ decimal first d) (append-nil d)
        (read_digits-decimal first d [] h.1 refl) in
    rw (h.0, all) (ground arith)

-- Decimal digits are the number that they write, with a minus in front its negative, if it fits an
-- `int`; else the parameter is refused.
pub parse_int_param-digits :
    (c : ℕ) (d : Text)
    → IsDigits (c ∷ d)
    → (parse_int_param (c ∷ d)
        ≡ (if leb (decimal 0 (c ∷ d)) int_max then some (pos (decimal 0 (c ∷ d))) else none))
      × (parse_int_param (b'-' ∷ c ∷ d) ≡ (
          if leb (decimal 0 (c ∷ d)) (int_max + 1)
          then some (sub_ℕ 0 (decimal 0 (c ∷ d)))
          else none))
unfolding parse_int_param
parse_int_param-digits c d h = (
  rw (accepted_digits (c ∷ d) h) (
      subst (λ t. as_option (stoi t) ≡ in_int int_max (decimal 0 (c ∷ d)) (pos (decimal 0 (c ∷ d))))
        (append-nil (c ∷ d)) (positive c d [] h refl)),
  rw (accepted_digits (c ∷ d) h) (negative c d h),
)

-- A minus behind the digits does not make a parameter invalid: the number in front of it is taken,
-- whatever digits and minuses follow.
pub parse_int_param_tail :
    (c : ℕ) (d rest : Text)
    → IsDigits (c ∷ d)
    → all_digits_or_minus rest ≡ true
    → decimal 0 (c ∷ d) ≤ int_max
    → parse_int_param (c ∷ d ++ b'-' ∷ rest) ≡ some (pos (decimal 0 (c ∷ d)))
unfolding parse_int_param
parse_int_param_tail c d rest h k le =
    rw (accepted-append (c ∷ d) (b'-' ∷ rest) (accepted_digits (c ∷ d) h) k)
      (positive c d (b'-' ∷ rest) h refl ∙ rw (le→leb (decimal 0 (c ∷ d)) int_max le) refl)
