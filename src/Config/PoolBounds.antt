-- ===== src/Config/PoolBounds.antt =====
-- config.cpp, resolve_pool_size, on a number in decimal.
use loglite.Prelude.{
  All, Bool, Option, Text, [], append-nil, arith, false, if◌then◌else◌, ltb, none, refl, some,
  subst, true, ℕ, ◌%◌, ◌*◌, ◌+◌, ◌-◌, ◌<◌, ◌==◌, ◌^◌, ◌∙◌, ◌∷◌, ◌≡◌,
}
use loglite.Prelude.Int.{}
use loglite.Utils.{is_space, read_digits, strip_back, strip_front, strip_spaces}
use loglite.Utils.Sizes.{IsDigits, decimal, read_digits-decimal}
use loglite.Yaml.{lower, to_lower}
use loglite.Config.PoolSize.{
  c_str, resolve_pool_size, skip_digits, strtoul, strtoul_digits, strtoul_signed, ulong_max,
}

-- A character that neither trimming nor lower case changes, and that does not end a text.
abbrev IsPlain : ℕ → Type 0
IsPlain c = (is_space c ≡ false) × (to_lower c ≡ c) × ((c == 0) ≡ false)

digits-IsPlain : (d : Text) → IsDigits d → All IsPlain d
digits-IsPlain [] h = tt
digits-IsPlain (c ∷ d) h =
    ((ground (arith, h.0), ground (arith, h.0), ground (arith, h.0)), digits-IsPlain d h.1)

lower_plain : (s : Text) → All IsPlain s → lower s ≡ s
lower_plain [] h = refl
lower_plain (c ∷ s) h = rw (h.0.1, lower_plain s h.1) refl

c_str_plain : (s : Text) → All IsPlain s → c_str s ≡ s
c_str_plain [] h = refl
c_str_plain (c ∷ s) h = rw (h.0.2, c_str_plain s h.1) refl

strip_front_plain : (s : Text) → All IsPlain s → strip_front s ≡ s
strip_front_plain [] h = refl
strip_front_plain (c ∷ s) h = rw h.0.0 refl

strip_back_plain : (s : Text) → All IsPlain s → strip_back s ≡ s
strip_back_plain [] h = refl
strip_back_plain (c ∷ s) h = rw (strip_back_plain s h.1, h.0.0) (ground arith)

plain_lower : (s : Text) → All IsPlain s → lower (strip_spaces s) ≡ s
unfolding strip_spaces
plain_lower s h = rw (strip_front_plain s h, strip_back_plain s h) (lower_plain s h)

skip_digits-all : (d : Text) → IsDigits d → skip_digits d ≡ []
skip_digits-all [] h = refl
skip_digits-all (c ∷ d) h = rw (h.0, skip_digits-all d h.1) refl

read_all : (acc : ℕ) (d : Text) → IsDigits d → read_digits acc d ≡ decimal acc d
read_all acc d h =
    subst (λ t. read_digits acc t ≡ decimal acc d) (append-nil d)
      (read_digits-decimal acc d [] h refl)

strtoul_digits-all :
    (is_negative : Bool) (c : ℕ) (d : Text)
    → IsDigits (c ∷ d)
    → decimal 0 (c ∷ d) < 2 ^ 32
    → strtoul_digits is_negative (c ∷ d)
      ≡ some (
        if is_negative
            then (ulong_max + 1 - decimal 0 (c ∷ d)) % (ulong_max + 1)
            else decimal 0 (c ∷ d),
        [],
      )
strtoul_digits-all is_negative c d h small =
    let short : ltb ulong_max (decimal 0 (c ∷ d)) ≡ false = ground arith in
    rw (h.0, read_all (0 * 10 + (c - b'0')) d h.1, skip_digits-all d h.1, short) refl

signed_digits :
    (c : ℕ) (d : Text) → IsDigits (c ∷ d) → strtoul_signed (c ∷ d) ≡ strtoul_digits false (c ∷ d)
signed_digits c d h =
    let minus : (c == b'-') ≡ false = ground (arith, h.0) in
    let plus : (c == b'+') ≡ false = ground (arith, h.0) in rw (minus, plus) refl

strtoul_plain : (s : Text) → All IsPlain s → strtoul s ≡ strtoul_signed s
unfolding strtoul
strtoul_plain s h = rw (c_str_plain s h, strip_front_plain s h) refl

-- What is made of the number that strtoul finds at the whole text.
abbrev checked : ℕ → Option ℕ
checked n = if n == 0 then none else some (n % 2 ^ 32)

resolve-strtoul :
    (hardware c : ℕ) (s : Text) (n : ℕ)
    → All IsPlain (c ∷ s)
    → (c == b'a') ≡ false
    → strtoul_signed (c ∷ s) ≡ some (n, [])
    → resolve_pool_size hardware (c ∷ s) ≡ checked n
unfolding resolve_pool_size
resolve-strtoul hardware c s n h k e =
    rw (plain_lower (c ∷ s) h, k, strtoul_plain (c ∷ s) h, e) (ground arith)

wrapped :
    (n : ℕ)
    → n < 2 ^ 32
    → checked ((ulong_max + 1 - n) % (ulong_max + 1)) ≡ (if n == 0 then none else some (2 ^ 32 - n))
wrapped n h = ground arith

-- A number below 2^32 in decimal digits is the size of the pool, unless it is zero, which is refused;
-- with a minus in front it is not refused: it is the size 2^32 less the number.
pub resolve_pool_size-digits :
    (hardware c : ℕ) (d : Text)
    → IsDigits (c ∷ d)
    → decimal 0 (c ∷ d) < 2 ^ 32
    → (resolve_pool_size hardware (c ∷ d)
        ≡ (if decimal 0 (c ∷ d) == 0 then none else some (decimal 0 (c ∷ d))))
      × (resolve_pool_size hardware (b'-' ∷ c ∷ d)
          ≡ (if decimal 0 (c ∷ d) == 0 then none else some (2 ^ 32 - decimal 0 (c ∷ d))))
resolve_pool_size-digits hardware c d h small =
    let n = decimal 0 (c ∷ d) in
    let plain = digits-IsPlain (c ∷ d) h in
    let same : checked n ≡ (if n == 0 then none else some n) = ground arith in
    (
      resolve-strtoul hardware c d n plain (ground (arith, h.0))
            (signed_digits c d h ∙ strtoul_digits-all false c d h small)
          ∙ same,
      resolve-strtoul hardware b'-' (c ∷ d) _ ((refl, refl, refl), plain) refl
            (strtoul_digits-all true c d h small)
          ∙ wrapped n small,
    )
