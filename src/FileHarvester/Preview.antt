-- ===== src/FileHarvester/Preview.antt =====
-- file.hpp, escaped_preview: the text of a line for a message.
use loglite.Prelude.{
  All, All-append, Bool, Bool-cases, Text, [], append-nil, arith, codes, if◌then◌else◌, inl, inr,
  leb, length, length-append, ltb, suc, zero, ℕ, ◌%◌, ◌&&◌, ◌*◌, ◌++◌, ◌+◌, ◌-◌, ◌/◌, ◌==◌, ◌∷◌,
  ◌≤◌,
}

-- `std::isprint` in the C locale.
abbrev pub is_print : ℕ → Bool
is_print c = leb 32 c && leb c 126

abbrev pub hex_digit : ℕ → ℕ
hex_digit d = if ltb d 10 then b'0' + d else b'A' + (d - 10)

unfoldable pub escaped_byte : ℕ → Text
escaped_byte c =
    if c == 10
    then b'\\' ∷ b'n' ∷ []
    else if c == 13
    then b'\\' ∷ b'r' ∷ []
    else if c == 9
    then b'\\' ∷ b't' ∷ []
    else if is_print c
    then c ∷ []
    else b'\\' ∷ b'x' ∷ hex_digit (c / 16 % 16) ∷ hex_digit (c % 16) ∷ []

unfoldable pub escaped_bytes : ℕ → Text → Text
unfolding escaped_byte
escaped_bytes zero s = []
escaped_bytes (suc n) [] = []
escaped_bytes (suc n) (c ∷ s) = escaped_byte c ++ escaped_bytes n s

unfoldable pub escaped_preview : Text → ℕ → Text
unfolding escaped_bytes
escaped_preview s max_bytes =
    escaped_bytes max_bytes s ++ (if ltb max_bytes (length s) then codes "..." else [])

abbrev pub IsPrintable : Text → Type 0
IsPrintable = All (λ c. (32 ≤ c) × (c ≤ 126))

escaped_byte_bound : (c : ℕ) → IsPrintable (escaped_byte c) × (length (escaped_byte c) ≤ 4)
unfolding escaped_byte
escaped_byte_bound c = ground arith

escaped_bytes_bound :
    (n : ℕ) (s : Text) → IsPrintable (escaped_bytes n s) × (length (escaped_bytes n s) ≤ 4 * n)
unfolding escaped_bytes
escaped_bytes_bound zero s = (tt, omega arith)
escaped_bytes_bound (suc n) [] = (tt, omega arith)
escaped_bytes_bound (suc n) (c ∷ s) =
    let (p, k) = escaped_byte_bound c in
    let (ps, m) = escaped_bytes_bound n s in
    (
      All-append _ (escaped_byte c) (escaped_bytes n s) p ps,
      omega (arith, length-append (escaped_byte c) (escaped_bytes n s), k, m),
    )

-- A preview of any bytes is printable ASCII, and at most four times as long as the limit, and three.
pub escaped_preview_bound :
    (s : Text) (max_bytes : ℕ)
    → IsPrintable (escaped_preview s max_bytes)
      × (length (escaped_preview s max_bytes) ≤ 4 * max_bytes + 3)
unfolding escaped_preview
escaped_preview_bound s max_bytes =
    let (ps, m) = escaped_bytes_bound max_bytes s in
    elim (Bool-cases (ltb max_bytes (length s))) [
      | inl e ↦ rw e (
        All-append _ (escaped_bytes max_bytes s) (codes "...") ps (omega arith),
        omega (arith, length-append (escaped_bytes max_bytes s) (codes "..."), m),
      )
      | inr e ↦ rw (e, append-nil (escaped_bytes max_bytes s)) (ps, omega (arith, m))
    ]
