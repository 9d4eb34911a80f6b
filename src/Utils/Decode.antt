-- ===== src/Utils/Decode.antt =====
-- utils.hpp, url_decode, against the encodings that it undoes.
use loglite.Prelude.{Text, [], arith, false, refl, some, sym, ℕ, ◌*◌, ◌+◌, ◌==◌, ◌∷◌, ◌≡◌}
use loglite.Utils.{hex_byte, hex_value, plus_to_space, url_decode}

-- `t` is a percent-encoding of `s`: any byte may be escaped, by digits of either case, a space may
-- be a plus, and any byte but % and + may stand for itself.
pub data Encodes : Text → Text → Type 0 where
  done : Encodes [] []
  plain :
      {s t : Text} (c : ℕ)
      → (c == b'%') ≡ false
      → (c == b'+') ≡ false
      → Encodes s t
      → Encodes (c ∷ s) (c ∷ t)
  space : {s t : Text} {b c : ℕ} → b ≡ 32 → c ≡ b'+' → Encodes s t → Encodes (b ∷ s) (c ∷ t)
  escape :
      {s t : Text} {b c : ℕ} (d e x y : ℕ)
      → c ≡ b'%'
      → hex_value d ≡ some x
      → hex_value e ≡ some y
      → b ≡ 16 * x + y
      → Encodes s t
      → Encodes (b ∷ s) (c ∷ d ∷ e ∷ t)

url_decode-plain :
    (c : ℕ) (t : Text) → (c == b'%') ≡ false → url_decode (c ∷ t) ≡ plus_to_space c ∷ url_decode t
unfolding url_decode
url_decode-plain c [] h = refl
url_decode-plain c (d ∷ []) h = refl
url_decode-plain c (d ∷ e ∷ t) h = rw h refl

url_decode-escape :
    (d e x y : ℕ) (t : Text)
    → hex_value d ≡ some x
    → hex_value e ≡ some y
    → url_decode (b'%' ∷ d ∷ e ∷ t) ≡ (16 * x + y) ∷ url_decode t
unfolding url_decode
url_decode-escape d e x y t hx hy = rw (hx, hy, hex_byte) refl

cons_eq : {b c : ℕ} {s t u : Text} → t ≡ c ∷ u → c ≡ b → u ≡ s → t ≡ b ∷ s
cons_eq h e k = cc

not_percent : (c : ℕ) → c ≡ b'+' → (c == b'%') ≡ false
not_percent c h = ground arith

-- Decoding undoes every percent-encoding.
pub url_decode-Encodes : {s t : Text} → Encodes s t → url_decode t ≡ s
url_decode-Encodes done = unfold url_decode in refl
url_decode-Encodes (plain {t = t} c h k r) =
    cons_eq (url_decode-plain c t h) (rw k refl) (url_decode-Encodes r)
url_decode-Encodes (space {t = t} {b = b} {c = c} h k r) =
    cons_eq (url_decode-plain c t (not_percent c k)) (ground arith) (url_decode-Encodes r)
url_decode-Encodes (escape {t = t} d e x y k hx hy h r) =
    rw k (cons_eq (url_decode-escape d e x y t hx hy) (sym h) (url_decode-Encodes r))
