-- ===== src/Prelude/Texts.antt =====
-- Text as the list of its bytes: the strings of the program are walked byte by byte, compared,
-- and searched.
use Prim.Native.Nat.{ℕ, suc, ◌+◌}
use Prim.Native.Char.{code}
use Prim.Native.String.{String}
use mathlib.Core.Path.{◌≡◌, refl, subst}
use mathlib.Core.Logic.{◌↔◌}
use mathlib.Core.Bool.{Bool, true, false, ◌&&◌, ◌||◌}
use mathlib.Core.List.{List, [], ◌∷◌, ◌++◌}
use mathlib.Core.Option
use mathlib.Core.Option.{Option, none, some}
use native.Mathlib.Omega.{arith}
use loglite.Prelude.Lists.{All, drop, length}
use loglite.Prelude.Tests.{if◌then◌else◌, ltb, ◌==◌}

abbrev pub Text : Type 0
Text = List ℕ

-- The bytes of an ASCII literal.
abbrev pub codes : String → Text
codes String.[] = []
codes (String.◌∷◌ c s) = code c ∷ codes s

abbrev pub text_eq : Text → Text → Bool
text_eq [] [] = true
text_eq [] (d ∷ t) = false
text_eq (c ∷ s) [] = false
text_eq (c ∷ s) (d ∷ t) = (c == d) && text_eq s t

pub text_eq_iff : (s t : Text) → (text_eq s t ≡ true) ↔ (s ≡ t)
text_eq_iff [] [] = ground arith
text_eq_iff [] (d ∷ t) = ground arith
text_eq_iff (c ∷ s) [] = ground arith
text_eq_iff (c ∷ s) (d ∷ t) = ground (arith, text_eq_iff s t)

pub text_eq_refl : (s : Text) → text_eq s s ≡ true
text_eq_refl s = (text_eq_iff s s).1 refl

-- `operator<` of std::string: the bytes in order, a proper prefix below.
abbrev pub text_ltb : Text → Text → Bool
text_ltb [] [] = false
text_ltb [] (d ∷ t) = true
text_ltb (c ∷ s) [] = false
text_ltb (c ∷ s) (d ∷ t) = ltb c d || ((c == d) && text_ltb s t)

abbrev pub starts_with : Text → Text → Bool
starts_with [] s = true
starts_with (c ∷ p) [] = false
starts_with (c ∷ p) (d ∷ s) = (c == d) && starts_with p s

-- `s.find(p) != npos`.
abbrev pub contains : Text → Text → Bool
contains p [] = starts_with p []
contains p (d ∷ s) = starts_with p (d ∷ s) || contains p s

-- `s.find(c)`; `none` is npos.
abbrev pub find_char : ℕ → Text → Option ℕ
find_char c [] = none
find_char c (d ∷ s) = if c == d then some 0 else Option.map suc (find_char c s)

-- The byte `c` does not occur.
abbrev pub NoByte : ℕ → Text → Type 0
NoByte c = All (λ d. (c == d) ≡ false)

pub find_char-append :
    (c : ℕ) (s t : Text) → NoByte c s → find_char c (s ++ c ∷ t) ≡ some (length s)
find_char-append c [] t h = ground arith
find_char-append c (d ∷ s) t h = rw (h.0, find_char-append c s t h.1) refl

pub find_char-none : (c : ℕ) (s : Text) → NoByte c s → find_char c s ≡ none
find_char-none c [] h = refl
find_char-none c (d ∷ s) h = rw (h.0, find_char-none c s h.1) refl

pub drop_past : (c : ℕ) (s t : Text) → drop (length s + 1) (s ++ c ∷ t) ≡ t
drop_past c s t =
    subst (λ n. drop n (s ++ c ∷ t) ≡ t) {x = suc (length s)} (omega arith) (drop_suc c s t)
  where
    drop_suc : (c : ℕ) (s t : Text) → drop (suc (length s)) (s ++ c ∷ t) ≡ t
    drop_suc c [] t = refl
    drop_suc c (d ∷ s) t = drop_suc c s t

-- What is left of a text that is handed over as a pointer to its bytes, which a byte 0 ends.
abbrev pub c_str : Text → Text
c_str [] = []
c_str (c ∷ s) = if c == 0 then [] else c ∷ c_str s
