-- ===== src/Utils/Spaces.antt =====
-- utils.hpp, strip_spaces.
use loglite.Prelude.{
  All, Bool-cases, Text, [], ap, append_assoc, false, inl, inr, is_empty, refl, sym, true, ℕ, ◌&&◌,
  ◌++◌, ◌∙◌, ◌∷◌, ◌≡◌,
}
use loglite.Utils.{is_space, strip_back, strip_front, strip_spaces}

abbrev pub IsBlank : Text → Type 0
IsBlank = All (λ c. is_space c ≡ true)

-- Neither end is a blank.
abbrev pub FirstSolid : Text → Type 0
FirstSolid [] = Unit {0}
FirstSolid (c ∷ s) = is_space c ≡ false

abbrev pub LastSolid : Text → Type 0
LastSolid [] = Unit {0}
LastSolid (c ∷ []) = is_space c ≡ false
LastSolid (c ∷ d ∷ s) = LastSolid (d ∷ s)

strip_front-split :
    (s : Text)
    → (pre : Text) × IsBlank pre × (s ≡ pre ++ strip_front s) × FirstSolid (strip_front s)
strip_front-split [] = ([], tt, refl, tt)
strip_front-split (c ∷ s) = elim (Bool-cases (is_space c)) [
  | inl e ↦
      let (pre, blank, eq, solid) = strip_front-split s in
      rw e (c ∷ pre, (e, blank), ap (◌∷◌ c) eq, solid)
  | inr e ↦ rw e ([], tt, refl, e)
]

LastSolid-cons : (c : ℕ) (s : Text) → is_empty s ≡ false → LastSolid s → LastSolid (c ∷ s)
LastSolid-cons c [] e h = cc
LastSolid-cons c (d ∷ s) e h = h

nonempty_end :
    (c : ℕ) (s : Text) → (is_empty s && is_space c) ≡ false → LastSolid s → LastSolid (c ∷ s)
nonempty_end c [] e h = e
nonempty_end c (d ∷ s) e h = h

blank_end : (c : ℕ) (s : Text) → (is_empty s && is_space c) ≡ true → (s ≡ []) × (is_space c ≡ true)
blank_end c [] e = (refl, e)
blank_end c (d ∷ s) e = cc

strip_back-split :
    (s : Text)
    → (post : Text) × IsBlank post × (s ≡ strip_back s ++ post) × LastSolid (strip_back s)
strip_back-split [] = ([], tt, refl, tt)
strip_back-split (c ∷ s) =
    let (post, blank, eq, solid) = strip_back-split s in
    elim (Bool-cases (is_empty (strip_back s) && is_space c)) [
      | inl e ↦
          let (gone, space) = blank_end c (strip_back s) e in
          rw e (c ∷ post, (space, blank), ap (◌∷◌ c) (eq ∙ ap (λ t. t ++ post) gone), tt)
      | inr e ↦ rw e (post, blank, ap (◌∷◌ c) eq, nonempty_end c (strip_back s) e solid)
    ]

FirstSolid-strip_back : (s : Text) → FirstSolid s → FirstSolid (strip_back s)
FirstSolid-strip_back [] h = tt
FirstSolid-strip_back (c ∷ s) h = elim (Bool-cases (is_empty (strip_back s) && is_space c)) [
  | inl e ↦ rw e tt
  | inr e ↦ rw e h
]

-- Trimming takes off blanks at both ends and nothing else, and leaves none there.
pub strip_spaces-split :
    (s : Text)
    → (pre : Text) × (post : Text) × IsBlank pre
      × IsBlank post
      × (s ≡ pre ++ strip_spaces s ++ post)
      × FirstSolid (strip_spaces s)
      × LastSolid (strip_spaces s)
unfolding strip_spaces
strip_spaces-split s =
    let (pre, blank, eq, solid) = strip_front-split s in
    let (post, blank', eq', solid') = strip_back-split (strip_front s) in
    (
      pre,
      post,
      blank,
      blank',
      eq ∙ ap (λ t. pre ++ t) eq' ∙ sym (append_assoc pre (strip_back (strip_front s)) post),
      FirstSolid-strip_back (strip_front s) solid,
      solid',
    )
