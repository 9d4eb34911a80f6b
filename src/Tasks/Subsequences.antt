-- ===== src/Tasks/Subsequences.antt =====
-- What a queue that drops its oldest logs keeps of what was handed to it, for flush_backlog.hpp.
use loglite.Prelude.{
  Bool, Bool-cases, List, [], append_assoc, arith, drop, if◌then◌else◌, inl, inr, is_empty, leb,
  length, length-append, length-drop, refl, subst, true, ℕ, ◌++◌, ◌+◌, ◌-◌, ◌<◌, ◌∷◌, ◌≡◌, ◌≤◌, ◌⊎◌,
}
use loglite.Json.{Json}

module _ {A : Type 0} where
  -- The first list is what is left of the second when some elements are taken out.
  abbrev pub Sub : List A → List A → Type 0
  Sub [] ys = Unit
  Sub (x ∷ xs) [] = ⊥
  Sub (x ∷ xs) (y ∷ ys) = ((x ≡ y) × Sub xs ys) ⊎ Sub (x ∷ xs) ys

  Sub-skip : (xs ys : List A) (y : A) → Sub xs ys → Sub xs (y ∷ ys)
  Sub-skip [] ys y h = tt
  Sub-skip (x ∷ xs) ys y h = inr h

  Sub-tail : (x : A) (xs ys : List A) → Sub (x ∷ xs) ys → Sub xs ys
  Sub-tail x xs [] h = elim h [ ]
  Sub-tail x xs (y ∷ ys) (inl h) = Sub-skip xs ys y h.1
  Sub-tail x xs (y ∷ ys) (inr h) = Sub-skip xs ys y (Sub-tail x xs ys h)

  -- An element may be taken out at any place.
  Sub-without : (hs : List A) (x : A) (xs ys : List A) → Sub (hs ++ x ∷ xs) ys → Sub (hs ++ xs) ys
  Sub-without [] x xs ys h = Sub-tail x xs ys h
  Sub-without (k ∷ hs) x xs [] h = elim h [ ]
  Sub-without (k ∷ hs) x xs (y ∷ ys) (inl h) = inl (h.0, Sub-without hs x xs ys h.1)
  Sub-without (k ∷ hs) x xs (y ∷ ys) (inr h) = inr (Sub-without (k ∷ hs) x xs ys h)

  Sub-last : (x : A) (ys : List A) → Sub (x ∷ []) (ys ++ x ∷ [])
  Sub-last x [] = inl (refl, tt)
  Sub-last x (y ∷ ys) = inr (Sub-last x ys)

  -- Both grow at their ends.
  Sub-snoc : (xs ys : List A) (x : A) → Sub xs ys → Sub (xs ++ x ∷ []) (ys ++ x ∷ [])
  Sub-snoc [] ys x h = Sub-last x ys
  Sub-snoc (k ∷ xs) [] x h = elim h [ ]
  Sub-snoc (k ∷ xs) (y ∷ ys) x (inl h) = inl (h.0, Sub-snoc xs ys x h.1)
  Sub-snoc (k ∷ xs) (y ∷ ys) x (inr h) = inr (Sub-snoc (k ∷ xs) ys x h)

  full_queue :
      (hs q ys : List A) (x : A) (k : ℕ)
      → k ≡ 1
      → 0 < length q
      → Sub (hs ++ q) ys
      → Sub (hs ++ drop k (q ++ x ∷ [])) (ys ++ x ∷ [])
  full_queue hs [] ys x k one some_in h = absurd (omega arith)
  full_queue hs (y ∷ q) ys x k one some_in h = rw one (
      subst (λ l. Sub l (ys ++ x ∷ [])) (append_assoc hs q (x ∷ []))
        (Sub-snoc (hs ++ q) ys x (Sub-without hs y q ys h)))

  -- A push onto a queue of at most `m`, behind what was handed over.
  pub pushed_queue :
      (hs q ys : List A) (x : A) (m : ℕ)
      → length q ≤ m
      → 0 < m
      → Sub (hs ++ q) ys
      → Sub (hs ++ drop (length q + 1 - m) (q ++ x ∷ [])) (ys ++ x ∷ [])
  pushed_queue hs q ys x m le room h = elim (Bool-cases (leb m (length q))) [
    | inr e ↦
        let none_out : length q + 1 - m ≡ 0 = ground (arith, e) in
        rw none_out (
          subst (λ l. Sub l (ys ++ x ∷ [])) (append_assoc hs q (x ∷ []))
            (Sub-snoc (hs ++ q) ys x h))
    | inl e ↦
        full_queue hs q ys x (length q + 1 - m) (ground (arith, e, le)) (ground (arith, e, room)) h
  ]

pub no_elements : {A : Type 0} (xs : List A) → is_empty xs ≡ true → xs ≡ []
no_elements [] h = refl
no_elements (x ∷ xs) h = cc

pub pushed_length :
    (q : List Json) (log : Json) (m : ℕ) (q' : List Json) (dropped : Bool)
    → length q ≤ m
    → 0 < m
    → q' ≡ drop (length q + 1 - m) (q ++ log ∷ [])
    → dropped ≡ leb m (length q)
    → length q' + (if dropped then 1 else 0) ≡ length q + 1
pushed_length q log m q' dropped le room e d =
    rw (e, d)
      (ground (
        arith,
        length-drop (length q + 1 - m) (q ++ log ∷ []),
        length-append q (log ∷ []),
        le,
        room,
      ))
