-- ===== src/Burn/Awaiting.antt =====
-- burn/src/sender.hpp: the events that the senders of a run wait for.
use loglite.Prelude.{
  All, Bool, Bool-cases, List, NoDup, [], arith, false, inl, inr, refl, subst, sym, true, ℕ, ◌==◌,
  ◌∷◌, ◌≡◌, ◌⊎◌,
}
use loglite.Json.{}
use loglite.Burn.Sender.{
  RunControl, SenderEvent, is_sender_running, paced, posted, thrown, time_up, without_sender,
}
use loglite.Burn.Counting.{All-without}

-- The event is the next of this sender, which waits for an answer or for its pace.
abbrev pub IsNext : Bool → ℕ → SenderEvent → Type 0
IsNext waits i (paced j p) = (waits ≡ false) × (i ≡ j)
IsNext waits i (posted j x r y) = (waits ≡ true) × (i ≡ j)
IsNext waits i (thrown j) = i ≡ j
IsNext waits i time_up = ⊥

abbrev pub Mentions : Bool → List SenderEvent → ℕ → Type 0
Mentions waits [] i = ⊥
Mentions waits (e ∷ es) i = IsNext waits i e ⊎ Mentions waits es i

-- What the sender waits for is among the events.
abbrev pub Awaited : RunControl → List SenderEvent → ℕ → Type 0
Awaited c es i = Mentions (is_sender_running i c.posting) es i

pub apart_from :
    (i : ℕ) (xs : List ℕ) → is_sender_running i xs ≡ false → All (λ j. (j == i) ≡ false) xs
apart_from i [] h = tt
apart_from i (x ∷ xs) h = (ground (arith, h), apart_from i xs (ground (arith, h)))

-- The senders that are left have other numbers than the one that ends.
apart_without : (i : ℕ) (xs : List ℕ) → NoDup xs → All (λ j. (j == i) ≡ false) (without_sender i xs)
apart_without i [] d = tt
apart_without i (x ∷ xs) d = elim (Bool-cases (i == x)) [
  | inl e ↦
      let same : x ≡ i = ground (arith, e) in
      rw e (subst (λ n. All (λ j. (j == n) ≡ false) xs) same d.0)
  | inr e ↦ rw e (ground (arith, e), apart_without i xs d.1)
]

running-without :
    (i j : ℕ) (xs : List ℕ)
    → (j == i) ≡ false
    → is_sender_running j (without_sender i xs) ≡ is_sender_running j xs
running-without i j [] n = refl
running-without i j (x ∷ xs) n = elim (Bool-cases (i == x)) [
  | inl e ↦ let other : (j == x) ≡ false = ground (arith, e, n) in rw (e, other) refl
  | inr e ↦ rw (e, running-without i j xs n) refl
]

module _ (e : SenderEvent) (es : List SenderEvent) (c d : RunControl) where
  later : (w : Bool) (j : ℕ) → (IsNext w j e → ⊥) → Mentions w (e ∷ es) j → Mentions w es j
  later w j never (inl m) = absurd (never m)
  later w j never (inr m) = m

  -- The events of the senders that an event is not of are still to come.
  others_later :
      (xs : List ℕ)
      → All (λ j. IsNext (is_sender_running j c.posting) j e → ⊥) xs
      → All (λ j. is_sender_running j d.posting ≡ is_sender_running j c.posting) xs
      → All (Awaited c (e ∷ es)) xs
      → All (Awaited d es) xs
  others_later [] never same h = tt
  others_later (x ∷ xs) (n, never) (s, same) (h, hs) = (
    subst (λ w. Mentions w es x) (sym s) (later (is_sender_running x c.posting) x n h),
    others_later xs never same hs,
  )

module _ (e : SenderEvent) (es : List SenderEvent) (c : RunControl) (i : ℕ)
    (only : (w : Bool) (j : ℕ) → IsNext w j e → j ≡ i) where
  pub no_other :
      (xs : List ℕ)
      → All (λ j. (j == i) ≡ false) xs
      → All (λ j. IsNext (is_sender_running j c.posting) j e → ⊥) xs
  no_other [] h = tt
  no_other (x ∷ xs) (h, hs) =
      (λ m. ground (arith, only (is_sender_running x c.posting) x m, h), no_other xs hs)

  modes_kept :
      (xs : List ℕ)
      → All (λ j. (j == i) ≡ false) xs
      → All
          (λ j. is_sender_running j (without_sender i c.posting) ≡ is_sender_running j c.posting)
          xs
  modes_kept [] h = tt
  modes_kept (x ∷ xs) (h, hs) = (running-without i x c.posting h, modes_kept xs hs)

  -- The sender that an event is of has ended.
  pub ended_later :
      (d : RunControl)
      → d.running ≡ without_sender i c.running
      → d.posting ≡ without_sender i c.posting
      → NoDup c.running
      → All (Awaited c (e ∷ es)) c.running
      → All (Awaited d es) d.running
  ended_later d left waiting distinct h =
      let apart = apart_without i c.running distinct in
      rw left (
        others_later e es c d (without_sender i c.running)
          (no_other (without_sender i c.running) apart)
          (subst
            (λ q.
              All (λ j. is_sender_running j q ≡ is_sender_running j c.posting)
                (without_sender i c.running))
            (sym waiting) (modes_kept (without_sender i c.running) apart))
          (All-without (Awaited c (e ∷ es)) i c.running h))

-- An event that nobody waits for.
pub unawaited :
    (e : SenderEvent) (es : List SenderEvent) (c : RunControl) (xs : List ℕ)
    → All (λ j. IsNext (is_sender_running j c.posting) j e → ⊥) xs
    → All (Awaited c (e ∷ es)) xs
    → All (Awaited c es) xs
unawaited e es c xs never h = others_later e es c c xs never (same xs) h
  where
    same :
        (xs : List ℕ) → All (λ j. is_sender_running j c.posting ≡ is_sender_running j c.posting) xs
    same [] = tt
    same (x ∷ xs) = (refl, same xs)

pub wrong_mode :
    (e : SenderEvent) (i : ℕ) (c : RunControl)
    → ((j : ℕ) → IsNext (is_sender_running j c.posting) j e → ⊥)
    → (xs : List ℕ) → All (λ j. IsNext (is_sender_running j c.posting) j e → ⊥) xs
wrong_mode e i c never [] = tt
wrong_mode e i c never (x ∷ xs) = (never x, wrong_mode e i c never xs)

pub none_left : (c : RunControl) (xs : List ℕ) → All (Awaited c []) xs → xs ≡ []
none_left c [] h = refl
none_left c (x ∷ xs) h = absurd h.0
