-- ===== src/Burn/Counting.antt =====
-- burn/src/sender.hpp and main.cpp: the senders of a run are counted, and the run ends with the last.
use loglite.Prelude.{
  All, Bool, Bool-cases, List, NoDup, Option, Text, [], ap, arith, false, if◌then◌else◌, inl, inr,
  is_empty, length, not, refl, suc, true, zero, ℕ, ◌&&◌, ◌++◌, ◌+◌, ◌<◌, ◌==◌, ◌^◌, ◌∷◌, ◌≡◌, ◌≤◌,
}
use loglite.Json.{Json}
use loglite.Burn.Sender.{
  PostAttempt, RunControl, SenderEvent, Stats, begin_post, burn_events, burn_step, end_post,
  end_sender, is_sender_running, paced, posted, recorded, sender_finished, sender_ids, start_run,
  thrown, time_up, without_sender,
}

pub record IsCounted (c : RunControl) : Type 0 where
  pub left : c.senders_left ≡ length c.running
  pub small : length c.running < 2 ^ 32
  pub stopped : c.is_stopped ≡ is_empty c.running
  pub distinct : NoDup c.running

pub All-without : (P : ℕ → Type 0) (i : ℕ) (xs : List ℕ) → All P xs → All P (without_sender i xs)
All-without P i [] h = tt
All-without P i (x ∷ xs) h = elim (Bool-cases (i == x)) [
  | inl e ↦ rw e h.1
  | inr e ↦ rw e (h.0, All-without P i xs h.1)
]

NoDup-without : (i : ℕ) (xs : List ℕ) → NoDup xs → NoDup (without_sender i xs)
NoDup-without i [] h = tt
NoDup-without i (x ∷ xs) h = elim (Bool-cases (i == x)) [
  | inl e ↦ rw e h.1
  | inr e ↦ rw e (All-without _ i xs h.0, NoDup-without i xs h.1)
]

length-without :
    (i : ℕ) (xs : List ℕ)
    → is_sender_running i xs ≡ true
    → length (without_sender i xs) + 1 ≡ length xs
length-without i [] h = cc
length-without i (x ∷ xs) h = elim (Bool-cases (i == x)) [
  | inl e ↦ rw e (omega arith)
  | inr e ↦ rw e (omega (arith, length-without i xs (rw e at h)))
]

is_empty-length : (xs : List ℕ) → is_empty xs ≡ (length xs == 0)
is_empty-length [] = refl
is_empty-length (x ∷ xs) = ground arith

end_sender-IsCounted :
    (c : RunControl) (i : ℕ)
    → IsCounted c
    → is_sender_running i c.running ≡ true
    → IsCounted (end_sender c i)
unfolding end_sender sender_finished
end_sender-IsCounted c i v h =
    let n : length (without_sender i c.running) + 1 ≡ length c.running =
      length-without i c.running h in
    record {
      left = omega (arith, n, v.left, v.small);
      small = omega (arith, n, v.small);
      stopped = ground (
        arith,
        n,
        v.left,
        v.stopped,
        is_empty-length c.running,
        is_empty-length (without_sender i c.running),
      );
      distinct = NoDup-without i c.running v.distinct;
    }

sender_ids-below : (n : ℕ) → (k : ℕ) → n ≤ k → All (λ j. (j == k) ≡ false) (sender_ids n)
sender_ids-below zero k h = tt
sender_ids-below (suc n) k h = (ground (arith, h), sender_ids-below n k (omega arith))

sender_ids-NoDup : (n : ℕ) → NoDup (sender_ids n)
sender_ids-NoDup zero = tt
sender_ids-NoDup (suc n) = (sender_ids-below n n (omega arith), sender_ids-NoDup n)

pub length-sender_ids : (n : ℕ) → length (sender_ids n) ≡ n
length-sender_ids zero = refl
length-sender_ids (suc n) = ap suc (length-sender_ids n)

pub start_run-IsCounted : (n : ℕ) → 0 < n → n < 2 ^ 32 → IsCounted (start_run n)
unfolding start_run
start_run-IsCounted n some_one small = record {
  left = omega (arith, length-sender_ids n);
  small = omega (arith, length-sender_ids n, small);
  stopped = ground (arith, is_empty-length (sender_ids n), length-sender_ids n, some_one);
  distinct = sender_ids-NoDup n;
}

module _ (parse : Text → Option Json) where
  -- What leaves the count and the senders alone.
  same-IsCounted :
      (c : RunControl) (posting : List ℕ) (stats : Stats)
      → IsCounted c
      → IsCounted (record c { posting = posting; stats = stats })
  same-IsCounted c posting stats v = record {
    left = v.left;
    small = v.small;
    stopped = v.stopped;
    distinct = v.distinct;
  }

  begin_post-IsCounted :
      (c : RunControl) (i : ℕ) (p : Bool)
      → IsCounted c
      → is_sender_running i c.running ≡ true
      → IsCounted (begin_post parse c i p)
  unfolding begin_post
  begin_post-IsCounted c i false v h = end_sender-IsCounted c i v h
  begin_post-IsCounted c i true v h =
      elim c.stop
        as (λ b. IsCounted (if b then end_sender c i else record c { posting = i ∷ c.posting })) [
          | true ↦ end_sender-IsCounted c i v h
          | false ↦ same-IsCounted c (i ∷ c.posting) c.stats v
        ]

  end_post-IsCounted :
      (c : RunControl) (i : ℕ) (a : PostAttempt)
      → IsCounted c
      → is_sender_running i c.running ≡ true
      → IsCounted (end_post parse c i a)
  unfolding end_post
  end_post-IsCounted c i a v h =
      let after = recorded parse c a in
      elim c.stop
        as (λ b. IsCounted (
          if b
          then end_sender after i
          else record after { posting = without_sender i c.posting })) [
            | true ↦ end_sender-IsCounted after i (same-IsCounted c c.posting after.stats v) h
            | false ↦ same-IsCounted c (without_sender i c.posting) after.stats v
          ]

  pub burn_step-IsCounted :
      (c : RunControl) (e : SenderEvent) → IsCounted c → IsCounted (burn_step parse c e)
  unfolding burn_step
  burn_step-IsCounted c (paced i p) v =
      elim (Bool-cases (is_sender_running i c.running && not (is_sender_running i c.posting))) [
        | inl h ↦ rw (burn_step, h) (begin_post-IsCounted c i p v (ground (arith, h)))
        | inr h ↦ rw (burn_step, h) v
      ]
  burn_step-IsCounted c (posted i x r y) v =
      elim (Bool-cases (is_sender_running i c.running && is_sender_running i c.posting)) [
        | inl h ↦
            rw (burn_step, h)
              (end_post-IsCounted c i (record { first = x; reconnects = r; second = y }) v
                (ground (arith, h)))
        | inr h ↦ rw (burn_step, h) v
      ]
  burn_step-IsCounted c (thrown i) v = elim (Bool-cases (is_sender_running i c.running)) [
    | inl h ↦ rw (burn_step, h) (end_sender-IsCounted c i v h)
    | inr h ↦ rw (burn_step, h) v
  ]
  burn_step-IsCounted c time_up v = record {
    left = v.left;
    small = v.small;
    stopped = v.stopped;
    distinct = v.distinct;
  }

  pub burn_events-IsCounted :
      (es : List SenderEvent) (c : RunControl) → IsCounted c → IsCounted (burn_events parse c es)
  unfolding burn_events
  burn_events-IsCounted [] c v = v
  burn_events-IsCounted (e ∷ es) c v =
      burn_events-IsCounted es (burn_step parse c e) (burn_step-IsCounted c e v)

  pub burn_events-append :
      (es fs : List SenderEvent) (c : RunControl)
      → burn_events parse c (es ++ fs) ≡ burn_events parse (burn_events parse c es) fs
  unfolding burn_events
  burn_events-append [] fs c = refl
  burn_events-append (e ∷ es) fs c = burn_events-append es fs (burn_step parse c e)
