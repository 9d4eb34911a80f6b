-- ===== src/Burn/Stopping.antt =====
-- burn/src/sender.hpp and main.cpp: how a run of the load generator stops.
use loglite.Prelude.{
  All, Bool, Bool-cases, List, NoDup, Option, Text, [], ap, false, if◌then◌else◌, inl, inr,
  is_empty, length, refl, subst, sym, true, ℕ, ◌++◌, ◌<◌, ◌^◌, ◌∙◌, ◌∷◌, ◌≡◌,
}
use loglite.Json.{Json}
use loglite.Burn.Sender.{
  PostAttempt, RunControl, SenderEvent, begin_post, burn_events, burn_step, end_post, end_sender,
  is_sender_running, paced, posted, recorded, sender_finished, start_run, thrown, time_up,
  without_sender,
}
use loglite.Burn.Counting.{
  IsCounted, burn_events-IsCounted, burn_events-append, burn_step-IsCounted, start_run-IsCounted,
}
use loglite.Burn.Awaiting.{
  Awaited, IsNext, apart_from, ended_later, no_other, none_left, unawaited, wrong_mode,
}

module _ (parse : Text → Option Json) where
  -- What the end of a sender makes of a run that is to stop.
  abbrev Ended : RunControl → RunControl → ℕ → Type 0
  Ended c d i =
      (d.stop ≡ true)
      × (d.running ≡ without_sender i c.running)
      × (d.posting ≡ without_sender i c.posting)

  stopping_pace :
      (c : RunControl) (i : ℕ) (p : Bool) → c.stop ≡ true → Ended c (begin_post parse c i p) i
  unfolding begin_post end_sender sender_finished
  stopping_pace c i true s =
      subst (λ b. Ended c (if b then end_sender c i else record c { posting = i ∷ c.posting }) i)
        (sym s) (s, refl, refl)
  stopping_pace c i false s = (s, refl, refl)

  stopping_post :
      (c : RunControl) (i : ℕ) (a : PostAttempt) → c.stop ≡ true → Ended c (end_post parse c i a) i
  unfolding end_post end_sender sender_finished
  stopping_post c i a s =
      subst
        (λ b.
          Ended c
            (if b
              then end_sender (recorded parse c a) i
              else record (recorded parse c a) { posting = without_sender i c.posting })
            i)
        (sym s) (s, refl, refl)

  end_sender-Ended : (c : RunControl) (i : ℕ) → c.stop ≡ true → Ended c (end_sender c i) i
  unfolding end_sender sender_finished
  end_sender-Ended c i s = (s, refl, refl)

  -- Once the run is to stop, the next event of a sender ends it.
  abbrev IsEnding : RunControl → List SenderEvent → RunControl → Type 0
  IsEnding c es d = (d.stop ≡ true) × All (Awaited d es) d.running

  module _ (c : RunControl) (es : List SenderEvent) (s : c.stop ≡ true)
      (distinct : NoDup c.running) where
    left-Ended :
        (e : SenderEvent) (d : RunControl) (i : ℕ)
        → ((w : Bool) (j : ℕ) → IsNext w j e → j ≡ i)
        → Ended c d i
        → All (Awaited c (e ∷ es)) c.running
        → IsEnding c es d
    left-Ended e d i only (s', running, posting) h =
        (s', ended_later e es c i only d running posting distinct h)

    left_absent :
        (e : SenderEvent) (i : ℕ)
        → ((w : Bool) (j : ℕ) → IsNext w j e → j ≡ i)
        → is_sender_running i c.running ≡ false
        → All (Awaited c (e ∷ es)) c.running
        → IsEnding c es c
    left_absent e i only absent h = (
      s,
      unawaited e es c c.running (no_other e es c i only c.running (apart_from i c.running absent))
          h,
    )

    left_wrong :
        (e : SenderEvent)
        → ((j : ℕ) → IsNext (is_sender_running j c.posting) j e → ⊥)
        → All (Awaited c (e ∷ es)) c.running
        → IsEnding c es c
    left_wrong e never h = (s, unawaited e es c c.running (wrong_mode e 0 c never c.running) h)

    stopping_step :
        (e : SenderEvent) → All (Awaited c (e ∷ es)) c.running → IsEnding c es (burn_step parse c e)
    unfolding burn_step
    stopping_step (paced i p) h = elim (Bool-cases (is_sender_running i c.running)) [
      | inr k ↦ rw (burn_step, k) (left_absent (paced i p) i (λ w j m. m.1) k h)
      | inl k ↦ elim (Bool-cases (is_sender_running i c.posting)) [
        | inr q ↦
            rw (burn_step, k, q)
              (left-Ended (paced i p) (begin_post parse c i p) i (λ w j m. m.1)
                (stopping_pace c i p s) h)
        | inl q ↦
            rw (burn_step, k, q)
              (left_wrong (paced i p)
                (λ j m. cc (m.0, q, ap (λ n. is_sender_running n c.posting) m.1)) h)
      ]
    ]
    stopping_step (posted i x r y) h = elim (Bool-cases (is_sender_running i c.running)) [
      | inr k ↦ rw (burn_step, k) (left_absent (posted i x r y) i (λ w j m. m.1) k h)
      | inl k ↦ elim (Bool-cases (is_sender_running i c.posting)) [
        | inl q ↦
            let a : PostAttempt = record { first = x; reconnects = r; second = y } in
            rw (burn_step, k, q)
              (left-Ended (posted i x r y) (end_post parse c i a) i (λ w j m. m.1)
                (stopping_post c i a s) h)
        | inr q ↦
            rw (burn_step, k, q)
              (left_wrong (posted i x r y)
                (λ j m. cc (m.0, q, ap (λ n. is_sender_running n c.posting) m.1)) h)
      ]
    ]
    stopping_step (thrown i) h = elim (Bool-cases (is_sender_running i c.running)) [
      | inr k ↦ rw (burn_step, k) (left_absent (thrown i) i (λ w j m. m) k h)
      | inl k ↦
          rw (burn_step, k)
            (left-Ended (thrown i) (end_sender c i) i (λ w j m. m) (end_sender-Ended c i s) h)
    ]
    stopping_step time_up h =
        let c' : RunControl = record c { stop = true } in
        (refl, (unawaited time_up es c c.running (wrong_mode time_up 0 c (λ j m. m) c.running) h))

  stopping_events :
      (es : List SenderEvent) (c : RunControl)
      → c.stop ≡ true
      → IsCounted c
      → All (Awaited c es) c.running
      → (burn_events parse c es).running ≡ []
  unfolding burn_events
  stopping_events [] c s v h = none_left c c.running h
  stopping_events (e ∷ es) c s v h =
      let (s', left) = stopping_step c es s v.distinct e h in
      stopping_events es (burn_step parse c e) s' (burn_step-IsCounted parse c e v) left

  run_stopped :
      (c : RunControl) (fs : List SenderEvent)
      → IsCounted c
      → All (Awaited c fs) c.running
      → let after = burn_events parse c (time_up ∷ fs) in
        (after.senders_left ≡ 0) × (after.is_stopped ≡ true)
  unfolding burn_events burn_step
  run_stopped c fs v h =
      let v' = burn_step-IsCounted parse c time_up v in
      let w = burn_events-IsCounted parse fs (burn_step parse c time_up) v' in
      let none_running = stopping_events fs (burn_step parse c time_up) refl v' h in
      (w.left ∙ ap length none_running, w.stopped ∙ ap is_empty none_running)

  -- A run of at least one sender, and of fewer than 2^32, counts the senders that are left, and its
  -- loop is stopped exactly when none is, whatever has happened to the senders. When its time is up
  -- then, and what each sender that is left waits for has come, an answer to its log or the end of its
  -- pace, or something threw in it, none is left, and the loop is stopped.
  pub burn_events-stopped :
      (n : ℕ) (es fs : List SenderEvent)
      → 0 < n
      → n < 2 ^ 32
      → All
          (Awaited (burn_events parse (start_run n) es) fs)
          (burn_events parse (start_run n) es).running
      → let before = burn_events parse (start_run n) es in
        let after = burn_events parse (start_run n) (es ++ time_up ∷ fs) in
        (before.senders_left ≡ length before.running)
        × (before.is_stopped ≡ is_empty before.running)
        × (after.senders_left ≡ 0)
        × (after.is_stopped ≡ true)
  burn_events-stopped n es fs some_one small h =
      let before = burn_events parse (start_run n) es in
      let v = burn_events-IsCounted parse es (start_run n) (start_run-IsCounted n some_one small) in
      rw (burn_events-append parse es (time_up ∷ fs) (start_run n)) (
        let (none_left', stopped) = run_stopped before fs v h in
        (v.left, v.stopped, none_left', stopped))
