-- ===== src/Backlog/Bounds.antt =====
-- The backlog's invariant: it is bounded, and its flag tells the watermark.
use loglite.Prelude.{
  Bool, Bool-cases, List, [], ap, arith, drop, false, if◌then◌else◌, inl, inr, leb, leb→le, length,
  length-append, none, refl, some, suc, true, ℕ, ◌++◌, ◌+◌, ◌-◌, ◌<◌, ◌∷◌, ◌≡◌, ◌≤◌,
}
use loglite.Backlog.{Backlog, at_watermark, create, evict, flush, push}

pub record IsValid {A : Type 0} (b : Backlog A) : Type 0 where
  pub has_room : 0 < b.max_size
  pub bounded : length b.queue ≤ b.max_size
  pub flagged : b.is_full ≡ at_watermark b.max_size (length b.queue)

-- The flag after a push, when it told the watermark before.
flag_kept :
    (max_size n k : ℕ) (full : Bool)
    → full ≡ at_watermark max_size n
    → n ≤ k
    → (if at_watermark max_size k then true else full) ≡ at_watermark max_size k
flag_kept max_size n k full h le = ground arith

module _ {A : Type 0} where
  -- A new backlog that may hold a log is valid.
  pub create-IsValid : (max_size : ℕ) → 0 < max_size → IsValid (create {A = A} max_size)
  unfolding create
  create-IsValid max_size h = record { has_room = h; bounded = omega arith; flagged = ground arith }

  -- The oldest is dropped exactly when the backlog is at its capacity.
  evict-full :
      (max_size : ℕ) (x : A) (xs : List A)
      → max_size ≤ length (x ∷ xs)
      → evict max_size (x ∷ xs) ≡ some (xs, true)
  unfolding evict
  evict-full max_size x xs h = ground arith

  evict-room :
      (max_size : ℕ) (xs : List A) → length xs < max_size → evict max_size xs ≡ some (xs, false)
  unfolding evict
  evict-room max_size [] h = ground arith
  evict-room max_size (x ∷ xs) h = ground arith

  -- What a valid backlog becomes when a log is pushed.
  abbrev pub Pushed : Backlog A → A → Backlog A → Bool → Type 0
  Pushed b log b' dropped =
      IsValid b'
      × (b'.max_size ≡ b.max_size)
      × (b'.queue ≡ drop (length b.queue + 1 - b.max_size) (b.queue ++ log ∷ []))
      × (dropped ≡ leb b.max_size (length b.queue))

  after_push : Backlog A → List A → A → Backlog A
  after_push b q log = record b {
    queue = q ++ log ∷ [];
    is_full = if at_watermark b.max_size (length (q ++ log ∷ [])) then true else b.is_full;
  }

  push-after :
      (b : Backlog A) (log : A) (q : List A) (dropped : Bool)
      → evict b.max_size b.queue ≡ some (q, dropped)
      → push b log ≡ some (after_push b q log, dropped)
  unfolding push after_push
  push-after b log q dropped e = rw (e, push)

  after_push-IsValid :
      (b : Backlog A) (log : A) (q : List A)
      → IsValid b
      → length q < b.max_size
      → length b.queue ≤ length q + 1
      → IsValid (after_push b q log)
  unfolding after_push
  after_push-IsValid b log q v room near = record {
    has_room = v.has_room;
    bounded = omega (arith, length-append q (log ∷ []));
    flagged =
        flag_kept b.max_size (length b.queue) (length (q ++ log ∷ [])) b.is_full v.flagged
          (omega (arith, length-append q (log ∷ [])));
  }

  push_full :
      (b : Backlog A) (log x : A) (xs : List A)
      → IsValid b
      → b.queue ≡ x ∷ xs
      → b.max_size ≤ length (x ∷ xs)
      → (b' : Backlog A) × (dropped : Bool) × (push b log ≡ some (b', dropped))
        × Pushed b log b' dropped
  push_full b log x xs v e full =
      let n : length b.queue ≡ suc (length xs) = ap length e in
      let one : length b.queue + 1 - b.max_size ≡ 1 = omega (arith, v.bounded) in
      (
        after_push b xs log,
        true,
        push-after b log xs true (rw e (evict-full b.max_size x xs full)),
        (
          after_push-IsValid b log xs v (omega (arith, v.bounded)) (omega arith),
          unfold after_push in refl,
          unfold after_push in rw (one, e),
          ground (arith, v.bounded),
        ),
      )

  push_room :
      (b : Backlog A) (log : A)
      → IsValid b
      → length b.queue < b.max_size
      → (b' : Backlog A) × (dropped : Bool) × (push b log ≡ some (b', dropped))
        × Pushed b log b' dropped
  push_room b log v room =
      let zero_over : length b.queue + 1 - b.max_size ≡ 0 = omega arith in
      (
        after_push b b.queue log,
        false,
        push-after b log b.queue false (evict-room b.max_size b.queue room),
        (
          after_push-IsValid b log b.queue v room (omega arith),
          unfold after_push in refl,
          unfold after_push in rw zero_over,
          ground arith,
        ),
      )

  push_by :
      (b : Backlog A) (log : A) (q : List A)
      → IsValid b
      → b.queue ≡ q
      → (b' : Backlog A) × (dropped : Bool) × (push b log ≡ some (b', dropped))
        × Pushed b log b' dropped
  push_by b log [] v e = push_room b log v (omega (arith, ap length e, v.has_room))
  push_by b log (x ∷ xs) v e = elim (Bool-cases (leb b.max_size (length (x ∷ xs)))) [
    | inl full ↦ push_full b log x xs v e (leb→le _ _ full)
    | inr room ↦ push_room b log v (ground (arith, ap length e))
  ]

  -- A push onto a valid backlog is defined. It leaves a valid backlog of the same capacity, which
  -- holds the queue with the log behind it, without the oldest log if that would pass the capacity,
  -- and it reports a drop exactly when the backlog was at its capacity.
  pub push-Pushed :
      (b : Backlog A) (log : A)
      → IsValid b
      → (b' : Backlog A) × (dropped : Bool) × (push b log ≡ some (b', dropped))
        × Pushed b log b' dropped
  push-Pushed b log v = push_by b log b.queue v refl

  -- A push onto an empty backlog without capacity is undefined: it pops an empty deque.
  pub push_no_room : (b : Backlog A) (log : A) → b.max_size ≡ 0 → b.queue ≡ [] → push b log ≡ none
  unfolding push
  push_no_room b log e q = rw (e, q, push)

  pub flush-IsValid : (b : Backlog A) → IsValid b → IsValid (flush b).1
  unfolding flush
  flush-IsValid b v = record {
    has_room = v.has_room;
    bounded = omega arith;
    flagged = ground (arith, v.has_room);
  }
