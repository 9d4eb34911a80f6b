-- ===== src/Backlog/Refine.antt =====
-- The backlog against its contract: a flush hands over the newest logs, in order.
use loglite.Prelude.{
  List, Option, [], ap, append-nil, append_assoc, arith, drop, drop-append, drop-drop,
  if◌then◌else◌, length, length-append, length-drop, refl, some, sym, ℕ, ◌++◌, ◌+◌, ◌-◌, ◌<◌, ◌>>=◌,
  ◌∙◌, ◌∷◌, ◌≡◌, ◌≤◌,
}
use loglite.Backlog.{Backlog, flush, push}
use loglite.Backlog.Bounds.{IsValid, flush-IsValid, push-Pushed}

module _ {A : Type 0} where
  -- `Add` for each log in turn, and how many drops there were.
  unfoldable pub push_all : Backlog A → List A → Option (Backlog A × ℕ)
  push_all b [] = some (b, 0)
  push_all b (log ∷ logs) = do
    (b', dropped) ← push b log
    (b'', n) ← push_all b' logs
    some (b'', (if dropped then 1 else 0) + n)

  -- What is pending after the logs, and the drops, when `q` was pending.
  abbrev Held : Backlog A → List A → Backlog A → ℕ → Type 0
  Held b logs b' n =
      IsValid b'
      × (b'.max_size ≡ b.max_size)
      × (b'.queue ≡ drop (length (b.queue ++ logs) - b.max_size) (b.queue ++ logs))
      × (n ≡ length (b.queue ++ logs) - b.max_size)

  join_drops :
      (q : List A) (log : A) (logs : List A) (m k : ℕ)
      → k ≡ length q + 1 - m
      → length q ≤ m
      → 0 < m
      → drop (length (drop k (q ++ log ∷ []) ++ logs) - m) (drop k (q ++ log ∷ []) ++ logs)
        ≡ drop (length (q ++ log ∷ logs) - m) (q ++ log ∷ logs)
  join_drops q log logs m k ek h pos_m =
      let le : k ≤ length (q ++ log ∷ []) = omega (arith, length-append q (log ∷ [])) in
      let all : drop k (q ++ log ∷ []) ++ logs ≡ drop k (q ++ log ∷ logs) =
        sym (drop-append k (q ++ log ∷ []) logs le)
        ∙ ap (drop k) (append_assoc q (log ∷ []) logs) in
      rw (all, drop-drop)
        (ap (λ (n : ℕ). drop n (q ++ log ∷ logs))
          (omega (arith, length-drop k (q ++ log ∷ logs), length-append q (log ∷ logs))))

  push_all-Held :
      (b : Backlog A) (logs : List A)
      → IsValid b
      → (b' : Backlog A) × (n : ℕ) × (push_all b logs ≡ some (b', n)) × Held b logs b' n
  unfolding push_all
  push_all-Held b [] v =
      let none_over : length (b.queue ++ []) - b.max_size ≡ 0 =
        rw append-nil (omega (arith, v.bounded)) in
      (b, 0, refl, (v, refl, rw (none_over, append-nil), rw none_over))
  push_all-Held b (log ∷ logs) v =
      let (b', dropped, e, p) = push-Pushed b log v in
      let (b'', n, e', h) = push_all-Held b' logs p.0 in
      let lengths : length b'.queue ≡ length b.queue + 1 - (length b.queue + 1 - b.max_size) =
        ap length p.2
        ∙ length-drop _ (b.queue ++ log ∷ [])
        ∙ ap (λ (k : ℕ). k - (length b.queue + 1 - b.max_size))
            (length-append b.queue (log ∷ [])) in
      (
        b'',
        (if dropped then 1 else 0) + n,
        rw (e, push_all, e') refl,
        (
          h.0,
          h.1 ∙ p.1,
          h.2
              ∙ rw (p.1, p.2)
                  (join_drops b.queue log logs b.max_size (length b.queue + 1 - b.max_size) refl
                    v.bounded v.has_room),
          ground (
            arith,
            h.3,
            p.3,
            p.1,
            lengths,
            v.bounded,
            length-append b'.queue logs,
            length-append b.queue (log ∷ logs),
          ),
        ),
      )

  -- The backlog that a flush then finds is valid too.
  pub push_all-Newest :
      (b : Backlog A) (logs : List A)
      → IsValid b
      → b.queue ≡ []
      → (b' : Backlog A) × (n : ℕ) × (push_all b logs ≡ some (b', n))
        × ((flush b').0 ≡ drop (length logs - b.max_size) logs)
        × (n ≡ length logs - b.max_size)
        × IsValid b'
        × IsValid (flush b').1
        × ((flush b').1.queue ≡ [])
  push_all-Newest b logs v empty =
      let (b', n, e, h) = push_all-Held b logs v in
      (
        b',
        n,
        e,
        unfold flush in h.2 ∙ ap (λ q. drop (length (q ++ logs) - b.max_size) (q ++ logs)) empty,
        h.3 ∙ ap (λ q. length (q ++ logs) - b.max_size) empty,
        h.0,
        flush-IsValid b' h.0,
        unfold flush in refl,
      )

  -- Whatever logs are added to an empty valid backlog, every addition is defined; a flush then hands
  -- over exactly the newest of them, in order, as many as the capacity allows, the rest were counted
  -- as drops, and an empty valid backlog remains.
  pub flush-push_all :
      (b : Backlog A) (logs : List A)
      → IsValid b
      → b.queue ≡ []
      → (b' : Backlog A) × (n : ℕ) × (push_all b logs ≡ some (b', n))
        × ((flush b').0 ≡ drop (length logs - b.max_size) logs)
        × (n ≡ length logs - b.max_size)
        × IsValid (flush b').1
        × ((flush b').1.queue ≡ [])
  flush-push_all b logs v empty =
      let (b', n, e, newest, dropped, held, v', emptied) = push_all-Newest b logs v empty in
      (b', n, e, newest, dropped, v', emptied)
