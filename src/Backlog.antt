-- ===== src/Backlog.antt =====
-- cpp/src/backlog.hpp and backlog.cpp: the bounded buffer of incoming logs. Each method holds the
-- mutex from end to end, so it is one step; the front of the deque is the head of the list. The
-- count of a drop is collected after the mutex is released, in the same call.
pub mod Bounds
pub mod Refine
mod Tests
use loglite.Prelude.{
  Bool, List, Option, [], false, if◌then◌else◌, leb, length, none, some, true, ℕ, ◌*◌, ◌++◌, ◌>>=◌,
  ◌∷◌,
}
use loglite.Prelude.Int.{pos}
use loglite.Metrics.{Registry, backlog_drop, collect}

pub record Backlog (A : Type 0) : Type 0 where
  pub queue : List A
  pub max_size : ℕ
  pub is_full : Bool

-- `size >= max_size * 0.95`. The product is a double: the test is the exact one for every
-- max_size that the configuration's `int` can hold.
abbrev pub at_watermark : ℕ → ℕ → Bool
at_watermark max_size size = leb (19 * max_size) (20 * size)

module _ {A : Type 0} where
  unfoldable pub create : ℕ → Backlog A
  create max_size = record { queue = []; max_size = max_size; is_full = false }

  -- The drop-oldest step, and whether it dropped. `none` is `pop_front` on an empty deque, which
  -- has no defined behaviour: it is reached with max_size 0.
  unfoldable pub evict : ℕ → List A → Option (List A × Bool)
  evict max_size [] = if leb max_size 0 then none else some ([], false)
  evict max_size (x ∷ xs) =
      if leb max_size (length (x ∷ xs)) then some (xs, true) else some (x ∷ xs, false)

  -- What `Add` does under the mutex; the flag says whether it dropped.
  unfoldable pub push : Backlog A → A → Option (Backlog A × Bool)
  unfolding evict
  push b log = do
    (q, dropped) ← evict b.max_size b.queue
    some (
      record b {
        queue = q ++ log ∷ [];
        is_full = if at_watermark b.max_size (length (q ++ log ∷ [])) then true else b.is_full;
      },
      dropped,
    )

  -- Under the mutex too: everything pending, and the emptied backlog.
  unfoldable pub flush : Backlog A → List A × Backlog A
  flush b = (b.queue, record b { queue = []; is_full = false })

  unfoldable pub size : Backlog A → ℕ
  size b = length b.queue

-- `Add`: `zero_value` is the observation's default value 0.0.
unfoldable pub add :
    {A V : Type 0} → V → ℕ → Backlog A × Registry V → A → Option (Backlog A × Registry V)
unfolding push
add zero_value now (b, r) log = do
  (b', dropped) ← push b log
  some (b', if dropped then collect r now backlog_drop zero_value (pos 1) else r)
