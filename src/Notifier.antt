-- ===== src/Notifier.antt =====
-- cpp/src/notifier.hpp: the subscribers of new logs. A subscription, with its timer, is a number; a
-- timer is Asio's, and cancelling it is what a notification does.
use loglite.Prelude.{List, [], keep, length, not, suc, ℕ, ◌++◌, ◌==◌, ◌∷◌}
use loglite.Prelude.Int.{pos, ℤ}

pub record Notifier : Type 0 where
  pub last_id : ℤ
  pub subs : List ℕ
  -- The number that the next subscription gets.
  pub next_sub : ℕ

abbrev pub fresh_notifier : Notifier
fresh_notifier = record { last_id = pos 0; subs = []; next_sub = 0 }

unfoldable pub subscribe : Notifier → ℕ × Notifier
subscribe n = (n.next_sub, record n { subs = n.subs ++ n.next_sub ∷ []; next_sub = suc n.next_sub })

-- `std::erase(subs_, sub)`
unfoldable pub unsubscribe : Notifier → ℕ → Notifier
unsubscribe n sub = record n { subs = keep (λ s. not (s == sub)) n.subs }

-- The timers that are cancelled, and the notifier.
unfoldable pub notify : Notifier → ℤ → List ℕ × Notifier
notify n id = (n.subs, record n { last_id = id })

abbrev pub subscriber_count : Notifier → ℕ
subscriber_count n = length n.subs
