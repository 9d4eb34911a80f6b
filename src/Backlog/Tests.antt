-- ===== src/Backlog/Tests.antt =====
-- The backlog at concrete inputs.
use loglite.Prelude.{[], arith, false, refl, some, true, ℕ, ◌∷◌, ◌≡◌}
use loglite.Backlog.{Backlog, flush, push}
use loglite.Backlog.Bounds.{IsValid}
use loglite.Backlog.Refine.{flush-push_all, push_all}

abbrev two_slots : Backlog ℕ
two_slots = record { queue = []; max_size = 2; is_full = false }

two_slots-IsValid : IsValid two_slots
two_slots-IsValid = record { has_room = omega arith; bounded = omega arith; flagged = refl }

abbrev at_capacity : Backlog ℕ
at_capacity = record { queue = 4 ∷ 5 ∷ []; max_size = 2; is_full = true }

push-at_capacity : push at_capacity 6 ≡ some (record at_capacity { queue = 5 ∷ 6 ∷ [] }, true)
unfolding push
push-at_capacity = refl

flush-push_all_example :
    (b' : Backlog ℕ) × (n : ℕ) × (push_all two_slots (7 ∷ 8 ∷ 9 ∷ []) ≡ some (b', n))
    × ((flush b').0 ≡ 8 ∷ 9 ∷ [])
    × (n ≡ 1)
    × IsValid (flush b').1
    × ((flush b').1.queue ≡ [])
flush-push_all_example = flush-push_all two_slots (7 ∷ 8 ∷ 9 ∷ []) two_slots-IsValid refl
