-- ===== src/Pool/Tests.antt =====
-- The pool at concrete inputs.
use loglite.Prelude.{[], false, refl, ◌∷◌, ◌≡◌}
use loglite.Pool.{Pool, acquire, connection, create, release}
use loglite.Pool.Leases.{IsExclusive, Reachable, Reachable-IsExclusive, fresh, taken, then_step}

abbrev one_taken : Pool
one_taken = record { readers = 0 ∷ 1 ∷ []; available = 1 ∷ []; closed = false }

abbrev both_taken : Pool
both_taken = record { readers = 0 ∷ 1 ∷ []; available = []; closed = false }

first_lease : acquire (create 2) ≡ connection 0 one_taken
unfolding acquire create
first_lease = refl

second_lease : acquire one_taken ≡ connection 1 both_taken
unfolding acquire
second_lease = refl

both_taken-Reachable : Reachable 2 (both_taken, 1 ∷ 0 ∷ [])
both_taken-Reachable = then_step (then_step fresh (taken 0 first_lease)) (taken 1 second_lease)

Reachable-IsExclusive_example : IsExclusive 2 (both_taken, 1 ∷ 0 ∷ [])
Reachable-IsExclusive_example =
    Reachable-IsExclusive 2 (both_taken, 1 ∷ 0 ∷ []) both_taken-Reachable

released_again : release one_taken 0 ≡ record one_taken { available = 1 ∷ 0 ∷ [] }
unfolding release
released_again = refl
