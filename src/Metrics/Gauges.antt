-- ===== src/Metrics/Gauges.antt =====
-- The gauges count what is open: metrics.cpp, GaugeGuard's constructor and destructor.
use loglite.Prelude.{
  List, Text, [], arith, if◌then◌else◌, lookup-insert, text_eq, text_eq_iff, text_eq_refl, ◌∷◌, ◌≡◌,
}
use loglite.Prelude.Int.{int_laws, negsuc, pos, ℤ, ◌+ℤ◌, ◌-ℤ◌}
use loglite.Metrics.{Registry, decrement_gauge, gauge, increment_gauge}

-- A guard is made, or destroyed.
pub data GuardEvent : Type 0 where
  opened : Text → GuardEvent
  closed : Text → GuardEvent

abbrev pub balance : Text → List GuardEvent → ℤ
balance name [] = pos 0
balance name (opened n ∷ es) = (if text_eq n name then pos 1 else pos 0) +ℤ balance name es
balance name (closed n ∷ es) = (if text_eq n name then negsuc 0 else pos 0) +ℤ balance name es

regroup_last : (a b c : ℤ) → a +ℤ (b +ℤ pos 0) +ℤ c ≡ a +ℤ (b +ℤ c)
regroup_last a b c = omega int_laws

module _ {V : Type 0} where
  pub guard_event : Registry V → GuardEvent → Registry V
  guard_event r (opened n) = increment_gauge r n
  guard_event r (closed n) = decrement_gauge r n

  pub guard_events : Registry V → List GuardEvent → Registry V
  guard_events r [] = r
  guard_events r (e ∷ es) = guard_events (guard_event r e) es

  pub gauge-guard_event :
      (r : Registry V) (e : GuardEvent) (name : Text)
      → gauge (guard_event r e) name ≡ gauge r name +ℤ balance name (e ∷ [])
  unfolding guard_event increment_gauge decrement_gauge gauge ◌+ℤ◌ ◌-ℤ◌
  gauge-guard_event r (opened n) name =
      ground (arith, lookup-insert n name (gauge r n +ℤ pos 1) r.gauges, text_eq_iff n name)
  gauge-guard_event r (closed n) name =
      ground (arith, lookup-insert n name (gauge r n -ℤ pos 1) r.gauges, text_eq_iff n name)

  -- Whatever guards of whatever names open and close, in whatever order, a gauge reads what it read
  -- at first, plus the guards of its name that opened, less those that closed.
  pub gauge-guard_events :
      (r : Registry V) (es : List GuardEvent) (name : Text)
      → gauge (guard_events r es) name ≡ gauge r name +ℤ balance name es
  unfolding guard_events
  gauge-guard_events r [] name = omega int_laws
  gauge-guard_events r (opened n ∷ es) name =
      rw (gauge-guard_events (guard_event r (opened n)) es name, gauge-guard_event)
        (regroup_last (gauge r name) _ _)
  gauge-guard_events r (closed n ∷ es) name =
      rw (gauge-guard_events (guard_event r (closed n)) es name, gauge-guard_event)
        (regroup_last (gauge r name) _ _)

-- What one guard does to its own gauge.
pub gauge-increment :
    {V : Type 0} (r : Registry V) (n : Text) → gauge (increment_gauge r n) n ≡ gauge r n +ℤ pos 1
unfolding increment_gauge gauge ◌+ℤ◌
gauge-increment r n =
    ground (arith, lookup-insert n n (gauge r n +ℤ pos 1) r.gauges, text_eq_refl n)

pub gauge-decrement :
    {V : Type 0} (r : Registry V) (n : Text) → gauge (decrement_gauge r n) n ≡ gauge r n -ℤ pos 1
unfolding decrement_gauge gauge ◌-ℤ◌
gauge-decrement r n =
    ground (arith, lookup-insert n n (gauge r n -ℤ pos 1) r.gauges, text_eq_refl n)
