-- ===== src/Tasks/Budget.antt =====
-- vacuum.hpp: how much one pass of an incremental vacuum removes.
use native.Mathlib.Nat.{div-add-mod}
use loglite.Prelude.{
  Bool-cases, In, List, Text, arith, inl, inr, is_empty, not, refl, some, some_eq, subst, text_ltb,
  true, ℕ, ◌*◌, ◌/◌, ◌<◌, ◌||◌, ◌≡◌, ◌≤◌,
}
use loglite.Prelude.Int.{int_laws, pos, ℤ, ◌*ℤ◌, ◌+ℤ◌, ◌-ℤ◌, ◌≤ℤ◌}
use loglite.Json.{QueryFilter, integer}
use loglite.Database.{estimate_avg_row_bytes}
use loglite.Config.{Config}
use loglite.Tasks.Vacuum.{
  SizeDouble, VacuumStore, avg_row_bytes, excessive_id, is_positive, limited_id, max_rows, min_ℤ,
  stale_filters, up_to,
}

avg_row_bytes_pos : (rows size : ℕ) → 0 < estimate_avg_row_bytes rows size
unfolding estimate_avg_row_bytes
avg_row_bytes_pos rows size = ground arith

*ℤ-pos : (m n : ℕ) → pos m *ℤ pos n ≡ pos (m * n)
unfolding ◌*ℤ◌
*ℤ-pos m n = ground arith

-- The rows of a positive number of megabytes take at most that much.
max_rows-fits :
    (limit avg : ℕ)
    → 0 < avg
    → (q : ℕ) × (max_rows (pos limit) avg ≡ pos q) × (q * avg ≤ limit * (1024 * 1024))
unfolding max_rows
max_rows-fits limit avg h = (
  limit * (1024 * 1024) / avg,
  rw (*ℤ-pos limit (1024 * 1024)) refl,
  omega (arith, div-add-mod (limit * (1024 * 1024)) avg),
)

limit_set : (n : ℕ) → 0 < n → is_positive (pos n) ≡ true
limit_set n h = ground (arith, h)

min_ℤ-right : (a b : ℤ) → min_ℤ a b ≤ℤ b
min_ℤ-right a b = ground arith

up_to_limit : (a m q : ℤ) → m ≤ℤ a +ℤ q -ℤ pos 1 → m -ℤ a +ℤ pos 1 ≤ℤ q
up_to_limit a m q h = omega int_laws

module _ {S : Type 0} (db : VacuumStore S) (limit : ℕ) (s : S) where
  -- The ids from the least to this one are rows of at most the limit, by the average size of a row.
  abbrev pub IsWithin : ℤ → Type 0
  IsWithin last =
      (q : ℕ) × (q * avg_row_bytes db s ≤ limit * (1024 * 1024))
      × (last -ℤ db.min_log_id s +ℤ pos 1 ≤ℤ pos q)

  limited-IsWithin : (last : ℤ) → last ≤ℤ limited_id db s (pos limit) → IsWithin last
  limited-IsWithin last h =
      let (q, e, fits) =
        max_rows-fits limit (avg_row_bytes db s)
          (avg_row_bytes_pos (db.row_count s) (db.size_bytes s)) in
      (
        q,
        fits,
        up_to_limit (db.min_log_id s) last (pos q)
            (subst (λ r. last ≤ℤ db.min_log_id s +ℤ r -ℤ pos 1) e h),
      )

module _ {S : Type 0} (db : VacuumStore S) (cfg : Config) (limit : ℕ) (is_limited : 0 < limit)
    (s : S) where
  -- With a limit, the pass that removes rows because they are too old has a condition on the id: from the
  -- least id on, at most as many as fit the limit by the average size of a row.
  pub stale_filters-IsWithin :
      (cutoff : Text) (flt : List QueryFilter)
      → stale_filters db cfg cutoff (pos limit) s ≡ some flt
      → (last : ℤ) × In (up_to "id" (integer last)) flt × IsWithin db limit s last
  unfolding stale_filters
  stale_filters-IsWithin cutoff flt h =
      let last = min_ℤ (db.max_log_id s) (limited_id db s (pos limit)) in
      let nothing = is_empty (db.min_timestamp s) || not (text_ltb (db.min_timestamp s) cutoff) in
      elim (Bool-cases nothing) [
        | inl e ↦ absurd (cc (rw (stale_filters, e) at h))
        | inr e ↦
            let same = some_eq (rw (stale_filters, e, limit_set limit is_limited) at h) in
            (
              last,
              subst (In (up_to "id" (integer last))) same (inr (inl refl)),
              limited-IsWithin db limit s last
                  (min_ℤ-right (db.max_log_id s) (limited_id db s (pos limit))),
            )
      ]

  -- With a limit, the pass that removes rows because the database is too large removes, from the least
  -- id on, at most as many as fit the limit by the average size of a row.
  pub excessive_id-IsWithin :
      {D : Type 0} (double : SizeDouble D)
      → IsWithin db limit s (excessive_id db double cfg (pos limit) s)
  unfolding excessive_id
  excessive_id-IsWithin double =
      let db_mb = double.bytes_to_mb (pos (db.size_bytes s)) in
      let target_mb = double.bytes_to_mb cfg.vacuum_target_size_bytes in
      let rowcnt = db.max_log_id s -ℤ db.min_log_id s +ℤ pos 1 in
      let ratio = double.over (double.minus db_mb target_mb) db_mb in
      let last = db.min_log_id s +ℤ double.part_of rowcnt ratio -ℤ pos 1 in
      rw (excessive_id, limit_set limit is_limited)
        (limited-IsWithin db limit s (min_ℤ last (limited_id db s (pos limit)))
          (min_ℤ-right last (limited_id db s (pos limit))))
