-- ===== src/Tasks/Vacuum.antt =====
-- cpp/src/tasks/vacuum.hpp: removing old logs and giving space back. What the database answers, and
-- what a change makes of it, are operations of a record; so are the operations on `double`. The time
-- that is too old, `cutoff`, is the clock's, as text.
use loglite.Prelude.{
  Bool, List, Option, String, Text, [], codes, if◌then◌else◌, is_empty, none, not, some, suc,
  text_eq, text_ltb, ℕ, ◌*◌, ◌/◌, ◌>>=◌, ◌||◌, ◌∷◌,
}
use loglite.Prelude.Int.{ltb_ℤ, negsuc, pos, pos_part, to_signed, ℤ, ◌*ℤ◌, ◌+ℤ◌, ◌-ℤ◌}
use loglite.Json.{ColumnInfo, Json, QueryFilter, integer, string}
use loglite.Utils.{Number, eq_ℤ, invalid, number, out_of_range, stoi, stoll}
use loglite.Database.{estimate_avg_row_bytes, known_field}
use loglite.Config.{Config}

pub record VacuumStore (S : Type 0) : Type 0 where
  pub get_pragma : S → Text → Text
  pub min_timestamp : S → Text
  pub min_log_id : S → ℤ
  pub max_log_id : S → ℤ
  pub row_count : S → ℕ
  pub size_bytes : S → ℕ
  -- Changes, which may throw.
  pub delete_logs : S → List QueryFilter → Option (ℤ × S)
  pub incremental_vacuum : S → ℤ → Option S
  pub vacuum : S → Option S
  pub wal_checkpoint : S → Text → Option S

-- All that the code does with a `double`.
pub record SizeDouble (D : Type 0) : Type 0 where
  pub bytes_to_mb : ℤ → D
  pub le : D → D → Bool
  pub minus : D → D → D
  pub over : D → D → D
  -- `static_cast<int64_t>(n * x)`
  pub part_of : ℤ → D → ℤ

-- Division, to zero.
abbrev pub quot : ℤ → ℕ → ℤ
quot (pos n) d = pos (n / d)
quot (negsuc n) d = pos 0 -ℤ pos (suc n / d)

abbrev pub min_ℤ : ℤ → ℤ → ℤ
min_ℤ a b = if ltb_ℤ b a then b else a

-- A number of megabytes in rows of this size.
unfoldable pub max_rows : ℤ → ℕ → ℤ
max_rows limit_mb avg_row_bytes = quot (limit_mb *ℤ pos (1024 * 1024)) avg_row_bytes

abbrev pub is_positive : ℤ → Bool
is_positive n = ltb_ℤ (pos 0) n

abbrev pub up_to : String → Json → QueryFilter
up_to name v = record { field_name = codes name; op = codes "<="; value = v }

abbrev pub as_number : Number → Option ℤ
as_number (number n) = some n
as_number invalid = none
as_number out_of_range = none

module _ {S : Type 0} (db : VacuumStore S) where
  abbrev pub avg_row_bytes : S → ℕ
  avg_row_bytes s = estimate_avg_row_bytes (db.row_count s) (db.size_bytes s)

  -- The last id of the oldest rows that fit the limit.
  abbrev pub limited_id : S → ℤ → ℤ
  limited_id s limit_mb = db.min_log_id s +ℤ max_rows limit_mb (avg_row_bytes s) -ℤ pos 1

  -- What is removed as too old, if there is anything.
  unfoldable pub stale_filters : Config → Text → ℤ → S → Option (List QueryFilter)
  stale_filters cfg cutoff limit_mb s =
      let old : QueryFilter = record {
        field_name = cfg.log_timestamp_field;
        op = codes "<=";
        value = string cutoff;
      } in
      let last = min_ℤ (db.max_log_id s) (limited_id s limit_mb) in
      if is_empty (db.min_timestamp s) || not (text_ltb (db.min_timestamp s) cutoff)
      then none
      else if is_positive limit_mb
      then some (old ∷ up_to "id" (integer last) ∷ [])
      else some (old ∷ [])

  unfoldable pub remove_stale_logs : Config → Text → ℤ → S → Option (ℤ × S)
  unfolding stale_filters
  remove_stale_logs cfg cutoff limit_mb s = elim (stale_filters cfg cutoff limit_mb s) [
    | none ↦ some (pos 0, s)
    | some flt ↦ db.delete_logs s flt
  ]

  -- The pages that are given back; a page size of 0 would be undefined, and is none of SQLite's.
  abbrev pub freed_pages : ℤ → ℤ → ℤ → ℤ
  freed_pages max_size_mb pgsz fl =
      min_ℤ fl (quot (max_size_mb *ℤ pos (1024 * 1024)) (pos_part pgsz))

  unfoldable pub incremental_vacuum_pass : ℤ → S → Option (ℤ × S)
  incremental_vacuum_pass max_size_mb s =
      let freelist = db.get_pragma s (codes "freelist_count") in
      if is_empty freelist || text_eq freelist (codes "0") then some (pos 0, s) else do
        fl ← as_number (stoll freelist)
        pgsz ← as_number (stoll (db.get_pragma s (codes "page_size")))
        s' ← db.incremental_vacuum s (to_signed 32 (freed_pages max_size_mb pgsz fl))
        remain ← as_number (stoll (db.get_pragma s' (codes "freelist_count")))
        some (to_signed 32 remain, s')

  abbrev pub vacuum_mode : S → Option ℤ
  vacuum_mode s =
      let mode = db.get_pragma s (codes "auto_vacuum") in
      if is_empty mode then some (pos 0) else as_number (stoi mode)

  abbrev pub remove_stale_if : Bool → Config → Text → ℤ → S → Option (ℤ × S)
  remove_stale_if has_ts cfg cutoff limit_mb s =
      if has_ts then remove_stale_logs cfg cutoff limit_mb s else some (pos 0, s)

  abbrev pub full_vacuum_if : Bool → S → Option S
  full_vacuum_if is_full s =
      if is_full then (do s' ← db.vacuum s; db.wal_checkpoint s' (codes "FULL")) else some s

  module _ {D : Type 0} (double : SizeDouble D) where
    -- The last id that is removed as too much.
    unfoldable pub excessive_id : Config → ℤ → S → ℤ
    excessive_id cfg limit_mb s =
        let db_mb = double.bytes_to_mb (pos (db.size_bytes s)) in
        let target_mb = double.bytes_to_mb cfg.vacuum_target_size_bytes in
        let min_id = db.min_log_id s in
        let rowcnt = db.max_log_id s -ℤ min_id +ℤ pos 1 in
        let ratio = double.over (double.minus db_mb target_mb) db_mb in
        let last = min_id +ℤ double.part_of rowcnt ratio -ℤ pos 1 in
        if is_positive limit_mb then min_ℤ last (limited_id s limit_mb) else last

    unfoldable pub remove_excessive_logs : Config → ℤ → S → Option (ℤ × S)
    unfolding excessive_id
    remove_excessive_logs cfg limit_mb s =
        let deleted = db.delete_logs s (up_to "id" (integer (excessive_id cfg limit_mb s)) ∷ []) in
        if double.le (double.bytes_to_mb (pos (db.size_bytes s)))
          (double.bytes_to_mb cfg.vacuum_max_size_bytes)
        then some (pos 0, s)
        else deleted

    -- Behind the incremental pass: old logs, then too many logs, then the file itself.
    unfoldable pub remove_and_vacuum : Config → List ColumnInfo → Text → ℤ → ℤ → S → Option S
    unfolding remove_stale_logs remove_excessive_logs
    remove_and_vacuum cfg infos cutoff mode limit_mb s = do
      (removed, s1) ←
          remove_stale_if (known_field infos cfg.log_timestamp_field) cfg cutoff limit_mb s
      (removed', s2) ← remove_excessive_logs cfg limit_mb s1
      full_vacuum_if (eq_ℤ mode (pos 1)) s2

    abbrev pub after_pass : Config → List ColumnInfo → Text → ℤ → ℤ × S → Option S
    after_pass cfg infos cutoff mode (remain, s) =
        if is_positive remain
        then some s
        else remove_and_vacuum cfg infos cutoff mode cfg.task_vacuum_max_size s

    -- One pass of the task.
    unfoldable pub vacuum_pass : Config → List ColumnInfo → Text → S → Option S
    unfolding incremental_vacuum_pass remove_and_vacuum
    vacuum_pass cfg infos cutoff s = do
      mode ← vacuum_mode s
      if eq_ℤ mode (pos 2)
          then incremental_vacuum_pass cfg.task_vacuum_max_size s
            >>= after_pass cfg infos cutoff mode
          else remove_and_vacuum cfg infos cutoff mode (pos 0) s
