-- ===== src/Sse.antt =====
-- cpp/src/handlers/sse.hpp: the loop of a session that pushes new logs to a subscriber. A time counts
-- milliseconds; `A` stands for a row. What a round finds (the notifier's last id, the clock, the
-- reader's answer, and whether the write succeeds) is an argument.
pub mod Streams
mod Windows
mod Subscribed
mod Tests
use loglite.Json.{QueryFilter, integer}
use loglite.Prelude.Int.{pos}
use loglite.Prelude.{
  Bool, List, Option, Text, [], codes, false, if◌then◌else◌, leb, ltb, none, some, true, ℕ, ◌++◌,
  ◌+◌, ◌∷◌,
}

pub record Session : Type 0 where
  pub pushed_id : ℕ
  pub last_push : Option ℕ
  pub last_write : ℕ

-- The answer of Query to the filters; `none` is an exception.
pub record Round (A : Type 0) : Type 0 where
  pub current_id : ℕ
  pub now : ℕ
  pub answer : List QueryFilter → Option (List A)
  pub is_written : Bool

-- A chunk that is written: a comment that keeps the connection open, or rows.
pub data Chunk (A : Type 0) : Type 0 where
  keep_alive : Chunk A
  event : List A → Chunk A

abbrev pub id_filter : Text → ℕ → QueryFilter
id_filter op n = record { field_name = codes "id"; op = op; value = integer (pos n) }

unfoldable pub id_filters : ℕ → ℕ → List QueryFilter
id_filters pushed_id current_id =
    id_filter (codes ">") pushed_id ∷ id_filter (codes "<=") current_id ∷ []

-- A push within the debounce window of the one before.
abbrev pub is_debounced : ℕ → Session → ℕ → Bool
is_debounced debounce s now = elim s.last_push [ none ↦ false | some t ↦ ltb now (t + debounce) ]

module _ {A : Type 0} (debounce : ℕ) where
  -- What is written, the session, and whether the loop ends.
  unfoldable pub idle_round : Session → Round A → List (Chunk A) × Session × Bool
  idle_round s r =
      if leb (s.last_write + 15000) r.now
      then (if r.is_written
          then (keep_alive ∷ [], record s { last_write = r.now }, false)
          else ([], s, true))
      else ([], s, false)

  unfoldable pub push_rows : Session → Round A → List A → List (Chunk A) × Session × Bool
  push_rows s r [] = ([], record s { pushed_id = r.current_id }, false)
  push_rows s r (row ∷ rows) =
      if r.is_written
      then (
        event (row ∷ rows) ∷ [],
        record { pushed_id = r.current_id; last_push = some r.now; last_write = r.now },
        false,
      )
      else ([], s, true)

  unfoldable pub round : Session → Round A → List (Chunk A) × Session × Bool
  unfolding idle_round push_rows id_filters
  round s r =
      if leb r.current_id s.pushed_id
      then idle_round s r
      else if is_debounced debounce s r.now
      then ([], s, false)
      else elim (r.answer (id_filters s.pushed_id r.current_id)) [
        | none ↦ ([], s, false)
        | some rows ↦ push_rows s r rows
      ]

  pub run_session : Session → List (Round A) → List (Chunk A)
  unfolding round
  run_session s [] = []
  run_session s (r ∷ rounds) =
      let (chunks, s', ends) = round s r in
      let rest = run_session s' rounds in chunks ++ (if ends then [] else rest)
