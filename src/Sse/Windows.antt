-- ===== src/Sse/Windows.antt =====
-- sse.hpp: the rows that a session pushes.
use loglite.Prelude.{
  All, Bool, List, NoDup, Text, [], codes, false, if◌then◌else◌, leb, ltb, map, some, text_eq, true,
  ℕ, ◌++◌, ◌<◌, ◌==◌, ◌∷◌, ◌≡◌,
}
use loglite.Prelude.Int.{negsuc, pos}
use loglite.Json.{QueryFilter, integer}
use loglite.Sse.{Chunk, Round, Session, event, keep_alive}

-- The comparison of a row's id that a filter asks for.
abbrev compares : Text → ℕ → ℕ → Bool
compares op n id =
    if text_eq op (codes ">")
    then ltb n id
    else if text_eq op (codes ">=")
    then leb n id
    else if text_eq op (codes "<")
    then ltb id n
    else if text_eq op (codes "<=")
    then leb id n
    else if text_eq op (codes "=")
    then id == n
    else false

abbrev pub admits : QueryFilter → ℕ → Bool
admits f id = elim f.value [
  | integer n ↦ elim n [ pos m ↦ compares f.op m id | negsuc m ↦ false ]
  | _ ↦ false
]

module _ {A : Type 0} (id_of : A → ℕ) where
  -- The ids of the rows that are pushed, in order.
  abbrev pub pushed_ids : List (Chunk A) → List ℕ
  pushed_ids [] = []
  pushed_ids (keep_alive ∷ cs) = pushed_ids cs
  pushed_ids (event rows ∷ cs) = map id_of rows ++ pushed_ids cs

  -- The reader answers with rows that each filter admits, and with none twice.
  abbrev pub IsAnswering : Round A → Type 0
  IsAnswering r =
      (fs : List QueryFilter) (rows : List A)
      → r.answer fs ≡ some rows
      → All (λ id. All (λ f. admits f id ≡ true) fs) (map id_of rows) × NoDup (map id_of rows)

  -- All ids are above a number, and none occurs twice.
  abbrev pub IsNew : ℕ → List ℕ → Type 0
  IsNew lo ids = All (λ i. lo < i) ids × NoDup ids

  -- A round pushes new ids, and what is new behind it is new in front of it.
  abbrev Extends : Session → List (Chunk A) × Session × Bool → Type 0
  Extends s r =
      (rest : List (Chunk A))
      → IsNew r.1.pushed_id (pushed_ids rest)
      → IsNew s.pushed_id (pushed_ids (r.0 ++ rest))
