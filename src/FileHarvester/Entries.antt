-- ===== src/FileHarvester/Entries.antt =====
-- file.hpp, process_line_safely: what becomes of one line.
use loglite.Prelude.{
  Bool, Bool-cases, Option, Option-cases, Text, ap, arith, codes, false, if◌then◌else◌, inl, inr,
  is_empty, none, not, refl, some, text_eq_iff, true, ◌>>=◌, ◌∙◌, ◌≡◌, ◌≢◌,
}
use loglite.Json.{
  Fields, Json, find, find_field, find_field-set_field, null, object, set_field, string,
}
use loglite.FileHarvester.{}

abbrev pub timestamp : Text
timestamp = codes "timestamp"

abbrev is_filled_string : Option Json → Bool
is_filled_string (some (string s)) = not (is_empty s)
is_filled_string _ = false

-- An object gets a timestamp unless it has one that is a string and not empty; all else is dropped.
unfoldable pub stamp : Text → Json → Option Json
stamp now (object fs) =
    if is_filled_string (find_field fs timestamp)
    then some (object fs)
    else some (object (set_field fs timestamp (string now)))
stamp now _ = none

-- `parse` is the JSON library's, `none` its parse error; `now` is the formatted current time.
pub process_line : (Text → Option Json) → Text → Text → Option Json
unfolding stamp
process_line parse now line = do entry ← parse line; stamp now entry

-- What an entry must be for the backlog.
abbrev pub IsEntry : Json → Type 0
IsEntry e = (s : Text) × (find e timestamp ≡ some (string s)) × (is_empty s ≡ false)

filled :
    (o : Option Json)
    → is_filled_string o ≡ true
    → (s : Text) × (o ≡ some (string s)) × (is_empty s ≡ false)
filled none h = cc
filled (some (string s)) h = (s, refl, ground arith)
filled (some null) h = cc
filled (some _) h = cc

set-IsEntry :
    (now : Text) (fs : Fields)
    → is_empty now ≡ false
    → IsEntry (object (set_field fs timestamp (string now)))
unfolding find
set-IsEntry now fs h = (now, rw find_field-set_field refl, h)

find_kept :
    (now : Text) (fs : Fields) (k : Text)
    → k ≢ timestamp
    → find (object (set_field fs timestamp (string now))) k ≡ find (object fs) k
unfolding find
find_kept now fs k h =
    ground (arith, find_field-set_field fs timestamp k (string now), text_eq_iff timestamp k)

-- What an accepted value becomes: an entry whose other members are those of the value.
abbrev pub Stamped : Json → Json → Type 0
Stamped e e' = IsEntry e' × ((k : Text) → k ≢ timestamp → find e' k ≡ find e k)

stamp_object :
    (now : Text) (fs : Fields)
    → is_empty now ≡ false
    → (e' : Json) × (stamp now (object fs) ≡ some e') × Stamped (object fs) e'
unfolding stamp
stamp_object now fs h = elim (Bool-cases (is_filled_string (find_field fs timestamp))) [
  | inl e ↦ (object fs, rw e refl, (unfold find in filled _ e, λ k ne. refl))
  | inr e ↦ (
    object (set_field fs timestamp (string now)),
    rw e refl,
    (set-IsEntry now fs h, find_kept now fs),
  )
]

-- A line that parses to an object is ingested, as an entry that has a timestamp which is a
-- string and not empty, and every other member as the line had it.
pub process_line-object :
    (parse : Text → Option Json) (now line : Text) (fs : Fields)
    → is_empty now ≡ false
    → parse line ≡ some (object fs)
    → (e' : Json) × (process_line parse now line ≡ some e') × Stamped (object fs) e'
unfolding process_line
process_line-object parse now line fs h eq = rw (eq, process_line) (stamp_object now fs h)

stamp_other : (now : Text) (e : Json) → ((fs : Fields) → e ≢ object fs) → stamp now e ≡ none
unfolding stamp
stamp_other now (object fs) h = absurd (h fs refl)
stamp_other now null h = refl
stamp_other now _ h = refl

-- A line that does not parse to an object is not ingested.
pub process_line_dropped :
    (parse : Text → Option Json) (now line : Text)
    → ((fs : Fields) → parse line ≢ some (object fs))
    → process_line parse now line ≡ none
unfolding process_line
process_line_dropped parse now line h = elim (Option-cases (parse line)) [
  | inl e ↦ rw (e, process_line) refl
  | inr (v, e) ↦ rw (e, process_line) (stamp_other now v (λ fs q. h fs (e ∙ ap some q)))
]
