-- ===== src/Database/Params.antt =====
-- database.cpp, apply_params: the pragmas that a connection sets when it opens. The mode of vacuum that
-- the database has, as text, is an argument; the statements are taken to succeed.
use loglite.Prelude.{
  Assoc, Bool, Bool-cases, List, Option, Text, [], codes, false, if◌then◌else◌, inl, inr, keep, map,
  not, refl, some, text_eq, true, ◌&&◌, ◌++◌, ◌==◌, ◌>>=◌, ◌∷◌, ◌≡◌,
}
use loglite.Utils.{range_contains}
use loglite.Database.{normalize_vacuum_mode}

pub data AccessMode : Type 0 where
  read_mode write_mode : AccessMode

abbrev pub writer_only_pragmas : List Text
writer_only_pragmas = codes "auto_vacuum" ∷ codes "journal_mode" ∷ codes "synchronous" ∷ []

abbrev pub is_write : AccessMode → Bool
is_write read_mode = false
is_write write_mode = true

abbrev pub set_pragma : Text → Text → Text
set_pragma name value = codes "PRAGMA " ++ (name ++ (codes "=" ++ value))

-- The mode is changed only to another one, and then the file is rewritten; `none` is the exception of
-- a mode that there is not.
abbrev pub change_vacuum : Text → Text → Option (List Text)
change_vacuum current v = do
  m ← normalize_vacuum_mode current
  n ← normalize_vacuum_mode v
  some (if m == n then [] else set_pragma (codes "auto_vacuum") v ∷ codes "VACUUM" ∷ [])

-- The statements for one parameter.
unfoldable pub apply_param : AccessMode → Text → Text × Text → Option (List Text)
apply_param mode current (k, v) =
    if not (is_write mode) && range_contains writer_only_pragmas k
    then some []
    else if is_write mode && text_eq k (codes "auto_vacuum")
    then change_vacuum current v
    else some (set_pragma k v ∷ [])

-- `current` is asked for at the one parameter that needs it.
unfoldable pub apply_params : AccessMode → Text → Assoc Text → Option (List Text)
unfolding apply_param
apply_params mode current [] = some []
apply_params mode current (p ∷ ps) = do
  first ← apply_param mode current p
  rest ← apply_params mode current ps
  some (first ++ rest)

-- A reading connection sets exactly the parameters that need no right to write, in order, and never
-- fails over a mode of vacuum.
pub apply_params_read :
    (current : Text) (ps : Assoc Text)
    → apply_params read_mode current ps
      ≡ some (
          map
            (λ p. set_pragma p.0 p.1)
            (keep (λ p. not (range_contains writer_only_pragmas p.0)) ps))
unfolding apply_params apply_param
apply_params_read current [] = refl
apply_params_read current ((k, v) ∷ ps) = elim (Bool-cases (range_contains writer_only_pragmas k)) [
  | inl e ↦ rw (apply_params, apply_param, e, apply_params_read current ps) refl
  | inr e ↦ rw (apply_params, apply_param, e, apply_params_read current ps) refl
]
