-- ===== src/Config/Overrides.antt =====
-- config.cpp, read_env_overrides and load_root_config: an environment variable against the document.
use loglite.Prelude.{
  All, Assoc, Bool-cases, List, NoByte, Option, Option-cases, Text, [], arith, codes, drop_past,
  false, find_char-append, inl, inr, insert, length, lookup, lookup-insert, refl, some, subst,
  take-length, text_eq, text_eq_iff, text_eq_refl, ◌++◌, ◌-◌, ◌∷◌, ◌≡◌, ◌≢◌,
}
use loglite.Yaml.{Yaml, env_override, env_overrides, lower, read_env_overrides}
use loglite.Config.Load.{load_scalar}

-- LOGLITE_<key>=<value>
abbrev pub variable : Text → Text → Text
variable key value = codes "LOGLITE_" ++ (key ++ b'=' ∷ value)

-- The entry is no variable of this key.
abbrev pub IsOther : Text → Text → Type 0
IsOther key entry = (value : Text) → env_override entry ≢ some (lower key, value)

env_override-variable :
    (key value : Text)
    → NoByte b'=' key
    → env_override (variable key value) ≡ some (lower key, value)
unfolding env_override
env_override-variable key value h =
    let front = codes "LOGLITE_" ++ key in
    let cut : length front - 8 ≡ length key = omega arith in
    rw
      (
        find_char-append b'=' key value h,
        cut,
        take-length key (b'=' ∷ value),
        drop_past b'=' front value,
      )
      refl

module _ (key value : Text) where
  other_key :
      (entry j v : Text)
      → IsOther key entry
      → env_override entry ≡ some (j, v)
      → text_eq j (lower key) ≡ false
  other_key entry j v h m = elim (Bool-cases (text_eq j (lower key))) [
    | inr e ↦ e
    | inl e ↦
        let same : j ≡ lower key = (text_eq_iff j (lower key)).0 e in
        elim (h v (subst (λ k. env_override entry ≡ some (k, v)) same m)) [ ]
  ]

  other_entries :
      (out : Assoc Text) (after : List Text)
      → All (IsOther key) after
      → lookup (lower key) out ≡ some value
      → lookup (lower key) (env_overrides out after) ≡ some value
  unfolding env_overrides
  other_entries out [] h e = e
  other_entries out (entry ∷ after) h e = elim (Option-cases (env_override entry)) [
    | inl n ↦ rw n (other_entries out after h.1 e)
    | inr ((j, v), m) ↦ rw m (
        other_entries (insert j v out) after h.1
          (rw (lookup-insert j (lower key) v out, other_key entry j v h.0 m) e))
  ]

  last_entry :
      (out : Assoc Text) (before after : List Text)
      → NoByte b'=' key
      → All (IsOther key) after
      → lookup (lower key) (env_overrides out (before ++ variable key value ∷ after)) ≡ some value
  unfolding env_overrides lookup
  last_entry out [] after h others =
      rw (env_overrides, env_override-variable key value h)
        (other_entries (insert (lower key) value out) after others
          (rw (lookup-insert (lower key) (lower key) value out, text_eq_refl (lower key)) refl))
  last_entry out (entry ∷ before) after h others = elim (Option-cases (env_override entry)) [
    | inl n ↦ rw (env_overrides, n) (last_entry out before after h others)
    | inr ((j, v), m) ↦ rw (env_overrides, m) (last_entry (insert j v out) before after h others)
  ]

  -- The last variable LOGLITE_<key>=<value> of the environment decides a scalar member, whatever the
  -- document says: the member is read from its value.
  pub load_scalar-variable :
      {N T : Type 0} (yaml : Yaml N) (doc : N) (before after : List Text)
      (from_string : Text → Option T) (from_yaml : N → Option T) (current : T)
      → NoByte b'=' key
      → All (IsOther key) after
      → load_scalar yaml
          (read_env_overrides (before ++ variable key value ∷ after))
          doc
          from_string
          from_yaml
          (lower key)
          current
        ≡ from_string value
  unfolding load_scalar read_env_overrides lookup
  load_scalar-variable yaml doc before after from_string from_yaml current h others =
      rw (load_scalar, read_env_overrides, last_entry [] before after h others) refl
