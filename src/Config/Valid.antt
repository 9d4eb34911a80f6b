-- ===== src/Config/Valid.antt =====
-- config.cpp, from_file: what holds of a configuration that is loaded.
use loglite.Prelude.{
  All, Bool, Bool-cases, List, Option-cases, Text, [], arith, codes, false, inl, inr, is_empty,
  is_some, refl, subst, true, ℕ, ◌∷◌, ◌≡◌, ◌≢◌, ◌⊎◌,
}
use loglite.Prelude.Int.{pos, ℤ, ◌≤ℤ◌}
use loglite.Utils.{Size, bytes, overflowed, parse_size_to_bytes, threw}
use loglite.Yaml.{Yaml, read_env_overrides}
use loglite.Config.Types.{Config, HarvesterDef, default_config}
use loglite.Config.PoolSize.{resolve_pool_size}
use loglite.Config.Load.{load_root_config}
use loglite.Config.FromFile.{
  File, absent, document, every, from_file, in_dir, is_named, is_valid, loaded, post_init,
  unreadable,
}

abbrev IsNamed : HarvesterDef → Type 0
IsNamed h = (h.type ≢ []) × (h.name ≢ [])

-- What the rest of the program relies on.
abbrev pub IsValid : ℕ → Config → Type 0
IsValid hardware cfg =
    All IsNamed cfg.harvesters
    × (cfg.migrations ≢ [])
    × (pos 30 ≤ℤ cfg.task_diagnostics_interval)
    × (parse_size_to_bytes cfg.vacuum_max_size ≡ bytes cfg.vacuum_max_size_bytes)
    × (parse_size_to_bytes cfg.vacuum_target_size ≡ bytes cfg.vacuum_target_size_bytes)
    × (is_some (resolve_pool_size hardware cfg.db_pool_size) ≡ true)
    × (cfg.db_path ≡ in_dir cfg.sqlite_dir (codes "logs.db"))

filled : {A : Type 0} (xs : List A) → is_empty xs ≡ false → xs ≢ []
filled [] h e = cc
filled (x ∷ xs) h e = cc

named : (hs : List HarvesterDef) → every is_named hs ≡ true → All IsNamed hs
named [] h = tt
named (x ∷ hs) h = (
  (filled x.type (ground (arith, h)), filled x.name (ground (arith, h))),
  named hs (ground (arith, h)),
)

-- A text of a size has one, or an exception or an overflow.
Size-cases : (s : Size) → ((s ≡ threw) ⊎ (s ≡ overflowed)) ⊎ ((b : ℤ) × (s ≡ bytes b))
Size-cases threw = inl (inl refl)
Size-cases overflowed = inl (inr refl)
Size-cases (bytes b) = inr (b, refl)

loaded_eq : {a b : Config} → loaded a ≡ loaded b → a ≡ b
loaded_eq h = cc

module _ {N : Type 0} (yaml : Yaml N) (hardware : ℕ) (creates : Text → Bool) where
  checked_parts :
      (doc : N) (cfg : Config)
      → is_valid yaml doc cfg ≡ true
      → All IsNamed cfg.harvesters
        × (cfg.migrations ≢ [])
        × (pos 30 ≤ℤ cfg.task_diagnostics_interval)
  unfolding is_valid
  checked_parts doc cfg v = (
    named cfg.harvesters (ground (arith, v)),
    filled cfg.migrations (ground (arith, v)),
    ground (arith, v),
  )

  no_size :
      (cfg cfg' : Config)
      → ((parse_size_to_bytes cfg.vacuum_max_size ≡ threw)
          ⊎ (parse_size_to_bytes cfg.vacuum_max_size ≡ overflowed))
        ⊎ ((mb : ℤ) × (parse_size_to_bytes cfg.vacuum_max_size ≡ bytes mb)
            × ((parse_size_to_bytes cfg.vacuum_target_size ≡ threw)
                ⊎ (parse_size_to_bytes cfg.vacuum_target_size ≡ overflowed)))
      → post_init hardware creates cfg ≢ loaded cfg'
  unfolding post_init
  no_size cfg cfg' (inl (inl h)) e = cc (rw (h, post_init) at e)
  no_size cfg cfg' (inl (inr h)) e = cc (rw (h, post_init) at e)
  no_size cfg cfg' (inr (mb, h, inl k)) e = cc (rw (h, k, post_init) at e)
  no_size cfg cfg' (inr (mb, h, inr k)) e = cc (rw (h, k, post_init) at e)

  post_init-IsValid :
      (doc : N) (cfg cfg' : Config)
      → is_valid yaml doc cfg ≡ true
      → post_init hardware creates cfg ≡ loaded cfg'
      → IsValid hardware cfg'
  unfolding post_init
  post_init-IsValid doc cfg cfg' v e = elim (Size-cases (parse_size_to_bytes cfg.vacuum_max_size)) [
    | inl h ↦ absurd (no_size cfg cfg' (inl h) e)
    | inr (mb, h) ↦ elim (Size-cases (parse_size_to_bytes cfg.vacuum_target_size)) [
      | inl k ↦ absurd (no_size cfg cfg' (inr (mb, h, k)) e)
      | inr (tb, k) ↦ elim (Option-cases (resolve_pool_size hardware cfg.db_pool_size)) [
        | inl n ↦ absurd (cc (rw (h, k, n, post_init) at e))
        | inr (size, n) ↦ elim (Bool-cases (creates cfg.sqlite_dir)) [
          | inr c ↦ absurd (cc (rw (h, k, n, c, post_init) at e))
          | inl c ↦
              let (hs, ms, interval) = checked_parts doc cfg v in
              subst (IsValid hardware) (loaded_eq (rw (h, k, n, c, post_init) at e))
                (hs, ms, interval, h, k, rw n refl, refl)
        ]
      ]
    ]
  ]

  -- A configuration that from_file returns has harvesters with a type and a name, at least one
  -- migration, an interval of diagnostics of at least 30 s, the sizes in bytes that its texts of sizes
  -- tell, a size of the pool that resolves, and the database in its directory.
  pub from_file-IsValid :
      (environ : List Text) (file : File N) (cfg : Config)
      → from_file yaml hardware creates environ file ≡ loaded cfg
      → IsValid hardware cfg
  unfolding from_file
  from_file-IsValid environ absent cfg e = cc
  from_file-IsValid environ unreadable cfg e = cc
  from_file-IsValid environ (document doc) cfg e =
      elim (Option-cases (load_root_config yaml (read_env_overrides environ) doc default_config)) [
        | inl n ↦ absurd (cc (rw (n, from_file) at e))
        | inr (c, m) ↦ elim (Bool-cases (is_valid yaml doc c)) [
          | inl v ↦ post_init-IsValid doc c cfg v (rw (m, v, from_file) at e)
          | inr v ↦ absurd (cc (rw (m, v, from_file) at e))
        ]
      ]
