-- ===== src/Config/FromFile.antt =====
-- config.cpp, from_file: the validation, and what it derives.
use loglite.Prelude.{
  Bool, List, Option, Text, [], any, codes, false, if◌then◌else◌, is_empty, is_some, none, not,
  some, true, ℕ, ◌&&◌, ◌++◌, ◌==◌, ◌||◌, ◌∷◌,
}
use loglite.Prelude.Int.{ltb_ℤ, pos}
use loglite.Utils.{bytes, overflowed, parse_size_to_bytes, threw}
use loglite.Yaml.{Yaml, read_env_overrides}
use loglite.Config.Types.{Config, HarvesterDef, default_config}
use loglite.Config.PoolSize.{resolve_pool_size}
use loglite.Config.Load.{load_root_config}

-- What `from_file` gives: the configuration, an exception, or a size whose product overflows.
pub data Loaded : Type 0 where
  loaded : Config → Loaded
  refused : Loaded
  size_overflowed : Loaded

-- The file: absent, or the document that it holds; `unreadable` is the exception of LoadFile.
pub data File (N : Type 0) : Type 0 where
  absent unreadable : File N
  document : N → File N

abbrev pub is_named : HarvesterDef → Bool
is_named h = not (is_empty h.type || is_empty h.name)

abbrev pub every : {A : Type 0} → (A → Bool) → List A → Bool
every p xs = not (any (λ x. not (p x)) xs)

-- `a / "logs.db"`
abbrev pub ends_in_slash : Text → Bool
ends_in_slash [] = true
ends_in_slash (c ∷ []) = c == b'/'
ends_in_slash (c ∷ d ∷ s) = ends_in_slash (d ∷ s)

abbrev pub in_dir : Text → Text → Text
in_dir dir file = if ends_in_slash dir then dir ++ file else dir ++ b'/' ∷ file

-- What follows the checks: `creates` says whether the directory could be made.
unfoldable pub post_init : ℕ → (Text → Bool) → Config → Loaded
unfolding parse_size_to_bytes resolve_pool_size
post_init hardware creates cfg = elim (parse_size_to_bytes cfg.vacuum_max_size) [
  | threw ↦ refused
  | overflowed ↦ size_overflowed
  | bytes max_bytes ↦ elim (parse_size_to_bytes cfg.vacuum_target_size) [
    | threw ↦ refused
    | overflowed ↦ size_overflowed
    | bytes target_bytes ↦ elim (resolve_pool_size hardware cfg.db_pool_size) [
      | none ↦ refused
      | some n ↦
          if creates cfg.sqlite_dir
          then loaded (record cfg {
            vacuum_max_size_bytes = max_bytes;
            vacuum_target_size_bytes = target_bytes;
            db_path = in_dir cfg.sqlite_dir (codes "logs.db");
          })
          else refused
    ]
  ]
]

module _ {N : Type 0} (yaml : Yaml N) where
  -- The child, where there is one and looking for it does not throw.
  abbrev pub present : N → Text → Option N
  present node key = elim (yaml.child node key) [ none ↦ none | some c ↦ c ]

  -- `yaml["migrations"]` is a sequence of nodes that have a version.
  unfoldable pub has_migrations : N → Bool
  has_migrations doc = elim (present doc (codes "migrations")) [
    | none ↦ false
    | some ms ↦
        yaml.is_sequence ms && every (λ m. is_some (present m (codes "version"))) (yaml.elements ms)
  ]

  -- The four checks.
  unfoldable pub is_valid : N → Config → Bool
  unfolding has_migrations
  is_valid doc cfg =
      every is_named cfg.harvesters
      && (has_migrations doc
          && (not (is_empty cfg.migrations) && not (ltb_ℤ cfg.task_diagnostics_interval (pos 30))))

  unfoldable pub from_file : ℕ → (Text → Bool) → List Text → File N → Loaded
  unfolding load_root_config is_valid post_init read_env_overrides
  from_file hardware creates environ absent = refused
  from_file hardware creates environ unreadable = refused
  from_file hardware creates environ (document doc) =
      elim (load_root_config yaml (read_env_overrides environ) doc default_config) [
        | none ↦ refused
        | some cfg ↦ if is_valid doc cfg then post_init hardware creates cfg else refused
      ]
