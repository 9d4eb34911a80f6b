-- ===== src/Config/Tests.antt =====
-- Loading a configuration from a small document.
use loglite.Prelude.{
  Bool, List, Option, Text, [], arith, codes, false, if◌then◌else◌, insert, lookup, none, refl,
  some, text_eq, true, ◌∷◌, ◌≡◌,
}
use loglite.Prelude.Int.{pos, to_signed, to_unsigned, ℤ, ◌*ℤ◌}
use loglite.Json.{}
use loglite.Utils.{Number, invalid, number, out_of_range, parse_size_to_bytes, stoll, strip_spaces}
use loglite.Utils.Sizes.{}
use loglite.Yaml.{
  Yaml, bool_from_string, env_override, env_overrides, int_from_string, int_from_yaml, member,
  read_env_overrides, text_from_yaml,
}
use loglite.Config.Types.{Config, default_config}
use loglite.Config.PoolSize.{resolve_pool_size, strtoul}
use loglite.Config.Load.{load_root_config, load_scalar}
use loglite.Config.FromFile.{document, from_file, has_migrations, is_valid, loaded, post_init}
use loglite.Config.PoolBounds.{resolve_pool_size-digits}
use loglite.Config.Valid.{IsValid, from_file-IsValid}
use loglite.Config.Overrides.{IsOther, load_scalar-variable}

-- A document of scalars, sequences and maps.
mutual
  data Node : Type 0 where
    scalar : Text → Node
    sequence : Nodes → Node
    mapping : Entries → Node

  data Nodes : Type 0 where
    no_nodes : Nodes
    then_node : Node → Nodes → Nodes

  data Entries : Type 0 where
    no_entries : Entries
    then_entry : Text → Node → Entries → Entries

abbrev node_list : Nodes → List Node
node_list no_nodes = []
node_list (then_node n ns) = n ∷ node_list ns

abbrev entry_list : Entries → List (Node × Node)
entry_list no_entries = []
entry_list (then_entry k v kvs) = (scalar k, v) ∷ entry_list kvs

abbrev find_entry : Text → Entries → Option Node
find_entry k no_entries = none
find_entry k (then_entry j v kvs) = if text_eq j k then some v else find_entry k kvs

abbrev node_child : Node → Text → Option (Option Node)
node_child (scalar s) k = none
node_child (sequence ns) k = some none
node_child (mapping kvs) k = some (find_entry k kvs)

abbrev scalar_text : Node → Option Text
scalar_text (scalar s) = some s
scalar_text (sequence ns) = none
scalar_text (mapping kvs) = none

abbrev as_number : Number → Option ℤ
as_number (number n) = some n
as_number invalid = none
as_number out_of_range = none

abbrev is_mapping : Node → Bool
is_mapping (mapping kvs) = true
is_mapping _ = false

abbrev is_seq : Node → Bool
is_seq (sequence ns) = true
is_seq _ = false

abbrev children : Node → List Node
children (sequence ns) = node_list ns
children _ = []

abbrev pairs : Node → List (Node × Node)
pairs (mapping kvs) = entry_list kvs
pairs _ = []

abbrev plain_yaml : Yaml Node
plain_yaml = record {
  child = node_child;
  is_map = is_mapping;
  is_sequence = is_seq;
  elements = children;
  entries = pairs;
  as_string = scalar_text;
  as_bool = λ n. elim (scalar_text n) [ none ↦ none | some s ↦ bool_from_string s ];
  as_int64 = λ n. elim (scalar_text n) [ none ↦ none | some s ↦ as_number (stoll s) ];
}

abbrev first_migration : Node
first_migration = mapping (then_entry (codes "version") (scalar (codes "1")) no_entries)

abbrev tailed_file : Node
tailed_file = mapping (
    then_entry (codes "type") (scalar (codes "file"))
      (then_entry (codes "name") (scalar (codes "app")) no_entries))

abbrev small_document : Node
small_document = mapping (
    then_entry (codes "port") (scalar (codes "9000")) (
      then_entry (codes "migrations") (sequence (then_node first_migration no_nodes))
        (then_entry (codes "harvesters") (sequence (then_node tailed_file no_nodes)) no_entries)))

abbrev environ : List Text
environ = codes "HOME=/root" ∷ codes "LOGLITE_PORT=8080" ∷ []

abbrev expected_config : Config
expected_config = record default_config {
  port = 8080;
  db_path = codes "./db/logs.db";
  vacuum_max_size_bytes = pos 1099511627776;
  vacuum_target_size_bytes = pos 858993459200;
  harvesters = record { type = codes "file"; name = codes "app"; config = [] } ∷ [];
  migrations = record { version = pos 1; rollout = []; rollback = [] } ∷ [];
}

small_document_loaded :
    from_file plain_yaml 4 (λ dir. true) environ (document small_document) ≡ loaded expected_config
unfolding from_file load_root_config load_scalar member read_env_overrides env_overrides
    env_override insert lookup is_valid has_migrations post_init parse_size_to_bytes
    resolve_pool_size text_from_yaml to_signed stoll strtoul strip_spaces ◌*ℤ◌
small_document_loaded = refl

from_file-IsValid_example : IsValid 4 expected_config
from_file-IsValid_example =
    from_file-IsValid plain_yaml 4 (λ dir. true) environ (document small_document) expected_config
      small_document_loaded

home-IsOther : IsOther (codes "PORT") (codes "HOME=/root")
unfolding env_override
home-IsOther value h = cc

load_scalar-variable_example :
    load_scalar plain_yaml
      (read_env_overrides (codes "LOGLITE_PORT=8080" ∷ codes "HOME=/root" ∷ []))
      small_document
      (int_from_string (to_unsigned 16))
      (int_from_yaml plain_yaml (to_unsigned 16))
      (codes "port")
      7788
    ≡ int_from_string (to_unsigned 16) (codes "8080")
load_scalar-variable_example =
    load_scalar-variable (codes "PORT") (codes "8080") plain_yaml small_document []
      (codes "HOME=/root" ∷ []) (int_from_string (to_unsigned 16))
      (int_from_yaml plain_yaml (to_unsigned 16)) 7788 (refl, (refl, (refl, (refl, tt))))
      (home-IsOther, tt)

resolve_pool_size-digits_example :
    (resolve_pool_size 4 (codes "16") ≡ some 16)
    × (resolve_pool_size 4 (codes "-16") ≡ some 4294967280)
resolve_pool_size-digits_example =
    resolve_pool_size-digits 4 b'1' (codes "6") (refl, (refl, tt)) (omega arith)

auto_size : resolve_pool_size 0 (codes " Auto ") ≡ some 1
unfolding resolve_pool_size strip_spaces
auto_size = refl

too_large_size : resolve_pool_size 4 (codes "4294967296") ≡ some 0
unfolding resolve_pool_size strip_spaces strtoul
too_large_size = refl
