-- ===== src/Bindings/Tests.antt =====
-- Python objects at concrete values.
use loglite.Prelude.{codes, refl, some, true, ◌≡◌}
use loglite.Prelude.Int.{negsuc}
use loglite.Json.{Json, array, boolean, cons, end, field, integer, nil, null, object}
use loglite.Bindings.Loaded.{load, py_object_to_json-load}
use loglite.Bindings.{
  entry, no_entries, no_objects, objects, py_dict, py_int, py_none, py_object_to_json, py_str,
  py_tuple,
}

-- The members of the object stand in the order of their keys; a key that is no str is refused.
two_members :
    py_object_to_json (
      py_dict (
        entry
          (py_str (some (codes "b")))
          (py_int (negsuc 0))
          (entry (py_str (some (codes "a"))) (py_tuple (objects py_none no_objects)) no_entries)))
    ≡ some (
        object
          (field (codes "a") (array (cons null nil)) (field (codes "b") (integer (negsuc 0)) end)))
unfolding py_object_to_json
two_members = refl

abbrev sample : Json
sample = object (
    field (codes "a") (array (cons (integer (negsuc 6)) nil))
      (field (codes "b") (boolean true) end))

py_object_to_json-load_example : py_object_to_json (load sample) ≡ some sample
py_object_to_json-load_example =
    py_object_to_json-load sample ((refl, tt), (refl, tt), (tt, tt, tt))
