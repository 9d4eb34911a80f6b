-- ===== src/Bindings.antt =====
-- cpp/src/bindings.cpp, PyObjectToJson: the JSON value of a Python object. The object is Python's, as
-- pybind11 shows it; an exception is `none`.
pub mod Loaded
mod Tests
use loglite.Prelude.{Bool, Option, Text, if◌then◌else◌, ltb, none, some, ℕ, ◌>>=◌, ◌^◌}
use loglite.Prelude.Int.{negsuc, pos, ℤ}
use loglite.Json.{
  Fields, Items, Json, array, boolean, cons, end, floating, integer, nil, null, object, set_field,
  string,
}

mutual
  pub data PyObject : Type 0 where
    py_none : PyObject
    py_bool : Bool → PyObject
    py_int : ℤ → PyObject
    -- A double is its bit pattern.
    py_float : ℕ → PyObject
    -- The UTF-8 of a str, unless it cannot be encoded.
    py_str : Option Text → PyObject
    py_dict : PyEntries → PyObject
    py_list : PyObjects → PyObject
    py_tuple : PyObjects → PyObject
    -- A datetime, date or time, by what its isoformat answers.
    py_time : Option Text → PyObject
    -- Any other object, by the name of its class.
    py_other : Text → PyObject

  pub data PyObjects : Type 0 where
    no_objects : PyObjects
    objects : PyObject → PyObjects → PyObjects

  -- The items of a dict, in the order of iteration.
  pub data PyEntries : Type 0 where
    no_entries : PyEntries
    entry : PyObject → PyObject → PyEntries → PyEntries

-- `PyLong_AsLongLongAndOverflow` is without an overflow.
abbrev pub fits_long_long : ℤ → Bool
fits_long_long (pos n) = ltb n (2 ^ 63)
fits_long_long (negsuc n) = ltb n (2 ^ 63)

-- A key that is a str, and can be encoded.
abbrev pub key_of : PyObject → Option Text
key_of (py_str s) = s
key_of _ = none

abbrev pub as_text : Option Text → Option Json
as_text none = none
as_text (some s) = some (string s)

unfoldable mutual
  unfolding set_field

  pub py_object_to_json : PyObject → Option Json
  py_object_to_json py_none = some null
  py_object_to_json (py_bool b) = some (boolean b)
  py_object_to_json (py_int z) = if fits_long_long z then some (integer z) else none
  py_object_to_json (py_float x) = some (floating x)
  py_object_to_json (py_str s) = as_text s
  py_object_to_json (py_dict d) = py_entries_to_json d end >>= λ fs. some (object fs)
  py_object_to_json (py_list xs) = py_objects_to_json xs >>= λ vs. some (array vs)
  py_object_to_json (py_tuple xs) = py_objects_to_json xs >>= λ vs. some (array vs)
  py_object_to_json (py_time iso) = as_text iso
  py_object_to_json (py_other class_name) = none

  pub py_objects_to_json : PyObjects → Option Items
  py_objects_to_json no_objects = some nil
  py_objects_to_json (objects x xs) =
      py_object_to_json x >>= λ v. py_objects_to_json xs >>= λ vs. some (cons v vs)

  -- The loop over the items, with the object so far.
  pub py_entries_to_json : PyEntries → Fields → Option Fields
  py_entries_to_json no_entries out = some out
  py_entries_to_json (entry key value d) out =
      key_of key >>= λ k. py_object_to_json value >>= λ v. py_entries_to_json d (set_field out k v)
