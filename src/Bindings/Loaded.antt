-- ===== src/Bindings/Loaded.antt =====
-- cpp/src/bindings.cpp, PyObjectToJson: JSON values as Python's json module loads them.
use loglite.Prelude.{Text, [], ap, arith, false, refl, some, sym, text_eq, text_ltb, true, ◌∷◌, ◌≡◌}
use loglite.Json.{
  Fields, Items, Json, array, boolean, cons, end, field, floating, integer, nil, null, object,
  set_field, string,
}
use loglite.Bindings.{
  PyEntries, PyObject, PyObjects, entry, fits_long_long, no_entries, no_objects, objects, py_bool,
  py_dict, py_entries_to_json, py_float, py_int, py_list, py_none, py_object_to_json,
  py_objects_to_json, py_str,
}

-- What Python makes of a JSON value.
unfoldable mutual
  pub load : Json → PyObject
  load null = py_none
  load (boolean b) = py_bool b
  load (integer z) = py_int z
  load (floating x) = py_float x
  load (string s) = py_str (some s)
  load (array vs) = py_list (load_items vs)
  load (object fs) = py_dict (load_fields fs)

  pub load_items : Items → PyObjects
  load_items nil = no_objects
  load_items (cons v vs) = objects (load v) (load_items vs)

  pub load_fields : Fields → PyEntries
  load_fields end = no_entries
  load_fields (field k v fs) = entry (py_str (some k)) (load v) (load_fields fs)

-- The key is below all keys of the object.
abbrev pub IsBelow : Text → Fields → Type 0
IsBelow k end = Unit
IsBelow k (field j v fs) = (text_ltb k j ≡ true) × IsBelow k fs

-- Integers of 64 bits, and objects whose members are in the order of their keys, as nlohmann::json
-- keeps them.
abbrev mutual
  pub IsCanonical : Json → Type 0
  IsCanonical null = Unit
  IsCanonical (boolean b) = Unit
  IsCanonical (integer z) = fits_long_long z ≡ true
  IsCanonical (floating x) = Unit
  IsCanonical (string s) = Unit
  IsCanonical (array vs) = AreCanonical vs
  IsCanonical (object fs) = AreOrdered fs

  pub AreCanonical : Items → Type 0
  AreCanonical nil = Unit
  AreCanonical (cons v vs) = IsCanonical v × AreCanonical vs

  pub AreOrdered : Fields → Type 0
  AreOrdered end = Unit
  AreOrdered (field k v fs) = IsBelow k fs × IsCanonical v × AreOrdered fs

text_ltb_asym : (s t : Text) → text_ltb s t ≡ true → (text_eq s t ≡ false) × (text_ltb t s ≡ false)
text_ltb_asym [] [] h = cc
text_ltb_asym [] (d ∷ t) h = (refl, refl)
text_ltb_asym (c ∷ s) [] h = cc
text_ltb_asym (c ∷ s) (d ∷ t) h = ground (arith, text_ltb_asym s t)

-- The object with a member behind all others, and two objects one behind the other.
abbrev snoc : Fields → Text → Json → Fields
snoc end k v = field k v end
snoc (field j w fs) k v = field j w (snoc fs k v)

abbrev append : Fields → Fields → Fields
append end gs = gs
append (field j w fs) gs = field j w (append fs gs)

-- All keys of the object are below this one.
abbrev Precedes : Fields → Text → Type 0
Precedes end k = Unit
Precedes (field j w fs) k = (text_ltb j k ≡ true) × Precedes fs k

abbrev AllAfter : Fields → Fields → Type 0
AllAfter acc end = Unit
AllAfter acc (field k v fs) = Precedes acc k × AllAfter acc fs

set_field_last :
    (acc : Fields) (k : Text) (v : Json) → Precedes acc k → set_field acc k v ≡ snoc acc k v
unfolding set_field
set_field_last end k v h = refl
set_field_last (field j w acc) k v h =
    let (other, above) = text_ltb_asym j k h.0 in
    rw (set_field, other, above) (ap (field j w) (set_field_last acc k v h.1))

Precedes-snoc :
    (acc : Fields) (k j : Text) (v : Json)
    → Precedes acc k
    → text_ltb j k ≡ true
    → Precedes (snoc acc j v) k
Precedes-snoc end k j v h b = (b, tt)
Precedes-snoc (field i w acc) k j v h b = (h.0, Precedes-snoc acc k j v h.1 b)

AllAfter-snoc :
    (acc fs : Fields) (k : Text) (v : Json)
    → AllAfter acc fs
    → IsBelow k fs
    → AllAfter (snoc acc k v) fs
AllAfter-snoc acc end k v h b = tt
AllAfter-snoc acc (field j w fs) k v h b =
    (Precedes-snoc acc j k v h.0 b.0, AllAfter-snoc acc fs k v h.1 b.1)

append-snoc :
    (acc fs : Fields) (k : Text) (v : Json) → append (snoc acc k v) fs ≡ append acc (field k v fs)
append-snoc end fs k v = refl
append-snoc (field j w acc) fs k v = ap (field j w) (append-snoc acc fs k v)

append-end : (acc : Fields) → append acc end ≡ acc
append-end end = refl
append-end (field j w acc) = ap (field j w) (append-end acc)

AllAfter-end : (fs : Fields) → AllAfter end fs
AllAfter-end end = tt
AllAfter-end (field k v fs) = (tt, AllAfter-end fs)

mutual
  unfolding py_object_to_json load

  value_back : (v : Json) → IsCanonical v → py_object_to_json (load v) ≡ some v
  value_back null h = refl
  value_back (boolean b) h = refl
  value_back (integer z) h = rw h refl
  value_back (floating x) h = refl
  value_back (string s) h = refl
  value_back (array vs) h = rw (items_back vs h) refl
  value_back (object fs) h = rw (fields_back fs end h (AllAfter-end fs)) refl

  items_back : (vs : Items) → AreCanonical vs → py_objects_to_json (load_items vs) ≡ some vs
  items_back nil h = refl
  items_back (cons v vs) h = rw (value_back v h.0, items_back vs h.1) refl

  fields_back :
      (fs acc : Fields)
      → AreOrdered fs
      → AllAfter acc fs
      → py_entries_to_json (load_fields fs) acc ≡ some (append acc fs)
  fields_back end acc h a = ap some (sym (append-end acc))
  fields_back (field k v fs) acc (b, c, o) a =
      rw (value_back v c, set_field_last acc k v a.0, ← append-snoc acc fs k v)
        (fields_back fs (snoc acc k v) o (AllAfter-snoc acc fs k v a.1 b))

-- What Python's json module makes of a value is turned back into that value, when its integers are of
-- 64 bits and each of its objects has its members in the strict order of their keys.
pub py_object_to_json-load : (v : Json) → IsCanonical v → py_object_to_json (load v) ≡ some v
py_object_to_json-load v h = value_back v h
