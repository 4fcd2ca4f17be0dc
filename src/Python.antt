-- ===== src/Python.antt =====
-- The dynamic values of Python that the program inspects: what `isinstance`, `type(x).__name__`,
-- attribute reads and mapping reads of its source see.
pub mod Text
pub mod Utf8
pub mod Sample
use hermes_claude_agent_sdk.Common.{
  ℕ, String, Bool, true, false, List, [], ◌∷◌, Option, ◌==◌, ◌&&◌, nat_eq, not, if◌then◌else◌,
}
use hermes_claude_agent_sdk.Common.Int.{ℤ, abs}

-- A finite float is `m / 2 ^ k`.
pub data Float : Type 0 where
  finite : ℤ → ℕ → Float
  infinite nan : Float

mutual
  -- `broken` is a mapping whose every read raises. An `object` has a class name and the
  -- attributes that can be read; one whose property raises is left out of the attributes.
  pub data Value : Type 0 where
    null : Value
    bool : Bool → Value
    int : ℤ → Value
    float : Float → Value
    str : String → Value
    list : Items → Value
    tuple : Items → Value
    set : Items → Value
    dict : Fields → Value
    broken : Value
    object : String → Fields → Value

  pub data Items : Type 0 where
    nil : Items
    cons : Value → Items → Items

  pub data Fields : Type 0 where
    end : Fields
    field : Value → Value → Fields → Fields

-- `type(x).__name__`
unfoldable pub class_name : Value → String
class_name null = "NoneType"
class_name (bool _) = "bool"
class_name (int _) = "int"
class_name (float _) = "float"
class_name (str _) = "str"
class_name (list _) = "list"
class_name (tuple _) = "tuple"
class_name (set _) = "set"
class_name (dict _) = "dict"
class_name broken = "Mapping"
class_name (object name _) = name

-- `isinstance(x, Mapping)`
unfoldable pub is_mapping : Value → Bool
is_mapping (dict _) = true
is_mapping broken = true
is_mapping _ = false

unfoldable pub is_str : Value → Bool
is_str (str _) = true
is_str _ = false

-- `isinstance(x, bool)`
unfoldable pub is_bool : Value → Bool
is_bool (bool _) = true
is_bool _ = false

unfoldable pub is_null : Value → Bool
is_null null = true
is_null _ = false

-- `x == "text"`, or `x is True` and `x is False`
unfoldable pub eq_str : Value → String → Bool
eq_str (str s) t = s == t
eq_str _ t = false

unfoldable pub is_true : Value → Bool
is_true (bool true) = true
is_true _ = false

unfoldable pub is_false : Value → Bool
is_false (bool false) = true
is_false _ = false

-- One read of a mapping.
pub data Read : Type 0 where
  absent raised : Read
  found : Value → Read

unfoldable pub lookup : Fields → String → Read
unfolding eq_str
lookup end key = absent
lookup (field k v fs) key = if eq_str k key then found v else lookup fs key

-- `key in source`, then `source[key]`
unfoldable pub read : Value → String → Read
unfolding lookup
read (dict fs) key = lookup fs key
read broken key = raised
read _ key = absent

-- `getattr(obj, name, default)`, with a property that raises counted as missing
unfoldable pub attr : Value → String → Value → Value
unfolding lookup
attr (object _ fs) name default = elim (lookup fs name) [ found v ↦ v | _ ↦ default ]
attr _ name default = default

unfoldable pub to_list : Items → List Value
to_list nil = []
to_list (cons x xs) = x ∷ to_list xs

unfoldable pub entries : Fields → List (Value × Value)
entries end = []
entries (field k v fs) = (k, v) ∷ entries fs

-- What the interpreter supplies from its Unicode tables and its number printer. `int_text` is
-- `none` where the digit limit makes `str` raise.
pub record Interpreter : Type 0 where
  pub lower : String → String
  pub upper : String → String
  pub casefold : String → String
  pub int_text : ℤ → Option String
  pub float_text : Float → String

-- `bool(x)`; an object is true.
unfoldable pub is_truthy : Value → Bool
is_truthy null = false
is_truthy (bool b) = b
is_truthy (int n) = not (nat_eq (abs n) 0)
is_truthy (float (finite m k)) = not (nat_eq (abs m) 0)
is_truthy (str s) = not (s == "")
is_truthy (list nil) = false
is_truthy (tuple nil) = false
is_truthy (set nil) = false
is_truthy (dict end) = false
is_truthy _ = true

-- `source.get(key)` on a plain dict, `None` on anything else
unfoldable pub dict_get : Value → String → Value
unfolding lookup
dict_get (dict fs) key = elim (lookup fs key) [ found v ↦ v | _ ↦ null ]
dict_get _ key = null

unfoldable mutual
  -- Whether a value has a hash; a membership test in a set raises otherwise.
  pub is_hashable : Value → Bool
  is_hashable (list xs) = false
  is_hashable (set xs) = false
  is_hashable (dict fs) = false
  is_hashable broken = false
  is_hashable (tuple xs) = are_hashable xs
  is_hashable _ = true

  pub are_hashable : Items → Bool
  are_hashable nil = true
  are_hashable (cons x xs) = is_hashable x && are_hashable xs
