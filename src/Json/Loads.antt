-- ===== src/Json/Loads.antt =====
-- `json.loads` and `json.dumps` with the hooks that the program gives to the parser. The parser of
-- the text itself is Python's: what it delivers to the hooks is a `Syntax`, in which an object
-- still is a list of pairs and `NaN` or `Infinity` still is a token.
use qwen38_flash_next_nvidia.Prelude.{
  String, Bool, true, false, ℤ, if◌then◌else◌, Result, ok, err, ◌>>=◌,
}
use qwen38_flash_next_nvidia.Json.{
  Value, null, bool, int, float, str, arr, obj, Items, nil, cons, Fields, end, field, Float, finite,
  infinity, nan, has, put,
}

mutual
  pub data Syntax : Type 0 where
    null_token : Syntax
    bool_token : Bool → Syntax
    int_token : ℤ → Syntax
    float_token : Float → Syntax
    constant_token : String → Syntax
    str_token : String → Syntax
    array : Elements → Syntax
    object : Members → Syntax

  pub data Elements : Type 0 where
    no_elements : Elements
    element : Syntax → Elements → Elements

  pub data Members : Type 0 where
    no_members : Members
    pair : String → Syntax → Members → Members

-- The hooks: the exceptions that `object_pairs_hook` and `parse_constant` raise.
pub record Hooks (E : Type 0) : Type 0 where
  pub duplicate : String → E
  pub nonfinite : String → E

module _ {E : Type 0} (h : Hooks E) where
  -- `object_pairs_hook`: the loop over the pairs, with the dict built so far.
  unfoldable pub object_pairs : Fields → Fields → Result E Fields
  unfolding put
  object_pairs seen end = ok seen
  object_pairs seen (field key value pairs) =
      if has seen key then err (h.duplicate key) else object_pairs (put seen key value) pairs

  unfoldable mutual
    unfolding object_pairs

    pub build : Syntax → Result E Value
    build null_token = ok null
    build (bool_token b) = ok (bool b)
    build (int_token n) = ok (int n)
    build (float_token x) = ok (float x)
    build (constant_token t) = err (h.nonfinite t)
    build (str_token s) = ok (str s)
    build (array es) = build_elements es >>= λ vs. ok (arr vs)
    build (object ms) = build_members ms >>= λ pairs. object_pairs end pairs >>= λ fs. ok (obj fs)

    pub build_elements : Elements → Result E Items
    build_elements no_elements = ok nil
    build_elements (element e es) = build e >>= λ v. build_elements es >>= λ vs. ok (cons v vs)

    pub build_members : Members → Result E Fields
    build_members no_members = ok end
    build_members (pair k s ms) = build s >>= λ v. build_members ms >>= λ fs. ok (field k v fs)

-- `json.dumps(value)`, as the tree that reading the text gives back.
dump_float : Float → Syntax
dump_float (finite m k) = float_token (finite m k)
dump_float (infinity true) = constant_token "-Infinity"
dump_float (infinity false) = constant_token "Infinity"
dump_float nan = constant_token "NaN"

unfoldable mutual
  unfolding dump_float

  pub dumps : Value → Syntax
  dumps null = null_token
  dumps (bool b) = bool_token b
  dumps (int n) = int_token n
  dumps (float x) = dump_float x
  dumps (str s) = str_token s
  dumps (arr vs) = array (dumps_items vs)
  dumps (obj fs) = object (dumps_fields fs)

  pub dumps_items : Items → Elements
  dumps_items nil = no_elements
  dumps_items (cons v vs) = element (dumps v) (dumps_items vs)

  pub dumps_fields : Fields → Members
  dumps_fields end = no_members
  dumps_fields (field k v fs) = pair k (dumps v) (dumps_fields fs)
