-- ===== src/Json.antt =====
-- JSON documents as the program holds them after `json.loads`: dicts keep the order of insertion.
-- A float is exact: m / 2 ^ k, an infinity or a NaN, so that comparisons are those of Python.
mod Number
pub mod Loads
pub mod RoundTrip
pub mod Unique
pub mod Lookup
mod Tests
pub use Number.{Float, finite, infinity, nan, float_of_int-finite}
unfoldable pub use Number.{leb_float, is_finite, float_of_int}
use qwen38_flash_next_nvidia.Prelude.{
  ℕ, zero, String, Bool, true, false, not, ◌&&◌, ◌||◌, Option, none, some, List, [], ◌∷◌, ℤ, pos,
  negsuc, ◌=ₛ◌, ◌==◌, if◌then◌else◌, is_hex, all,
}

mutual
  pub data Value : Type 0 where
    null : Value
    bool : Bool → Value
    int : ℤ → Value
    float : Float → Value
    str : String → Value
    arr : Items → Value
    obj : Fields → Value

  pub data Fields : Type 0 where
    end : Fields
    field : String → Value → Fields → Fields

  pub data Items : Type 0 where
    nil : Items
    cons : Value → Items → Items

-- `d.get(key)`, with `none` for a key that is not there.
unfoldable pub get : Fields → String → Option Value
get end key = none
get (field k v fs) key = if k =ₛ key then some v else get fs key

-- `key in d`
unfoldable pub has : Fields → String → Bool
unfolding get
has fs key = elim (get fs key) [ none ↦ false | some v ↦ true ]

unfoldable pub keys : Fields → List String
keys end = []
keys (field k v fs) = k ∷ keys fs

-- `name in names`
unfoldable pub member : String → List String → Bool
member name [] = false
member name (n ∷ names) = if n =ₛ name then true else member name names

-- `set(d) <= set(names)`
unfoldable pub keys_within : Fields → List String → Bool
unfolding member
keys_within end names = true
keys_within (field k v fs) names = member k names && keys_within fs names

-- `set(names) <= set(d)`
unfoldable pub has_all : Fields → List String → Bool
unfolding has
has_all fs [] = true
has_all fs (n ∷ names) = has fs n && has_all fs names

-- `set(d) == set(names)`
unfoldable pub keys_are : Fields → List String → Bool
unfolding keys_within has_all
keys_are fs names = keys_within fs names && has_all fs names

-- `d[key] = value`
unfoldable pub put : Fields → String → Value → Fields
put end key v = field key v end
put (field k w fs) key v = if k =ₛ key then field k v fs else field k w (put fs key v)

-- `bool(value)`
unfoldable pub truthy : Value → Bool
truthy null = false
truthy (bool b) = b
truthy (int n) = elim n [ pos k ↦ not (k == 0) | negsuc k ↦ true ]
truthy (float x) = elim x [
  | finite m k ↦ elim m [ pos j ↦ not (j == 0) | negsuc j ↦ true ]
  | infinity negative ↦ true
  | nan ↦ true
]
truthy (str s) = not (s =ₛ "")
truthy (arr nil) = false
truthy (arr (cons v vs)) = true
truthy (obj end) = false
truthy (obj (field k v fs)) = true

-- `value == name`, for a value and a text
unfoldable pub text_is : Option Value → String → Bool
text_is (some (str s)) name = s =ₛ name
text_is _ name = false

-- `isinstance(value, str) and re.fullmatch(r"[0-9a-f]{n}", value)`
unfoldable pub hex_at : ℕ → Option Value → Bool
hex_at n (some (str s)) = is_hex n s
hex_at n _ = false
