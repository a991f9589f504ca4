-- ===== src/Profile/Checks.antt =====
-- The field checks of runtime/__init__.py: `_require_int`, `_optional_int`, `_optional_float`,
-- `_require_enum`, `_optional_enum` and `_validate_kv_calibration`.
use qwen38_flash_next_nvidia.Prelude.{
  String, Bool, true, false, not, ◌&&◌, ◌||◌, Option, none, some, List, [], ◌∷◌, ℤ, ltb_ℤ, eqb_ℤ,
  ◌=ₛ◌, if◌then◌else◌, Result, ok, err, ◌>>=◌, ◌>>◌, require, refuse, is_hex, is_basename,
}
use qwen38_flash_next_nvidia.Json.{
  Value, int, float, str, obj, Fields, Float, get, has, keys_are, member, leb_float, is_finite,
  float_of_int,
}
use qwen38_flash_next_nvidia.Profile.Reason.{Reason, Raised, profile_error, overflow_error}

abbrev pub Check : Type 0 → Type 0
Check A = Result Raised A

-- `_fail`
abbrev pub fail : {A : Type 0} → Reason → Check A
fail r = err (profile_error r)

unfoldable pub int_value : String → Value → Check ℤ
int_value key (int n) = ok n
int_value key _ = fail (Reason.not_an_integer key)

-- `_require_int`
unfoldable pub require_int : Fields → String → Check ℤ
unfolding int_value
require_int raw key = elim (get raw key) [
  | none ↦ fail (Reason.missing_integer key)
  | some v ↦ int_value key v
]

-- `value in allowed`
unfoldable pub one_of : ℤ → List ℤ → Bool
one_of n [] = false
one_of n (a ∷ allowed) = if eqb_ℤ n a then true else one_of n allowed

-- `if allowed and value not in allowed`
unfoldable pub outside : List ℤ → ℤ → Bool
unfolding one_of
outside [] n = false
outside (a ∷ allowed) n = not (one_of n (a ∷ allowed))

unfoldable pub below : Option ℤ → ℤ → Bool
below none n = false
below (some minimum) n = ltb_ℤ n minimum

unfoldable pub above : Option ℤ → ℤ → Bool
above none n = false
above (some maximum) n = ltb_ℤ maximum n

-- The keyword arguments of `_optional_int`.
pub record IntRule : Type 0 where
  pub allowed : List ℤ
  pub minimum : Option ℤ
  pub maximum : Option ℤ
  pub default : Option ℤ

unfoldable pub in_rule : IntRule → String → ℤ → Check ℤ
unfolding outside below above
in_rule rule key n = do
  refuse (outside rule.allowed n) (profile_error (Reason.not_allowed key))
  refuse (below rule.minimum n) (profile_error (Reason.below_minimum key))
  refuse (above rule.maximum n) (profile_error (Reason.above_maximum key))
  ok n

default_int : Option ℤ → String → Check ℤ
default_int none key = fail (Reason.missing_integer key)
default_int (some n) key = ok n

-- `_optional_int`
unfoldable pub optional_int : Fields → String → IntRule → Check ℤ
unfolding int_value in_rule default_int
optional_int raw key rule = elim (get raw key) [
  | none ↦ default_int rule.default key
  | some v ↦ int_value key v >>= in_rule rule key
]

-- `float(value)`
unfoldable pub to_float : ℤ → Check Float
to_float n = elim (float_of_int n) [ none ↦ err overflow_error | some x ↦ ok x ]

unfoldable pub number_value : String → Value → Check Float
unfolding to_float
number_value key (int n) = to_float n
number_value key (float x) = ok x
number_value key _ = fail (Reason.not_a_number key)

unfoldable pub in_range : Float → Float → String → Float → Check Float
in_range minimum maximum key x = do
  require (is_finite x) (profile_error (Reason.not_finite key))
  require (leb_float minimum x && leb_float x maximum) (profile_error (Reason.out_of_range key))
  ok x

-- `_optional_float`
unfoldable pub optional_float : Fields → String → Float → Float → Float → Check Float
unfolding number_value in_range
optional_float raw key minimum maximum default = elim (get raw key) [
  | none ↦ ok default
  | some v ↦ number_value key v >>= in_range minimum maximum key
]

enum_value : List String → String → Value → Check String
enum_value allowed key (str s) = if member s allowed then ok s else fail (Reason.not_in_enum key)
enum_value allowed key _ = fail (Reason.not_in_enum key)

-- `_require_enum`
unfoldable pub require_enum : Fields → String → List String → Check String
unfolding enum_value
require_enum raw key allowed = elim (get raw key) [
  | none ↦ fail (Reason.missing_field key)
  | some v ↦ enum_value allowed key v
]

-- `_optional_enum`
unfoldable pub optional_enum : Fields → String → List String → String → Check String
unfolding require_enum
optional_enum raw key allowed default =
    if has raw key then require_enum raw key allowed else ok default

unfoldable pub basename_value : Option Value → Check (Unit {0})
basename_value (some (str name)) =
    require (not (name =ₛ "." || name =ₛ "..") && is_basename name)
      (profile_error Reason.unsafe_basename)
basename_value _ = fail Reason.unsafe_basename

unfoldable pub sha256_value : Option Value → Check (Unit {0})
sha256_value (some (str digest)) = require (is_hex 64 digest) (profile_error Reason.bad_sha256)
sha256_value _ = fail Reason.bad_sha256

unfoldable pub collect_calibration : Fields → String → Check (Unit {0})
collect_calibration value dtype =
    refuse (not (keys_are value ("mode" ∷ [])) || not (dtype =ₛ "bf16"))
      (profile_error Reason.collect_mismatch)

unfoldable pub frozen_calibration : Fields → String → Check (Unit {0})
unfolding basename_value sha256_value
frozen_calibration value dtype = do
  refuse (not (keys_are value ("mode" ∷ "file" ∷ "sha256" ∷ [])) || not (dtype =ₛ "nvfp4"))
      (profile_error Reason.frozen_mismatch)
  basename_value (get value "file")
  sha256_value (get value "sha256")

unfoldable pub calibration_object : Value → String → Check (Unit {0})
unfolding collect_calibration frozen_calibration
calibration_object (obj value) dtype = do
  mode ← require_enum value "mode" ("collect" ∷ "frozen" ∷ [])
  if mode =ₛ "collect" then collect_calibration value dtype else frozen_calibration value dtype
calibration_object _ dtype = fail Reason.calibration_not_object

-- `_validate_kv_calibration`
unfoldable pub validate_kv_calibration : Fields → String → Check (Unit {0})
unfolding calibration_object
validate_kv_calibration raw dtype = elim (get raw "kv_calibration") [
  | none ↦ refuse (dtype =ₛ "nvfp4") (profile_error Reason.calibration_required)
  | some value ↦ calibration_object value dtype
]
