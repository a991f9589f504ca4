-- ===== src/Entrypoint/Prepared.antt =====
-- Reading the plan, the call of the preparation core, and the checks of its receipt, in
-- runtime/entrypoint.py. The core is a parameter, a package that the image installs.
use qwen38_flash_next_nvidia.Prelude.{
  ℕ, String, Bool, true, false, not, ◌&&◌, ◌||◌, Option, none, some, [], ◌∷◌, ℤ, pos, ltb_ℤ, eqb_ℤ,
  ltb, ◌=ₛ◌, ◌+ₛ◌, ok, err, ◌>>=◌, ◌>>◌, require, refuse, if◌then◌else◌,
}
use qwen38_flash_next_nvidia.Json.{
  Value, int, float, str, Fields, finite, get, keys_are, text_is, hex_at, leb_float, is_finite,
  float_of_int,
}
use qwen38_flash_next_nvidia.Json.Loads.{
  Syntax, Elements, Members, Hooks, build, float_token, array, object, element, pair, no_elements,
  no_members,
}
use qwen38_flash_next_nvidia.Entrypoint.{Refusal, plan_refusal, as_object, checked_sources, text_of}
use qwen38_flash_next_nvidia.Entrypoint.Command.{ple_dir}
use qwen38_flash_next_nvidia.Entrypoint.Plan.{Plan, bind_ple_plan, int_at_least}

-- `_finite_plan_float` on every number of the text that is written as a float
unfoldable mutual
  pub floats_finite : Syntax → Bool
  floats_finite (float_token x) = is_finite x
  floats_finite (array es) = elements_finite es
  floats_finite (object ms) = members_finite ms
  floats_finite s = true

  pub elements_finite : Elements → Bool
  elements_finite no_elements = true
  elements_finite (element s es) = floats_finite s && elements_finite es

  pub members_finite : Members → Bool
  members_finite no_members = true
  members_finite (pair k s ms) = floats_finite s && members_finite ms

-- `_plan_pairs` and `_reject_constant`
abbrev pub plan_hooks : Hooks Refusal
plan_hooks = record { duplicate = λ k. plan_refusal; nonfinite = λ t. plan_refusal }

-- A file: its length and what the JSON parser makes of it, `none` if it is no JSON text.
abbrev pub File : Type 0
File = Option (ℕ × Option Syntax)

-- `json.loads` of the plan; every exception of it is a PLEPreparationError
unfoldable pub load_plan : Option Syntax → Plan Value
unfolding floats_finite
load_plan none = err plan_refusal
load_plan (some text) = require (floats_finite text) plan_refusal >> build plan_hooks text

-- `read_ple_plan`, with `none` for a file that cannot be read
unfoldable pub read_ple_plan : File → Plan Fields
unfolding load_plan
read_ple_plan none = err plan_refusal
read_ple_plan (some (size, text)) = do
  refuse (ltb 1048576 size) plan_refusal
  plan ← load_plan text
  as_object plan_refusal (some plan)

-- A number that `math.isfinite` accepts and that is not below 0
abbrev pub is_elapsed : Option Value → Bool
is_elapsed (some (int n)) = elim (float_of_int n) [ some x ↦ not (ltb_ℤ n (pos 0)) | none ↦ false ]
is_elapsed (some (float x)) = is_finite x && leb_float (finite (pos 0) 0) x
is_elapsed _ = false

unfoldable pub one_of_texts : Option Value → String → String → Bool
one_of_texts (some (str s)) a b = (s =ₛ a) || (s =ₛ b)
one_of_texts _ a b = false

-- `0 if result["mode"] == "reuse" else expected_copied_bytes`
abbrev pub required_bytes : Fields → ℤ → ℤ
required_bytes result expected = if text_is (get result "mode") "reuse" then pos 0 else expected

-- `validate_prepared_result` of a dict
unfoldable pub validate_prepared_result : Value → String → ℤ → Plan Fields
unfolding one_of_texts
validate_prepared_result value expected_dir expected_bytes = do
  result ← as_object plan_refusal (some value)
  require
      (keys_are result
        ("receipt_path" ∷ "receipt_sha256" ∷ "mode" ∷ "copied_bytes" ∷ "elapsed_seconds" ∷ []))
      plan_refusal
  require (text_is (get result "receipt_path") (expected_dir +ₛ "/prepared.json")) plan_refusal
  require (hex_at 64 (get result "receipt_sha256")) plan_refusal
  require (one_of_texts (get result "mode") "reuse" "materialized") plan_refusal
  copied ← int_at_least (pos 0) (get result "copied_bytes")
  require (eqb_ℤ copied (required_bytes result expected_bytes)) plan_refusal
  require (is_elapsed (get result "elapsed_seconds")) plan_refusal
  ok result

-- The installed core: whether it can be imported; whether `validate_plan` returns a dict equal to
-- the plan, `none` for an exception; and what `prepare_cache` returns for a directory and the plan.
pub record Core : Type 0 where
  pub importable : Bool
  pub validate_plan : Fields → Option Bool
  pub prepare_cache : String → Fields → Option Value

abbrev pub returned_value : {A : Type 0} → Option A → Plan A
returned_value (some a) = ok a
returned_value none = err plan_refusal

-- `prepare_ple_cache`
unfoldable pub prepare_ple_cache : Core → File → Value → Plan Fields
unfolding read_ple_plan bind_ple_plan validate_prepared_result text_of
prepare_ple_cache core file sources = do
  plan ← read_ple_plan file
  bound ← bind_ple_plan plan sources
  model ← checked_sources sources
  let directory = ple_dir (text_of (get model "sha"))
  require core.importable plan_refusal
  unchanged ← returned_value (core.validate_plan plan)
  require unchanged plan_refusal
  result ← returned_value (core.prepare_cache directory plan)
  validate_prepared_result result directory bound.table_bytes
