-- ===== src/Profile.antt =====
-- runtime/__init__.py: the launch profile, parsed, checked and held as a record.
pub mod Reason
pub mod Checks
pub mod Validate
pub mod CheckLaws
pub mod Contract
pub mod Calibrated
pub mod Limited
pub mod Drafted
pub mod Accepts
pub mod StrictValues
pub mod Strict
pub mod Reload
pub mod Values
pub mod Tests
use qwen38_flash_next_nvidia.Prelude.{
  ℕ, String, Bool, true, false, Option, none, some, ℤ, pos, if◌then◌else◌, Result, ok, err, ◌>>=◌,
}
use qwen38_flash_next_nvidia.Json.{
  Value, null, bool, int, float, str, obj, Fields, end, Float, get, truthy, float_of_int,
}
use qwen38_flash_next_nvidia.Json.Loads.{Syntax, dumps}
use Reason.{Raised, overflow_error}
use Checks.{Check}
use Validate.{validate_payload, mem_fraction_default}

pub record Profile : Type 0 where
  pub schema : ℤ
  pub mode : String
  pub context_length : ℤ
  pub max_total_tokens : ℤ
  pub max_running_requests : ℤ
  pub chunked_prefill_size : ℤ
  pub max_mamba_cache_size : ℤ
  pub mem_fraction_static : Float
  pub kv_cache_dtype : String
  pub speculative_steps : ℤ
  pub vision_backend : String
  pub vision_cuda_graph : Bool
  pub ple_rss_gib : ℤ
  pub mm_processor_worker_num : ℤ
  pub raw : Fields
  pub kv_calibration_mode : Option String
  pub kv_scale_file : Option String
  pub kv_scale_sha256 : Option String
  pub draft_kv_cache_dtype : Option String
  pub moe_backend : String
  pub draft_quantization : String
  pub decode_graph_backend : String

-- `d.get(key, default)`, read at the type that the checks before it have established. Another
-- type, which they refuse, would read as the default.
unfoldable pub int_or : Fields → String → ℤ → ℤ
int_or d key default = elim (get d key) [
  | some v ↦ elim v [ int n ↦ n | _ ↦ default ]
  | none ↦ default
]

unfoldable pub str_or : Fields → String → String → String
str_or d key default = elim (get d key) [
  | some v ↦ elim v [ str s ↦ s | _ ↦ default ]
  | none ↦ default
]

unfoldable pub str? : Fields → String → Option String
str? d key = elim (get d key) [ some v ↦ elim v [ str s ↦ some s | _ ↦ none ] | none ↦ none ]

unfoldable pub bool_or : Fields → String → Bool → Bool
bool_or d key default = elim (get d key) [
  | some v ↦ elim v [ bool b ↦ b | _ ↦ default ]
  | none ↦ default
]

-- `d.get(key) or {}` and `d.get(key, {})`
unfoldable pub object_or_empty : Fields → String → Fields
object_or_empty d key = elim (get d key) [ some v ↦ elim v [ obj fs ↦ fs | _ ↦ end ] | none ↦ end ]

-- `float(d.get(key, default))`
unfoldable pub float_or : Fields → String → Float → Check Float
float_or d key default = elim (get d key) [
  | some v ↦ elim v [
    | float x ↦ ok x
    | int n ↦ elim (float_of_int n) [ some x ↦ ok x | none ↦ err overflow_error ]
    | _ ↦ ok default
  ]
  | none ↦ ok default
]

-- The call of `Profile` in `profile_from_dict`.
unfoldable pub profile_of : Fields → Check Profile
unfolding int_or str_or str? bool_or object_or_empty float_or
profile_of validated = do
  let speculative = object_or_empty validated "speculative"
  let vision = object_or_empty validated "vision"
  let calibration = object_or_empty validated "kv_calibration"
  fraction ← float_or validated "mem_fraction_static" mem_fraction_default
  ok (record {
    schema = int_or validated "schema" (pos 0);
    mode = str_or validated "mode" "";
    context_length = int_or validated "context_length" (pos 0);
    max_total_tokens = int_or validated "max_total_tokens" (pos 0);
    max_running_requests = int_or validated "max_running_requests" (pos 1);
    chunked_prefill_size = int_or validated "chunked_prefill_size" (pos 1024);
    max_mamba_cache_size = int_or validated "max_mamba_cache_size" (pos 8);
    mem_fraction_static = fraction;
    kv_cache_dtype = str_or validated "kv_cache_dtype" "bf16";
    speculative_steps = int_or speculative "steps" (pos 0);
    vision_backend = str_or vision "backend" "";
    vision_cuda_graph = bool_or vision "cuda_graph" false;
    ple_rss_gib = int_or validated "ple_rss_gib" (pos 8);
    mm_processor_worker_num = int_or validated "mm_processor_worker_num" (pos 1);
    raw = validated;
    kv_calibration_mode = str? calibration "mode";
    kv_scale_file = str? calibration "file";
    kv_scale_sha256 = str? calibration "sha256";
    draft_kv_cache_dtype = str? speculative "kv_cache_dtype";
    moe_backend = str_or validated "moe_backend" "flashinfer_cutlass";
    draft_quantization = str_or speculative "draft_quantization" "modelopt_mixed";
    decode_graph_backend = str_or validated "decode_graph_backend" "full";
  })

-- `profile_from_dict`: the dict goes through JSON text and all checks again.
unfoldable pub profile_from_dict : Fields → Check Profile
profile_from_dict raw = validate_payload (some (dumps (obj raw))) >>= profile_of

-- `profile_from_json`
unfoldable pub profile_from_json : Option Syntax → Check Profile
profile_from_json payload = validate_payload payload >>= profile_from_dict
