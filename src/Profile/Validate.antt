-- ===== src/Profile/Validate.antt =====
-- `validate_payload` of runtime/__init__.py, in the order of its checks.
use qwen38_flash_next_nvidia.Prelude.{
  String, Bool, false, not, ◌&&◌, Option, none, some, List, [], ◌∷◌, ℤ, pos, eqb_ℤ, ◌=ₛ◌,
  if◌then◌else◌, ok, ◌>>=◌, ◌>>◌, require, refuse,
}
use qwen38_flash_next_nvidia.Json.{
  Value, null, bool, str, obj, Fields, Float, finite, get, has, keys_are, keys_within, has_all,
}
use qwen38_flash_next_nvidia.Json.Loads.{Syntax, Hooks, build}
use qwen38_flash_next_nvidia.Profile.Reason.{Reason, Raised, profile_error}
use qwen38_flash_next_nvidia.Profile.Checks.{
  Check, fail, IntRule, require_int, optional_int, optional_float, require_enum, optional_enum,
  one_of, validate_kv_calibration,
}

abbrev pub modes : List String
modes = "ar" ∷ "nextn" ∷ []

abbrev pub context_length_allowed : List ℤ
context_length_allowed = pos 32768 ∷ pos 262144 ∷ []

abbrev pub max_running_requests_rule : IntRule
max_running_requests_rule = record {
  allowed = pos 1 ∷ pos 2 ∷ pos 4 ∷ pos 8 ∷ [];
  minimum = none;
  maximum = none;
  default = some (pos 1);
}

abbrev pub chunked_prefill_rule : IntRule
chunked_prefill_rule = record {
  allowed = pos 1024 ∷ pos 2048 ∷ pos 4096 ∷ [];
  minimum = none;
  maximum = none;
  default = some (pos 1024);
}

abbrev pub mamba_cache_rule : IntRule
mamba_cache_rule = record {
  allowed = [];
  minimum = some (pos 4);
  maximum = some (pos 64);
  default = some (pos 8);
}

-- 0.70, 0.88 and 0.80 as the floats that Python reads them as.
abbrev pub mem_fraction_min : Float
mem_fraction_min = finite (pos 3152519739159347) 52

abbrev pub mem_fraction_max : Float
mem_fraction_max = finite (pos 7926335344172073) 53

abbrev pub mem_fraction_default : Float
mem_fraction_default = finite (pos 3602879701896397) 52

abbrev pub kv_cache_dtypes : List String
kv_cache_dtypes = "bf16" ∷ "fp8_e4m3" ∷ "nvfp4" ∷ []

abbrev pub moe_backends : List String
moe_backends = "flashinfer_cutlass" ∷ "marlin" ∷ []

abbrev pub steps_rule : IntRule
steps_rule = record { allowed = []; minimum = some (pos 1); maximum = some (pos 3); default = none }

abbrev pub draft_dtypes : List String
draft_dtypes = "bf16" ∷ "nvfp4" ∷ []

abbrev pub draft_quantizations : List String
draft_quantizations = "modelopt_mixed" ∷ "unquant" ∷ []

abbrev pub vision_backends : List String
vision_backends = "triton_attn" ∷ "flashinfer_cudnn" ∷ "fa4" ∷ []

abbrev pub ple_rss_rule : IntRule
ple_rss_rule = record {
  allowed = pos 4 ∷ pos 8 ∷ pos 12 ∷ [];
  minimum = none;
  maximum = none;
  default = some (pos 8);
}

abbrev pub mm_worker_rule : IntRule
mm_worker_rule = record {
  allowed = pos 1 ∷ pos 2 ∷ [];
  minimum = none;
  maximum = none;
  default = some (pos 1);
}

abbrev pub graph_backends : List String
graph_backends = "full" ∷ "disabled" ∷ []

abbrev pub known : List String
known =
    "schema" ∷ "mode" ∷ "context_length" ∷ "max_total_tokens" ∷ "max_running_requests"
    ∷ "chunked_prefill_size" ∷ "max_mamba_cache_size" ∷ "mem_fraction_static" ∷ "kv_cache_dtype"
    ∷ "speculative" ∷ "vision" ∷ "ple_rss_gib" ∷ "mm_processor_worker_num" ∷ "kv_calibration"
    ∷ "moe_backend" ∷ "decode_graph_backend" ∷ []

-- schema, mode, context_length and max_total_tokens; the mode is used again.
unfoldable pub check_identity : Fields → Check String
check_identity raw = do
  schema ← require_int raw "schema"
  require (eqb_ℤ schema (pos 1)) (profile_error Reason.unsupported_schema)
  mode ← require_enum raw "mode" modes
  context ← require_int raw "context_length"
  require (one_of context context_length_allowed) (profile_error Reason.bad_context_length)
  total ← require_int raw "max_total_tokens"
  require (eqb_ℤ total context) (profile_error Reason.total_tokens_differ)
  ok mode

-- The sizes, the KV dtype with its calibration, and the MoE backend; the dtype is used again.
unfoldable pub check_limits : Fields → Check String
check_limits raw = do
  _ ← optional_int raw "max_running_requests" max_running_requests_rule
  _ ← optional_int raw "chunked_prefill_size" chunked_prefill_rule
  _ ← optional_int raw "max_mamba_cache_size" mamba_cache_rule
  _ ←
      optional_float raw "mem_fraction_static" mem_fraction_min mem_fraction_max
        mem_fraction_default
  dtype ← optional_enum raw "kv_cache_dtype" kv_cache_dtypes "bf16"
  validate_kv_calibration raw dtype
  _ ← optional_enum raw "moe_backend" moe_backends "flashinfer_cutlass"
  ok dtype

unfoldable pub is_text : Option Value → String → Bool
is_text (some (str s)) t = s =ₛ t
is_text _ t = false

unfoldable pub check_draft_dtype : Fields → String → Check (Unit {0})
unfolding is_text
check_draft_dtype spec dtype =
    if has spec "kv_cache_dtype"
    then (do
      _ ← optional_enum spec "kv_cache_dtype" draft_dtypes "bf16"
      refuse (is_text (get spec "kv_cache_dtype") "nvfp4" && not (dtype =ₛ "nvfp4"))
          (profile_error Reason.draft_kv_mismatch))
    else ok tt

unfoldable pub check_draft_quantization : Fields → Check (Unit {0})
check_draft_quantization spec =
    if has spec "draft_quantization"
    then (do
      _ ← optional_enum spec "draft_quantization" draft_quantizations "modelopt_mixed"
      ok tt)
    else ok tt

unfoldable pub check_draft : Fields → String → Check (Unit {0})
unfolding check_draft_dtype check_draft_quantization
check_draft spec dtype = do
  require
      (has_all spec ("steps" ∷ [])
        && keys_within spec ("steps" ∷ "kv_cache_dtype" ∷ "draft_quantization" ∷ []))
      (profile_error Reason.speculative_fields)
  check_draft_dtype spec dtype
  check_draft_quantization spec
  _ ← optional_int spec "steps" steps_rule
  ok tt

unfoldable pub nextn_speculative : Option Value → String → Check (Unit {0})
nextn_speculative (some (obj spec)) dtype = check_draft spec dtype
nextn_speculative _ dtype = fail Reason.speculative_required

-- `speculative is not None`: JSON's null is Python's `None`.
unfoldable pub other_speculative : Option Value → Check (Unit {0})
other_speculative none = ok tt
other_speculative (some null) = ok tt
other_speculative (some v) = fail Reason.speculative_forbidden

unfoldable pub check_speculative : Fields → String → String → Check (Unit {0})
unfolding nextn_speculative other_speculative
check_speculative raw mode dtype =
    if mode =ₛ "nextn"
    then nextn_speculative (get raw "speculative") dtype
    else other_speculative (get raw "speculative")

unfoldable pub boolean : Option Value → Check (Unit {0})
boolean (some (bool b)) = ok tt
boolean _ = fail Reason.vision_graph_not_bool

unfoldable pub vision_object : Option Value → Check (Unit {0})
unfolding boolean
vision_object (some (obj vision)) = do
  require (keys_are vision ("backend" ∷ "cuda_graph" ∷ [])) (profile_error Reason.vision_fields)
  _ ← require_enum vision "backend" vision_backends
  boolean (get vision "cuda_graph")
vision_object _ = fail Reason.vision_missing

unfoldable pub check_tail : Fields → Check (Unit {0})
check_tail raw = do
  _ ← optional_int raw "ple_rss_gib" ple_rss_rule
  _ ← optional_int raw "mm_processor_worker_num" mm_worker_rule
  require (keys_within raw known) (profile_error Reason.unknown_fields)
  _ ← optional_enum raw "decode_graph_backend" graph_backends "full"
  ok tt

-- `_object_pairs` and `_reject_constant`
abbrev pub profile_hooks : Hooks Raised
profile_hooks = record {
  duplicate = λ k. profile_error (Reason.duplicate_field k);
  nonfinite = λ t. profile_error (Reason.nonfinite_number t);
}

-- The checks behind the parser.
unfoldable pub validate_fields : Fields → Check (Unit {0})
validate_fields raw = do
  mode ← check_identity raw
  dtype ← check_limits raw
  check_speculative raw mode dtype
  vision_object (get raw "vision")
  check_tail raw

unfoldable pub validate_value : Value → Check Fields
validate_value (obj raw) = do validate_fields raw; ok raw
validate_value _ = fail Reason.not_an_object

-- `validate_payload`; `none` is a text that is not JSON.
unfoldable pub validate_payload : Option Syntax → Check Fields
validate_payload none = fail Reason.not_json
validate_payload (some s) = build profile_hooks s >>= validate_value
