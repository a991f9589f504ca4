-- ===== src/Entrypoint.antt =====
-- runtime/entrypoint.py: from a profile and the lock of the sources to the server's command.
pub mod Command
pub mod Plan
pub mod Prepared
pub mod Main
pub mod Launchable
pub mod Flags
pub mod Handoff
pub mod Exec
pub mod Tests
use qwen38_flash_next_nvidia.Prelude.{
  ℕ, String, Bool, true, false, ◌&&◌, Option, none, some, List, [], ◌∷◌, ℤ, eqb_ℤ, ◌=ₛ◌, Result, ok,
  err, ◌>>=◌, ◌>>◌, require, refuse,
}
use qwen38_flash_next_nvidia.Json.{
  Value, str, obj, Fields, Float, get, has, leb_float, text_is, hex_at,
}
use qwen38_flash_next_nvidia.Profile.{Profile, profile_from_dict}
use qwen38_flash_next_nvidia.Profile.Reason.{Raised}

-- What the entrypoint raises: ProfileError, PLEPreparationError, OSError, or what the checks of the
-- profile raise.
pub data Refusal : Type 0 where
  profile_refusal plan_refusal os_refusal : Refusal
  of_profile : Raised → Refusal

abbrev pub model_id : String
model_id = "nvidia/Qwen3.8-Flash-Next-NVFP4"

-- `isinstance(value, dict)`
abbrev pub as_object : {E : Type 0} → E → Option Value → Result E Fields
as_object e (some (obj fs)) = ok fs
as_object e _ = err e

-- The text of a field that has been checked to be one.
unfoldable pub text_of : Option Value → String
text_of (some (str s)) = s
text_of _ = ""

-- `_checked_sources`, with `_full_sha`
unfoldable pub checked_sources : Value → Result Refusal Fields
checked_sources sources = do
  top ← as_object profile_refusal (some sources)
  model ← as_object profile_refusal (get top "model")
  refuse (has top "env") profile_refusal
  require (text_is (get model "id") model_id) profile_refusal
  require (hex_at 40 (get model "sha")) profile_refusal
  ok model

-- `==` of floats
unfoldable pub eq_float : Float → Float → Bool
eq_float x y = leb_float x y && leb_float y x

abbrev pub eq_bool : Bool → Bool → Bool
eq_bool true b = b
eq_bool false true = false
eq_bool false false = true

abbrev pub eq_optional : Option String → Option String → Bool
eq_optional none none = true
eq_optional none (some t) = false
eq_optional (some s) none = false
eq_optional (some s) (some t) = s =ₛ t

-- All fields but `raw` agree.
unfoldable pub same_fields : Profile → Profile → Bool
unfolding eq_float
same_fields p q =
    eqb_ℤ p.schema q.schema
    && (p.mode =ₛ q.mode)
    && eqb_ℤ p.context_length q.context_length
    && eqb_ℤ p.max_total_tokens q.max_total_tokens
    && eqb_ℤ p.max_running_requests q.max_running_requests
    && eqb_ℤ p.chunked_prefill_size q.chunked_prefill_size
    && eqb_ℤ p.max_mamba_cache_size q.max_mamba_cache_size
    && eq_float p.mem_fraction_static q.mem_fraction_static
    && (p.kv_cache_dtype =ₛ q.kv_cache_dtype)
    && eqb_ℤ p.speculative_steps q.speculative_steps
    && (p.vision_backend =ₛ q.vision_backend)
    && eq_bool p.vision_cuda_graph q.vision_cuda_graph
    && eqb_ℤ p.ple_rss_gib q.ple_rss_gib
    && eqb_ℤ p.mm_processor_worker_num q.mm_processor_worker_num
    && eq_optional p.kv_calibration_mode q.kv_calibration_mode
    && eq_optional p.kv_scale_file q.kv_scale_file
    && eq_optional p.kv_scale_sha256 q.kv_scale_sha256
    && eq_optional p.draft_kv_cache_dtype q.draft_kv_cache_dtype
    && (p.moe_backend =ₛ q.moe_backend)
    && (p.draft_quantization =ₛ q.draft_quantization)
    && (p.decode_graph_backend =ₛ q.decode_graph_backend)

-- An exception of runtime/__init__.py, passed on.
abbrev pub from_profile : {A : Type 0} → Result Raised A → Result Refusal A
from_profile (ok a) = ok a
from_profile (err e) = err (of_profile e)

-- `_checked_profile`
unfoldable pub checked_profile : Profile → Result Refusal Profile
unfolding same_fields
checked_profile profile = do
  checked ← from_profile (profile_from_dict profile.raw)
  require (same_fields profile checked) profile_refusal
  ok checked
