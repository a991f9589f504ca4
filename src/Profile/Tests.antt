-- ===== src/Profile/Tests.antt =====
-- profiles/nextn-262k-c2-s3.json as the launcher reads it, and faulty variants of it.
use qwen38_flash_next_nvidia.Prelude.{◌≡◌, ◌↔◌, refl, true, none, some, ok, pos}
use qwen38_flash_next_nvidia.Json.{
  has, get, keys_are, keys_within, has_all, member, leb_float, is_finite, float_of_int, bool, int,
  float, str, obj, Fields, end, field, finite, put,
}
use qwen38_flash_next_nvidia.Json.Loads.{object_pairs, dumps, build}
use qwen38_flash_next_nvidia.Json.Unique.{IsUnique}
use qwen38_flash_next_nvidia.Profile.Checks.{
  int_value, require_int, one_of, outside, below, above, in_rule, optional_int, to_float,
  number_value, in_range, optional_float, require_enum, optional_enum, validate_kv_calibration,
}
use qwen38_flash_next_nvidia.Profile.{Profile, profile_of, profile_from_dict, profile_from_json}
use qwen38_flash_next_nvidia.Profile.Contract.{MeetsContract}
use qwen38_flash_next_nvidia.Profile.Validate.{
  validate_value, check_identity, check_limits, check_draft, check_speculative, check_draft_dtype,
  check_draft_quantization, is_text, nextn_speculative, other_speculative, boolean, vision_object,
  check_tail, validate_fields, validate_payload,
}
use qwen38_flash_next_nvidia.Profile.Accepts.{validate_fields_iff}
use qwen38_flash_next_nvidia.Profile.Reload.{validate_payload_sound, profile_from_json-reload}

abbrev vision : Fields
vision = field "backend" (str "triton_attn") (field "cuda_graph" (bool true) end)

abbrev tail : Fields
tail = field "max_running_requests" (int (pos 2)) (
    field "chunked_prefill_size" (int (pos 4096)) (
      field "max_mamba_cache_size" (int (pos 10)) (
        field "mem_fraction_static" (float (finite (pos 7926335344172073) 53)) (
          field "kv_cache_dtype" (str "bf16") (
            field "vision" (obj vision) (
              field "ple_rss_gib" (int (pos 4)) (
                field "mm_processor_worker_num" (int (pos 1))
                  (field "speculative" (obj (field "steps" (int (pos 3)) end)) end))))))))

abbrev pub nextn : Fields
nextn = field "schema" (int (pos 1)) (
    field "mode" (str "nextn") (
      field "context_length" (int (pos 262144)) (field "max_total_tokens" (int (pos 262144)) tail)))

abbrev pub nextn_profile : Profile
nextn_profile = record {
  schema = pos 1;
  mode = "nextn";
  context_length = pos 262144;
  max_total_tokens = pos 262144;
  max_running_requests = pos 2;
  chunked_prefill_size = pos 4096;
  max_mamba_cache_size = pos 10;
  mem_fraction_static = finite (pos 7926335344172073) 53;
  kv_cache_dtype = "bf16";
  speculative_steps = pos 3;
  vision_backend = "triton_attn";
  vision_cuda_graph = true;
  ple_rss_gib = pos 4;
  mm_processor_worker_num = pos 1;
  raw = nextn;
  kv_calibration_mode = none;
  kv_scale_file = none;
  kv_scale_sha256 = none;
  draft_kv_cache_dtype = none;
  moe_backend = "flashinfer_cutlass";
  draft_quantization = "modelopt_mixed";
  decode_graph_backend = "full";
}

validate_payload-nextn : validate_payload (some (dumps (obj nextn))) ≡ ok nextn
unfolding validate_payload validate_value validate_fields build dumps has get keys_are keys_within
    has_all member leb_float is_finite float_of_int put object_pairs int_value require_int one_of
    outside below above in_rule optional_int to_float number_value in_range optional_float
    require_enum optional_enum validate_kv_calibration check_identity check_limits check_draft
    check_speculative check_draft_dtype check_draft_quantization is_text nextn_speculative
    other_speculative boolean vision_object check_tail
validate_payload-nextn = refl

pub profile_from_json-nextn : profile_from_json (some (dumps (obj nextn))) ≡ ok nextn_profile
unfolding profile_from_json profile_from_dict profile_of validate_payload validate_value
    validate_fields build dumps has get keys_are keys_within has_all member leb_float is_finite
    float_of_int put object_pairs int_value require_int one_of outside below above in_rule
    optional_int to_float number_value in_range optional_float require_enum optional_enum
    validate_kv_calibration check_identity check_limits check_draft check_speculative
    check_draft_dtype check_draft_quantization is_text nextn_speculative other_speculative boolean
    vision_object check_tail
profile_from_json-nextn = refl

validate_fields_iff_example : (validate_fields nextn ≡ ok tt) ↔ MeetsContract nextn
validate_fields_iff_example = validate_fields_iff nextn

validate_payload_sound_example : MeetsContract nextn × IsUnique (obj nextn)
validate_payload_sound_example =
    validate_payload_sound (some (dumps (obj nextn))) nextn validate_payload-nextn

profile_from_json-reload_example :
    MeetsContract nextn × (profile_from_dict nextn ≡ ok nextn_profile)
profile_from_json-reload_example =
    profile_from_json-reload (some (dumps (obj nextn))) nextn_profile profile_from_json-nextn
