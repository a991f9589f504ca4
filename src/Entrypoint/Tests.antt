-- ===== src/Entrypoint/Tests.antt =====
-- A launch of profiles/nextn-262k-c2-s3.json, and the witnesses of the entrypoint's theorems.
use qwen38_flash_next_nvidia.Entrypoint.Flags.{
  Covered, Follows, build_argv_context, build_argv_graphs, build_argv_draft,
}
use qwen38_flash_next_nvidia.Profile.CheckLaws.{Among}
use qwen38_flash_next_nvidia.Entrypoint.Launchable.{build_all-loaded}
use qwen38_flash_next_nvidia.Entrypoint.Exec.{Launched, main-Launched}
use qwen38_flash_next_nvidia.Entrypoint.Plan.Binding.{IsBound, bind_ple_plan-IsBound}
use qwen38_flash_next_nvidia.Profile.Validate.{
  validate_value, check_identity, check_limits, check_draft, check_speculative, check_draft_dtype,
  check_draft_quantization, is_text, nextn_speculative, other_speculative, boolean, vision_object,
  check_tail, validate_fields, validate_payload,
}
use qwen38_flash_next_nvidia.Profile.{Profile, profile_of, profile_from_dict, profile_from_json}
use qwen38_flash_next_nvidia.Profile.Checks.{
  int_value, require_int, one_of, outside, below, above, in_rule, optional_int, to_float,
  number_value, in_range, optional_float, require_enum, optional_enum, validate_kv_calibration,
}
use qwen38_flash_next_nvidia.Entrypoint.Command.{
  argv_of, build_argv, Env, env_of, batch_sizes, build_all, build_env, words_before_sizes,
  words_after_sizes,
}
use qwen38_flash_next_nvidia.Entrypoint.Prepared.{
  Core, prepare_ple_cache, read_ple_plan, load_plan, floats_finite, validate_prepared_result,
}
use qwen38_flash_next_nvidia.Prelude.{
  ℕ, zero, suc, String, ◌≡◌, refl, true, false, some, List, [], ◌∷◌, ok, ℤ, pos, ◌==◌,
  if◌then◌else◌, is_hex, ◌=ₛ◌, ◌≤◌, ◌++◌, ◌+◌, map, ◌⊎◌,
}
use qwen38_flash_next_nvidia.Json.{
  Value, int, float, str, obj, arr, Items, nil, cons, Fields, end, field, Float, finite, get,
  keys_are, hex_at, text_is, has, keys_within, has_all, member, leb_float, is_finite, float_of_int,
  put,
}
use qwen38_flash_next_nvidia.Json.Loads.{dumps, object_pairs, build}
use qwen38_flash_next_nvidia.Profile.Tests.{nextn, nextn_profile, profile_from_json-nextn}
use qwen38_flash_next_nvidia.Entrypoint.{
  checked_sources, text_is, hex_at, checked_profile, same_fields, text_of,
}
use qwen38_flash_next_nvidia.Entrypoint.Plan.{bind_ple_plan, Bound}
use qwen38_flash_next_nvidia.Entrypoint.Main.{
  World, main, executed, env_set, env_update, launch, execute, load_sources, env_get,
}

abbrev pub sha : String
sha = "0123456789abcdef0123456789abcdef01234567"

abbrev pub digest : String
digest = "0123456789abcdef0123456789abcdef0123456789abcdef0123456789abcdef"

abbrev pub shown : ℤ → String
shown (pos n) =
    if n == 262144
    then "262144"
    else if n == 3
    then "3"
    else if n == 4
    then "4"
    else if n == 2
    then "2"
    else "1"
shown n = "-"

abbrev pub shown_float : Float → String
shown_float x = "0.88"

abbrev pub ple_file : Fields
ple_file =
    field "path" (str "model-fp8-mtp-ple.safetensors")
      (field "size" (int (pos 52000000000)) (field "sha256" (str digest) end))

abbrev pub locked_model : Fields
locked_model =
    field "id" (str "nvidia/Qwen3.8-Flash-Next-NVFP4")
      (field "sha" (str sha) (field "files" (arr (cons (obj ple_file) nil)) end))

abbrev pub sources : Value
sources = obj (field "model" (obj locked_model) end)

-- Shards n - 1 to 0.
abbrev shards_below : ℕ → Items
shards_below zero = nil
shards_below (suc n) =
    cons
      (obj (
        field "id" (int (pos n)) (
          field "name" (str "shard") (
            field "offset" (int (pos 0))
              (field "size" (int (pos 1)) (field "sha256" (str digest) end))))))
      (shards_below n)

abbrev plan_source : Fields
plan_source = field "name" (str "model-fp8-mtp-ple.safetensors") (
    field "size" (int (pos 52000000000)) (
      field "sha256" (str digest)
        (field "header_sha256" (str digest) (field "data_start" (int (pos 8)) end))))

abbrev table : Fields
table = field "name" (str "table") (
    field "shape" (arr (cons (int (pos 320001536)) (cons (int (pos 160)) nil)))
      (field "size" (int (pos 51200245760)) (field "sha256" (str digest) end)))

abbrev scale : Fields
scale =
    field "name" (str "scale")
      (field "offset" (int (pos 0)) (field "size" (int (pos 4)) (field "sha256" (str digest) end)))

abbrev plan : Fields
plan = field "schema" (str "qwen38fn.ple-plan.v1") (
    field "model"
      (obj (field "id" (str "nvidia/Qwen3.8-Flash-Next-NVFP4") (field "revision" (str sha) end)))
      (field "source" (obj plan_source) (
        field "tensor_prefix"
          (str "model.language_model.layers.1.ple.ple_embedding.ngram_embedding")
          (field "dtype" (str "F8_E4M3") (
            field "shard_count" (int (pos 128)) (
              field "rows_per_shard" (int (pos 2500012)) (
                field "row_width" (int (pos 160)) (
                  field "table" (obj table) (
                    field "scale" (obj scale) (field "shards" (arr (shards_below 128)) end))))))))))

abbrev plan_bound : Bound
plan_bound = record {
  source = record {
    name = "model-fp8-mtp-ple.safetensors";
    size = pos 52000000000;
    sha256 = digest;
  };
  table_sha256 = digest;
  table_bytes = pos 51200245760;
}

bind_ple_plan-plan : bind_ple_plan plan sources ≡ ok plan_bound
unfolding bind_ple_plan keys_are text_is checked_sources hex_at is_hex
bind_ple_plan-plan = refl

abbrev receipt : Value
receipt = obj (
    field "receipt_path" (str "/cache/ple/0123456789abcdef0123456789abcdef01234567/prepared.json") (
      field "receipt_sha256" (str digest) (
        field "mode" (str "reuse") (
          field "copied_bytes" (int (pos 0))
            (field "elapsed_seconds" (float (finite (pos 3) 1)) end)))))

abbrev core : Core
core = record {
  importable = true;
  validate_plan = λ p. some true;
  prepare_cache = λ d p. some receipt;
}

abbrev world : World
world = record {
  profile_file = ok (some (some (dumps (obj nextn))));
  sources_file = some (1200, some (dumps sources));
  plan_file = some (30000, some (dumps (obj plan)));
  environ = ("TMPDIR", "/elsewhere") ∷ [];
  private_directory = λ d. d =ₛ "/cache/tmp";
  core = core;
}

abbrev argv : List String
argv = argv_of shown shown_float nextn_profile sha

abbrev env : Env
env =
    env_set
      (env_set
        (env_update (("TMPDIR", "/elsewhere") ∷ []) (env_of shown shown_float nextn_profile sha))
        "R0B0TLAB_PLE_PREPARED_PATH"
        "/cache/ple/0123456789abcdef0123456789abcdef01234567/prepared.json")
      "R0B0TLAB_PLE_PREPARED_SHA256" digest

pinned : checked_sources sources ≡ ok locked_model
unfolding checked_sources text_is hex_at is_hex get has
pinned = refl

main-world : main shown shown_float world false ≡ executed argv env
unfolding main launch execute build_all build_env load_sources env_update env_set env_get text_of
    prepare_ple_cache read_ple_plan load_plan floats_finite bind_ple_plan validate_prepared_result
    profile_from_json profile_from_dict profile_of validate_payload validate_value validate_fields
    build dumps has get keys_are keys_within has_all member leb_float is_finite float_of_int put
    object_pairs int_value require_int one_of outside below above in_rule optional_int to_float
    number_value in_range optional_float require_enum optional_enum validate_kv_calibration
    check_identity check_limits check_draft check_speculative check_draft_dtype
    check_draft_quantization is_text nextn_speculative other_speculative boolean vision_object
    check_tail checked_profile same_fields checked_sources text_is hex_at is_hex build_argv
    batch_sizes
main-world = refl

built : build_argv shown shown_float nextn_profile sources ≡ ok argv
unfolding profile_from_json profile_from_dict profile_of validate_payload validate_value
    validate_fields build dumps has get keys_are keys_within has_all member leb_float is_finite
    float_of_int put object_pairs int_value require_int one_of outside below above in_rule
    optional_int to_float number_value in_range optional_float require_enum optional_enum
    validate_kv_calibration check_identity check_limits check_draft check_speculative
    check_draft_dtype check_draft_quantization is_text nextn_speculative other_speculative boolean
    vision_object check_tail checked_profile same_fields checked_sources text_is hex_at is_hex
    build_argv batch_sizes text_of
built = refl

bind_ple_plan-IsBound_example : IsBound plan sources plan_bound
bind_ple_plan-IsBound_example = bind_ple_plan-IsBound plan sources plan_bound bind_ple_plan-plan

main-Launched_example : (false ≡ false) × Launched shown shown_float world argv env
main-Launched_example = main-Launched shown shown_float world false argv env main-world

build_all-loaded_example :
    build_all shown shown_float nextn_profile sources
    ≡ ok (
      argv_of shown shown_float nextn_profile (text_of (get locked_model "sha")),
      env_of shown shown_float nextn_profile (text_of (get locked_model "sha")),
    )
build_all-loaded_example =
    build_all-loaded shown shown_float sources locked_model pinned (some (dumps (obj nextn)))
      nextn_profile profile_from_json-nextn

build_argv_context_example :
    (n : ℤ) × Among n (pos 32768 ∷ pos 262144 ∷ [])
    × Follows "--context-length" (shown n) argv
    × Follows "--max-total-tokens" (shown n) argv
build_argv_context_example = build_argv_context shown shown_float nextn_profile sources argv built

build_argv_graphs_example :
    (n : ℤ) × Covered n
    × Follows "--max-running-requests" (shown n) argv
    × ((before after : List String) × (argv
          ≡ before
            ++ ("--cuda-graph-bs-decode" ∷ (map shown (batch_sizes n) ++ ("--page-size" ∷ after)))))
build_argv_graphs_example = build_argv_graphs shown shown_float nextn_profile sources argv built

build_argv_draft_example :
    ((k : ℕ) × (1 ≤ k)
      × (k ≤ 3)
      × Follows "--speculative-num-steps" (shown (pos k)) argv
      × Follows "--speculative-num-draft-tokens" (shown (pos (k + 1))) argv)
    ⊎ ((q : Profile) × (sha : String) × (argv
          ≡ words_before_sizes shown shown_float q sha
            ++ (map shown (batch_sizes q.max_running_requests)
                ++ words_after_sizes shown shown_float q)))
build_argv_draft_example = build_argv_draft shown shown_float nextn_profile sources argv built
