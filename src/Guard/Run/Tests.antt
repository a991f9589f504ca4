-- ===== src/Guard/Run/Tests.antt =====
-- A launch by scripts/guard.py whose container ends by itself, and the witnesses.
use qwen38_flash_next_nvidia.Guard.Receipt.Covers.{IsVerified, check_receipt-IsVerified}
use qwen38_flash_next_nvidia.Guard.Run.Cleanup.{Cleaned, run-Cleaned}
use qwen38_flash_next_nvidia.Guard.Run.Acts.{acts_of}
use qwen38_flash_next_nvidia.Guard.Ownership.{IsStopped}
use qwen38_flash_next_nvidia.Guard.Stop.{
  IsFullOwner, Recorded, stop_main, stop_main-IsStopped, stop_exit,
}
use qwen38_flash_next_nvidia.Guard.Run.Zero.{EndedWell, run-EndedWell}
use qwen38_flash_next_nvidia.Guard.Run.Cleared.{Cleared, run-Cleared}
use qwen38_flash_next_nvidia.Entrypoint.{checked_profile, same_fields, checked_sources, text_of}
use mathlib.Core.Path.{subst, sym}
use qwen38_flash_next_nvidia.Profile.Validate.{
  validate_value, check_identity, check_limits, check_draft, check_speculative, check_draft_dtype,
  check_draft_quantization, is_text, nextn_speculative, other_speculative, boolean, vision_object,
  check_tail, validate_fields, validate_payload,
}
use qwen38_flash_next_nvidia.Profile.{profile_of, profile_from_dict, profile_from_json}
use qwen38_flash_next_nvidia.Profile.Checks.{
  int_value, require_int, one_of, outside, below, above, in_rule, optional_int, to_float,
  number_value, in_range, optional_float, require_enum, optional_enum, validate_kv_calibration,
}
use qwen38_flash_next_nvidia.Entrypoint.Command.{
  argv_of, env_of, build_argv, build_env, build_all, batch_sizes,
}
use qwen38_flash_next_nvidia.Guard.Session.{Answers, Act, create_act, start_act, stop_act}
use qwen38_flash_next_nvidia.Guard.Run.{Host, docker_argv, run, check_launch, still_running, ran_to}
use qwen38_flash_next_nvidia.Guard.Plan.{Place, plan_launch, Planned, Inputs, Args}
use qwen38_flash_next_nvidia.Prelude.{
  ◌≡◌, refl, String, true, false, none, some, List, [], ◌∷◌, ok, err, inl, inr, ◌⊎◌, pos, is_hex,
  sym,
}
use qwen38_flash_next_nvidia.Json.{
  Value, Fields, str, int, bool, obj, arr, nil, cons, get, end, field, hex_at, has, keys_are,
  keys_within, has_all, member, leb_float, is_finite, float_of_int, text_is, truthy, Items, put,
}
use qwen38_flash_next_nvidia.Json.Loads.{dumps, object_pairs, build}
use qwen38_flash_next_nvidia.Profile.Tests.{nextn, nextn_profile}
use qwen38_flash_next_nvidia.Profile.CheckLaws.{Among}
use qwen38_flash_next_nvidia.Entrypoint.Tests.{sha, digest, shown, shown_float, sources, ple_file}
use qwen38_flash_next_nvidia.Guard.{
  Owner, Round, transport_error, inspect_call, text_is, verify_ownership, truthy, watch,
}
use qwen38_flash_next_nvidia.Guard.Inventory.{
  Guarded, Raw, Inventory, source_inventory, find_row, read_json,
}
use qwen38_flash_next_nvidia.Guard.Receipt.{FileView, check_receipt, row_objects}

abbrev cid : String
cid = "00000000000000000000000000000000000000000000000000000000000000c1"

abbrev image : String
image = "sha256:0123456789abcdef0123456789abcdef0123456789abcdef0123456789abcdef"

abbrev place : String → List String → Place
place text parts = record {
  text = text;
  parts = parts;
  absolute = true;
  symlink = false;
  canonical = true;
  top = false;
}

abbrev args : Args
args = record {
  image = image;
  profile = place "/in/profile.json" ("/" ∷ "in" ∷ "profile.json" ∷ []);
  sources = place "/in/sources.json" ("/" ∷ "in" ∷ "sources.json" ∷ []);
  receipt = place "/in/receipt.json" ("/" ∷ "in" ∷ "receipt.json" ∷ []);
  model_root = place "/model" ("/" ∷ "model" ∷ []);
  cache_dir = place "/cache" ("/" ∷ "cache" ∷ []);
  state_dir = place "/state" ("/" ∷ "state" ∷ []);
  receipt_sha256 = digest;
  print_only = false;
  max_watch = some 0;
  floor = 8388608;
}

abbrev raw_of : Value → Raw
raw_of value = record { size = 1000; text = some (dumps value); sha256 = digest }

abbrev inputs : Inputs
inputs = record {
  sources_file = ok (raw_of sources);
  profile_file = ok (raw_of (obj nextn));
  profile_text = ok (some (dumps (obj nextn)));
}

abbrev checked_file : Fields
checked_file = field "path" (str "model-fp8-mtp-ple.safetensors") (
    field "dev" (int (pos 1)) (
      field "inode" (int (pos 2)) (
        field "size" (int (pos 52000000000)) (
          field "mtime_ns" (int (pos 3))
            (field "ctime_ns" (int (pos 4)) (field "sha256" (str digest) end))))))

abbrev receipt : Fields
receipt = field "kind" (str "CHECKPOINT_VERIFIED") (
    field "root" (str "/model") (
      field "model"
        (obj (field "id" (str "nvidia/Qwen3.8-Flash-Next-NVFP4") (field "sha" (str sha) end)))
        (field "files" (arr (cons (obj checked_file) nil))
          (field "file_count" (int (pos 1)) (field "total_bytes" (int (pos 52000000000)) end)))))

abbrev receipt_raw : Guarded Raw
receipt_raw = ok (raw_of (obj receipt))

abbrev view : String → Guarded FileView
view name = ok (record {
  symlink = false;
  inside = true;
  regular = true;
  dev = 1;
  inode = 2;
  size = 52000000000;
  mtime_ns = 3;
  ctime_ns = 4;
})

abbrev host : Host
host = record {
  directories = true;
  state_made = ok tt;
  locked = ok tt;
  findings = ok (field "status" (str "PASS") end);
  receipt_file = ok (raw_of (obj receipt));
  view = view;
  image_document =
      ok (
        field "Id" (str image) (field "Architecture" (str "arm64") (field "Os" (str "linux") end)));
  inputs_written = ok tt;
  nonce = "0123456789abcdef0123456789abcdef";
  record_written = ok tt;
  receipt_file_again = ok (raw_of (obj receipt));
  view_again = view;
}

abbrev document : Fields → Fields
document state = field "Id" (str cid) (
    field "Image" (str image) (
      field "Config"
        (obj (
          field "Labels"
            (obj (
              field "io.r0b0tlab.qwen38fn.owner" (str "0123456789abcdef0123456789abcdef") (
                field "io.r0b0tlab.qwen38fn.profile-sha256" (str digest)
                  (field "io.r0b0tlab.qwen38fn.image-id" (str image) end))))
            end))
        (field "State" (obj state) end)))

abbrev ended_state : Fields
ended_state =
    field "Running" (bool false)
      (field "ExitCode" (int (pos 0)) (field "OOMKilled" (bool false) end))

abbrev ended : Round
ended = record {
  inspected = ok (document ended_state);
  signal = none;
  available = none;
  logged = ok tt;
  elapsed = 3;
}

abbrev answers : Answers
answers = record {
  signal_before = none;
  created = ok cid;
  cid_saved = ok tt;
  first_inspected = ok (document end);
  signal_after = none;
  started = ok tt;
  telemetry_opened = ok tt;
  rounds = ended ∷ [];
  cidfile = none;
  by_name = err transport_error;
  stop_first = ok (document ended_state);
  stopped = ok tt;
  stop_second = ok (document ended_state);
  final_saved = ok tt;
  record_saved = ok tt;
}

abbrev planned : Planned
planned = record {
  sources = sources;
  inventory = ("model-fp8-mtp-ple.safetensors", ple_file) ∷ [];
  profile = nextn_profile;
  argv = argv_of shown shown_float nextn_profile sha;
  env = env_of shown shown_float nextn_profile sha;
  profile_sha256 = digest;
  max_watch = 0;
}

abbrev acts : List Act
acts =
    create_act (docker_argv args planned host)
    ∷ start_act cid
    ∷ stop_act (inspect_call cid)
    ∷ stop_act (inspect_call cid)
    ∷ []

check_receipt-receipt :
    check_receipt view digest "/model" (ok (raw_of (obj receipt))) sources ≡ ok receipt
unfolding check_receipt hex_at is_hex dumps build has text_is keys_are
check_receipt-receipt = refl

plan_launch-planned : plan_launch shown shown_float args inputs ≡ ok planned
unfolding plan_launch profile_from_json profile_from_dict profile_of validate_payload validate_value
    validate_fields build dumps has get keys_are keys_within has_all member leb_float is_finite
    float_of_int put object_pairs int_value require_int one_of outside below above in_rule
    optional_int to_float number_value in_range optional_float require_enum optional_enum
    validate_kv_calibration check_identity check_limits check_draft check_speculative
    check_draft_dtype check_draft_quantization is_text nextn_speculative other_speculative boolean
    vision_object check_tail checked_profile same_fields checked_sources text_is hex_at is_hex
    build_argv build_env build_all batch_sizes text_of
plan_launch-planned = refl

check_launch-planned : check_launch args planned host ≡ ok tt
unfolding check_launch get hex_at is_hex dumps build has text_is keys_are
check_launch-planned = refl

run-args : run shown shown_float args inputs host answers ≡ ran_to 0 acts
unfolding run verify_ownership truthy watch profile_from_json profile_from_dict profile_of
    validate_payload validate_value validate_fields build dumps has get keys_are keys_within has_all
    member leb_float is_finite float_of_int put object_pairs int_value require_int one_of outside
    below above in_rule optional_int to_float number_value in_range optional_float require_enum
    optional_enum validate_kv_calibration check_identity check_limits check_draft check_speculative
    check_draft_dtype check_draft_quantization is_text nextn_speculative other_speculative boolean
    vision_object check_tail checked_profile same_fields checked_sources text_is hex_at is_hex
    build_argv build_env build_all batch_sizes text_of
run-args = refl

check_receipt-IsVerified_example :
    (raw : Raw) × (receipt_raw ≡ ok raw)
    × (raw.sha256 ≡ digest)
    × (read_json receipt_raw ≡ ok (obj receipt, raw))
    × ((items : Items) × (rows : List Fields) × (get receipt "files" ≡ some (arr items))
        × (row_objects items ≡ ok rows)
        × (inventory : Inventory) × (source_inventory sources ≡ ok inventory)
        × ((name : String) (expected : Fields)
            → find_row name inventory ≡ some expected
            → IsVerified view rows name expected))
check_receipt-IsVerified_example =
    check_receipt-IsVerified view digest "/model" (ok (raw_of (obj receipt))) sources receipt
      check_receipt-receipt

run-Cleared_example : Cleared shown shown_float args inputs host answers cid
run-Cleared_example =
    run-Cleared shown shown_float args inputs host answers cid
      (subst (λ r. Among (start_act cid) (acts_of r)) (sym run-args) (inr (inl refl)))

run-EndedWell_example :
    (p : Planned) × (plan_launch shown shown_float args inputs ≡ ok p)
    × ((args.print_only ≡ true) ⊎ EndedWell args p host answers)
run-EndedWell_example = run-EndedWell shown shown_float args inputs host answers acts run-args

cid-hex : hex_at 64 (some (str cid)) ≡ true
unfolding hex_at is_hex
cid-hex = refl

run-Cleaned_example :
    ((acts' : List Act) × (run shown shown_float args inputs host answers ≡ still_running acts'))
    ⊎ Cleaned cid (acts_of (run shown shown_float args inputs host answers))
run-Cleaned_example =
    run-Cleaned shown shown_float args inputs host answers cid planned plan_launch-planned refl
      check_launch-planned refl refl cid-hex

abbrev launch_record : Fields
launch_record = field "cid" (str cid) (
    field "nonce" (str "0123456789abcdef0123456789abcdef")
      (field "profile_sha256" (str digest) (field "image" (str image) end)))

stop_main-record :
    (stop_main
      (ok (document ended_state))
      (ok tt)
      (ok (document ended_state))
      args.profile
      (ok (raw_of (obj launch_record)))).1
    ≡ stop_exit 0
unfolding stop_main verify_ownership truthy get has text_is hex_at is_hex dumps build text_of
stop_main-record = refl

abbrev stopped_document : Guarded Fields
stopped_document = ok (document ended_state)

stop_main-IsStopped_example :
    (owner : Owner) × Recorded (ok (raw_of (obj launch_record))) owner
    × IsFullOwner owner
    × ((final : Fields) × (stopped_document ≡ ok final) × IsStopped owner final)
stop_main-IsStopped_example =
    stop_main-IsStopped (ok (document ended_state)) (ok tt) (ok (document ended_state)) args.profile
      (ok (raw_of (obj launch_record))) stop_main-record
