-- ===== src/Profile/Reason.antt =====
-- What runtime/__init__.py raises: a `ProfileError` for each `_fail`, or Python's own
-- `OverflowError` out of `float(value)`.
use qwen38_flash_next_nvidia.Prelude.{String}

pub data Reason : Type 0 where
  not_json not_an_object : Reason
  duplicate_field nonfinite_number : String → Reason
  missing_integer not_an_integer not_allowed below_minimum above_maximum : String → Reason
  not_a_number not_finite out_of_range : String → Reason
  missing_field not_in_enum : String → Reason
  calibration_required calibration_not_object collect_mismatch frozen_mismatch : Reason
  unsafe_basename bad_sha256 : Reason
  unsupported_schema bad_context_length total_tokens_differ : Reason
  speculative_required speculative_fields draft_kv_mismatch speculative_forbidden : Reason
  vision_missing vision_fields vision_graph_not_bool : Reason
  unknown_fields : Reason

pub data Raised : Type 0 where
  profile_error : Reason → Raised
  overflow_error : Raised
