-- ===== src/Guard/Plan.antt =====
-- `safe_path` of scripts/guard.py and the checks of `run` before the state directory is made.
use qwen38_flash_next_nvidia.Profile.Reason.{overflow_error}
use qwen38_flash_next_nvidia.Entrypoint.Command.{Env, build_all}
use qwen38_flash_next_nvidia.Json.{Float, str}
use qwen38_flash_next_nvidia.Profile.{Profile, profile_from_json}
use qwen38_flash_next_nvidia.Json.Loads.{Syntax}
use qwen38_flash_next_nvidia.Prelude.{
  ℕ, String, Bool, true, false, not, ◌&&◌, ◌||◌, Option, none, some, List, [], ◌∷◌, ◌=ₛ◌, ◌==◌, all,
  codes, Result, ok, err, ◌>>=◌, ◌>>◌, require, refuse, if◌then◌else◌, ℤ, length, hex_digit,
}
use qwen38_flash_next_nvidia.Json.{Value, Float}
use qwen38_flash_next_nvidia.Guard.{
  GuardError, launch_error, ℤ, overflowed, os_error, str, value_error,
}
use qwen38_flash_next_nvidia.Guard.Inventory.{
  Guarded, Raw, Inventory, read_json, source_inventory, require_hex,
}
use qwen38_flash_next_nvidia.Entrypoint.{Refusal, os_refusal, of_profile, from_profile}

-- A path given on the command line: `str` and `parts` of it, and what the system says of it, with
-- `top` for the root or the home directory.
pub record Place : Type 0 where
  pub text : String
  pub parts : List String
  pub absolute : Bool
  pub symlink : Bool
  pub canonical : Bool
  pub top : Bool

abbrev pub is_plain_char : ℕ → Bool
is_plain_char c = not (c == 0) && not (c == 10) && not (c == 13) && not (c == b',')

-- `safe_path`
unfoldable pub safe_path : Place → Bool → Guarded Place
safe_path path directory = do
  require (path.absolute && all is_plain_char (codes path.text)) launch_error
  refuse (path.symlink || not path.canonical) launch_error
  refuse (directory && path.top) launch_error
  ok path

-- `is_relative_to`, of the parts
unfoldable pub is_within : List String → List String → Bool
is_within parts [] = true
is_within [] (part ∷ base) = false
is_within (p ∷ parts) (part ∷ base) = p =ₛ part && is_within parts base

abbrev pub overlap : Place → Place → Bool
overlap a b = is_within a.parts b.parts || is_within b.parts a.parts

-- The command line.
pub record Args : Type 0 where
  pub image : String
  pub profile : Place
  pub sources : Place
  pub receipt : Place
  pub model_root : Place
  pub cache_dir : Place
  pub state_dir : Place
  pub receipt_sha256 : String
  pub print_only : Bool
  -- `--max-watch-seconds`, `none` if it is negative or not finite
  pub max_watch : Option ℕ
  -- `_mem_floor_kb` of the floor
  pub floor : ℕ

-- What is read of the two input files; `profile_text` is the profile decoded as UTF-8.
pub record Inputs : Type 0 where
  pub sources_file : Guarded Raw
  pub profile_file : Guarded Raw
  pub profile_text : Guarded (Option Syntax)

pub record Planned : Type 0 where
  pub sources : Value
  pub inventory : Inventory
  pub profile : Profile
  pub argv : List String
  pub env : Env
  pub profile_sha256 : String
  pub max_watch : ℕ

abbrev pub strip_codes : List ℕ → List ℕ → Option (List ℕ)
strip_codes [] cs = some cs
strip_codes (p ∷ ps) [] = none
strip_codes (p ∷ ps) (c ∷ cs) = if p == c then strip_codes ps cs else none

abbrev pub is_digest_codes : Option (List ℕ) → Bool
is_digest_codes none = false
is_digest_codes (some cs) = length cs == 64 && all hex_digit cs

-- `re.fullmatch(r"sha256:[0-9a-f]{64}", image)`
unfoldable pub is_image_id : String → Bool
is_image_id image = is_digest_codes (strip_codes (codes "sha256:") (codes image))

-- ProfileError and PLEPreparationError are ValueErrors, and no LaunchErrors.
abbrev pub as_guard_error : Refusal → GuardError
as_guard_error (of_profile overflow_error) = overflowed
as_guard_error os_refusal = os_error
as_guard_error _ = value_error

abbrev pub guarded : {A : Type 0} → Result Refusal A → Guarded A
guarded (ok a) = ok a
guarded (err e) = err (as_guard_error e)

abbrev pub given_deadline : Option ℕ → Guarded ℕ
given_deadline (some n) = ok n
given_deadline none = err launch_error

-- From `try:` to the test of `print_only`.
module _ (shown : ℤ → String) (shown_float : Float → String) where
  unfoldable pub plan_launch : Args → Inputs → Guarded Planned
  unfolding safe_path is_within is_image_id read_json source_inventory require_hex
  plan_launch args inputs = do
    require (is_image_id args.image) launch_error
    max_watch ← given_deadline args.max_watch
    _ ← safe_path args.profile false
    _ ← safe_path args.sources false
    _ ← safe_path args.receipt false
    model ← safe_path args.model_root false
    cache ← safe_path args.cache_dir true
    state ← safe_path args.state_dir true
    refuse (overlap state model || overlap state cache || overlap model cache) launch_error
    (sources, raw) ← read_json inputs.sources_file
    inventory ← source_inventory sources
    (ignored, profile_raw) ← read_json inputs.profile_file
    text ← inputs.profile_text
    profile ← guarded (from_profile (profile_from_json text))
    (argv, env) ← guarded (build_all shown shown_float profile sources)
    _ ← require_hex (some (str args.receipt_sha256)) 64
    ok (record {
      sources = sources;
      inventory = inventory;
      profile = profile;
      argv = argv;
      env = env;
      profile_sha256 = profile_raw.sha256;
      max_watch = max_watch;
    })
