-- ===== src/Entrypoint/Main.antt =====
-- `main` of runtime/entrypoint.py.
use qwen38_flash_next_nvidia.Prelude.{
  ℕ, String, Bool, Option, none, some, List, [], ◌∷◌, ltb, ◌=ₛ◌, Result, ok, err, ◌>>=◌, ◌>>◌,
  require, refuse, if◌then◌else◌,
}
use qwen38_flash_next_nvidia.Json.{Value, Fields, Float, get}
use qwen38_flash_next_nvidia.Json.Loads.{Syntax, Hooks, build}
use qwen38_flash_next_nvidia.Profile.{Profile, profile_from_json}
use qwen38_flash_next_nvidia.Profile.Reason.{overflow_error}
use qwen38_flash_next_nvidia.Entrypoint.{
  Refusal, profile_refusal, os_refusal, of_profile, from_profile, text_of, ℤ,
}
use qwen38_flash_next_nvidia.Entrypoint.Command.{Env, build_all}
use qwen38_flash_next_nvidia.Entrypoint.Prepared.{File, Core, prepare_ple_cache}

-- `env[name] = value`
unfoldable pub env_set : Env → String → String → Env
env_set [] name value = (name, value) ∷ []
env_set ((k, v) ∷ env) name value =
    if k =ₛ name then (k, value) ∷ env else (k, v) ∷ env_set env name value

-- `env.update(new)`
unfoldable pub env_update : Env → Env → Env
unfolding env_set
env_update env [] = env
env_update env ((k, v) ∷ new) = env_update (env_set env k v) new

-- `env.get(name)`
unfoldable pub env_get : Env → String → Option String
env_get [] name = none
env_get ((k, v) ∷ env) name = if k =ₛ name then some v else env_get env name

abbrev or_nothing : Option String → String
or_nothing none = ""
or_nothing (some s) = s

-- `load_profile`, with `none` for no such file and an error if it cannot be read
abbrev pub load_profile : Result Refusal (Option (Option Syntax)) → Result Refusal Profile
load_profile (err e) = err e
load_profile (ok none) = err profile_refusal
load_profile (ok (some payload)) = from_profile (profile_from_json payload)

-- `_source_pairs` and `_source_constant`
abbrev pub source_hooks : Hooks Refusal
source_hooks = record { duplicate = λ k. profile_refusal; nonfinite = λ t. profile_refusal }

-- `json.loads` of the sources; a text that is no JSON is a ValueError, as a ProfileError is
abbrev pub load_text : Option Syntax → Result Refusal Value
load_text none = err profile_refusal
load_text (some text) = build source_hooks text

unfoldable pub load_sources : File → Result Refusal Value
load_sources none = err os_refusal
load_sources (some (size, text)) = do refuse (ltb 4194304 size) profile_refusal; load_text text

-- Everything that `main` reads: the files, the environment, whether `prepare_jit_temp` accepts a
-- directory, and the preparation core.
pub record World : Type 0 where
  pub profile_file : Result Refusal (Option (Option Syntax))
  pub sources_file : File
  pub plan_file : File
  pub environ : Env
  pub private_directory : String → Bool
  pub core : Core

-- How `main` ends: with an exit code, with the call of `os.execvpe`, or with an exception that it
-- does not catch. A call of `os.execvpe` that fails ends with the exit code 2 as well.
pub data Ending : Type 0 where
  exited : ℕ → Ending
  executed : List String → Env → Ending
  crashed : Ending

-- `except (OSError, ValueError, TypeError)`: an OverflowError is none of these.
abbrev pub caught : Refusal → Ending
caught (of_profile overflow_error) = crashed
caught _ = exited 2

abbrev pub ending : Result Refusal Ending → Ending
ending (ok e) = e
ending (err e) = caught e

module _ (shown : ℤ → String) (shown_float : Float → String) (world : World) where
  -- The environment behind the update and the two handoff slots.
  abbrev pub handed_over : Env → Fields → Env
  handed_over environment prepared =
      env_set
        (env_set environment "R0B0TLAB_PLE_PREPARED_PATH" (text_of (get prepared "receipt_path")))
        "R0B0TLAB_PLE_PREPARED_SHA256" (text_of (get prepared "receipt_sha256"))

  -- From `environment = dict(os.environ)` to `os.execvpe`.
  unfoldable pub execute : List String → Env → Value → Result Refusal Ending
  unfolding env_update env_set env_get text_of
  execute argv env sources = do
    let environment = env_update world.environ env
    require (world.private_directory (or_nothing (env_get environment "TMPDIR"))) os_refusal
    prepared ← prepare_ple_cache world.core world.plan_file sources
    ok (executed argv (handed_over environment prepared))

  -- The body of the `try`.
  unfoldable pub launch : Bool → Result Refusal Ending
  unfolding load_sources execute
  launch print_only = do
    profile ← load_profile world.profile_file
    sources ← load_sources world.sources_file
    (argv, env) ← build_all shown shown_float profile sources
    if print_only then ok (exited 0) else execute argv env sources

  -- `main`
  unfoldable pub main : Bool → Ending
  unfolding launch
  main print_only = ending (launch print_only)
