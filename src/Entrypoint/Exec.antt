-- ===== src/Entrypoint/Exec.antt =====
-- When `main` of runtime/entrypoint.py reaches `os.execvpe`, and with what.
use qwen38_flash_next_nvidia.Profile.Reason.{overflow_error, profile_error}
use mathlib.Core.Path.{subst, ap}
use qwen38_flash_next_nvidia.Prelude.{
  ◌∙◌, ◌+ₛ◌, ap, refl, String, ◌≡◌, true, false, some, none, List, ok, err, bound, passed, ◌+ₛ◌,
}
use qwen38_flash_next_nvidia.Json.{Value, Fields, Float, get, obj}
use qwen38_flash_next_nvidia.Entrypoint.{
  checked_sources, plan_refusal, Option, ℤ, Profile, Result, text_of, Refusal, of_profile, Bool,
  profile_refusal, os_refusal, obj,
}
use qwen38_flash_next_nvidia.Entrypoint.Command.{Env, ple_dir, build_argv, build_all, build_env}
use qwen38_flash_next_nvidia.Entrypoint.Plan.{bind_ple_plan, Bound}
use qwen38_flash_next_nvidia.Entrypoint.Plan.Binding.{IsBound, bind_ple_plan-IsBound}
use qwen38_flash_next_nvidia.Entrypoint.Prepared.{
  read_ple_plan, prepare_ple_cache, Core, File, returned_value,
}
use qwen38_flash_next_nvidia.Entrypoint.Main.{
  World, env_get, env_set, main, launch, execute, Ending, executed, load_profile, load_sources,
  ending, handed_over, env_update,
}
use qwen38_flash_next_nvidia.Entrypoint.Handoff.{
  IsPrepared, validate_prepared_result-IsPrepared, env_get_set, env_get_set_other,
}

-- A cache that the core prepared for a bound plan, and the receipt that it returned.
pub record Prepared (core : Core) (file : File) (sources : Value) (result : Fields) : Type 0 where
  pub plan : Fields
  pub plan_read : read_ple_plan file ≡ ok plan
  pub bound_ : Bound
  pub is_bound : IsBound plan sources bound_
  pub unchanged : core.validate_plan plan ≡ some true
  pub model : Fields
  pub model_eq : checked_sources sources ≡ ok model
  pub importable : core.importable ≡ true
  pub prepared_eq :
      core.prepare_cache (ple_dir (text_of (get model "sha"))) plan ≡ some (obj result)
  pub receipt : IsPrepared (ple_dir (text_of (get model "sha"))) bound_.table_bytes result

abbrev ok_ending : Ending → Result Refusal Ending
ok_ending e = ok e

abbrev words_of : Result Refusal (List String × Env) → List String → List String
words_of (ok r) words = r.0
words_of (err e) words = words

returned-eq-ok : {A : Type 0} (o : Option A) (a : A) → returned_value o ≡ ok a → o ≡ some a
returned-eq-ok (some b) a h = cc
returned-eq-ok none a h = cc

prepare_ple_cache-Prepared :
    (core : Core) (file : File) (sources : Value) (result : Fields)
    → prepare_ple_cache core file sources ≡ ok result
    → Prepared core file sources result
unfolding prepare_ple_cache
prepare_ple_cache-Prepared core file sources result h = bound (read_ple_plan file) _ h λ plan a h₁.
    bound (bind_ple_plan plan sources) _ h₁ λ b c h₂.
      bound (checked_sources sources) _ h₂ λ model d h₃. passed core.importable _ _ h₃ λ e h₄.
        bound (returned_value (core.validate_plan plan)) _ h₄ λ unchanged f h₅.
          passed unchanged _ _ h₅ λ g h₆.
            bound (returned_value (core.prepare_cache (ple_dir (text_of (get model "sha"))) plan)) _
              h₆
              λ value i h₇.
                let directory = ple_dir (text_of (get model "sha")) in
                let (same, receipt) =
                  validate_prepared_result-IsPrepared value directory b.table_bytes result h₇ in
                record {
                  plan = plan;
                  plan_read = a;
                  bound_ = b;
                  is_bound = bind_ple_plan-IsBound plan sources b c;
                  unchanged = returned-eq-ok (core.validate_plan plan) unchanged f ∙ ap some g;
                  model = model;
                  model_eq = d;
                  importable = e;
                  prepared_eq =
                      returned-eq-ok (core.prepare_cache directory plan) value i ∙ ap some same;
                  receipt = receipt;
                }

module _ (shown : ℤ → String) (shown_float : Float → String) (world : World) where
  -- What stands behind a call of `os.execvpe`.
  pub record Launched (argv : List String) (env : Env) : Type 0 where
    pub profile : Profile
    pub loaded : load_profile world.profile_file ≡ ok profile
    pub sources : Value
    pub sources_read : load_sources world.sources_file ≡ ok sources
    pub argv_built : build_argv shown shown_float profile sources ≡ ok argv
    pub result : Fields
    pub prepared : Prepared world.core world.plan_file sources result
    pub path_slot :
        env_get env "R0B0TLAB_PLE_PREPARED_PATH"
        ≡ some (ple_dir (text_of (get prepared.model "sha")) +ₛ "/prepared.json")
    pub digest_slot : env_get env "R0B0TLAB_PLE_PREPARED_SHA256" ≡ some prepared.receipt.digest

  Prepared-slots :
      (environment env : Env) (sources : Value) (result : Fields)
      (p : Prepared world.core world.plan_file sources result)
      → handed_over shown shown_float world environment result ≡ env
      → (env_get env "R0B0TLAB_PLE_PREPARED_PATH"
          ≡ some (ple_dir (text_of (get p.model "sha")) +ₛ "/prepared.json"))
        × (env_get env "R0B0TLAB_PLE_PREPARED_SHA256" ≡ some p.receipt.digest)
  unfolding text_of
  Prepared-slots environment env sources result p h =
      let with_path =
        env_set environment "R0B0TLAB_PLE_PREPARED_PATH" (text_of (get result "receipt_path")) in
      subst
        (λ e.
          (env_get e "R0B0TLAB_PLE_PREPARED_PATH"
            ≡ some (ple_dir (text_of (get p.model "sha")) +ₛ "/prepared.json"))
          × (env_get e "R0B0TLAB_PLE_PREPARED_SHA256" ≡ some p.receipt.digest))
        h
        (
          env_get_set_other with_path "R0B0TLAB_PLE_PREPARED_SHA256" "R0B0TLAB_PLE_PREPARED_PATH"
                (text_of (get result "receipt_sha256")) refl
              ∙ env_get_set environment "R0B0TLAB_PLE_PREPARED_PATH"
                  (text_of (get result "receipt_path"))
              ∙ ap (λ o. some (text_of o)) p.receipt.path,
          env_get_set with_path "R0B0TLAB_PLE_PREPARED_SHA256"
                (text_of (get result "receipt_sha256"))
              ∙ ap (λ o. some (text_of o)) p.receipt.digest_eq,
        )

  ending-executed :
      (r : Result Refusal Ending) (argv : List String) (env : Env)
      → ending r ≡ executed argv env
      → r ≡ ok (executed argv env)
  ending-executed (ok e) argv env h = ap ok h
  ending-executed (err (of_profile overflow_error)) argv env h = cc
  ending-executed (err (of_profile (profile_error r))) argv env h = cc
  ending-executed (err profile_refusal) argv env h = cc
  ending-executed (err plan_refusal) argv env h = cc
  ending-executed (err os_refusal) argv env h = cc

  ending_eq :
      (a argv : List String) (e env : Env)
      → ok_ending (executed a e) ≡ ok_ending (executed argv env)
      → (a ≡ argv) × (e ≡ env)
  ending_eq a argv e env h = (cc, cc)

  launch-Launched :
      (print_only : Bool) (argv : List String) (env : Env)
      → launch shown shown_float world print_only ≡ ok (executed argv env)
      → (print_only ≡ false) × Launched argv env
  unfolding launch execute build_all
  launch-Launched true argv env h = bound (load_profile world.profile_file) _ h λ profile a h₁.
      bound (load_sources world.sources_file) _ h₁
        λ sources b h₂. bound (build_all shown shown_float profile sources) _ h₂ λ both_ c h₃. cc
  launch-Launched false argv env h = bound (load_profile world.profile_file) _ h λ profile a h₁.
      bound (load_sources world.sources_file) _ h₁ λ sources b h₂.
        bound (build_all shown shown_float profile sources) _ h₂ λ (words, variables) c h₃.
          bound (build_argv shown shown_float profile sources) _ c λ argv' d c₁.
            bound (build_env shown shown_float profile sources) _ c₁ λ env' e c₂.
              passed (world.private_directory _) _ _ h₃ λ f h₄.
                bound (prepare_ple_cache world.core world.plan_file sources) _ h₄ λ result g h₅.
                  let p = prepare_ple_cache-Prepared world.core world.plan_file sources result g in
                  let (same_argv, same_env) =
                    ending_eq words argv
                      (handed_over shown shown_float world (env_update world.environ variables)
                        result)
                      env h₅ in
                  let (i, j) =
                    Prepared-slots (env_update world.environ variables) env sources result p
                      same_env in
                  (
                    refl,
                    record {
                      profile = profile;
                      loaded = a;
                      sources = sources;
                      sources_read = b;
                      argv_built = d ∙ ap ok (ap (λ r. words_of r words) c₂ ∙ same_argv);
                      result = result;
                      prepared = p;
                      path_slot = i;
                      digest_slot = j;
                    },
                  )

  -- `os.execvpe` is reached only without `--print`, by a loaded profile, the lock that the command
  -- is built from, and a prepared cache; its environment names the path and the digest of
  -- the receipt that the core returned.
  pub main-Launched :
      (print_only : Bool) (argv : List String) (env : Env)
      → main shown shown_float world print_only ≡ executed argv env
      → (print_only ≡ false) × Launched argv env
  unfolding main
  main-Launched print_only argv env h =
      launch-Launched print_only argv env
        (ending-executed (launch shown shown_float world print_only) argv env h)
