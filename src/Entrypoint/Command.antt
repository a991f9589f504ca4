-- ===== src/Entrypoint/Command.antt =====
-- `build_env` and `build_argv` of runtime/entrypoint.py. `str` of an integer and of a float are
-- parameters.
use qwen38_flash_next_nvidia.Prelude.{
  ◌+◌, String, Option, none, some, List, [], ◌∷◌, ◌++◌, map, ℤ, pos, negsuc, ltb_ℤ, ◌=ₛ◌, ◌+ₛ◌,
  Result, ok, ◌>>=◌, if◌then◌else◌, suc, zero,
}
use qwen38_flash_next_nvidia.Json.{Value, Float, get}
use qwen38_flash_next_nvidia.Profile.{Profile}
use qwen38_flash_next_nvidia.Entrypoint.{
  Refusal, checked_profile, checked_sources, text_of, model_id, eq_optional,
}

-- A dict of texts, in the order of insertion.
abbrev pub Env : Type 0
Env = List (String × String)

-- `ple_dir` of a SHA that has been checked.
abbrev pub ple_dir : String → String
ple_dir model_sha = "/cache/ple/" +ₛ model_sha

abbrev pub or_empty : Option String → String
or_empty none = ""
or_empty (some s) = s

-- `"%s" % x` of a text or None
abbrev pub or_none : Option String → String
or_none none = "None"
or_none (some s) = s

-- `n + 1` of an integer
abbrev pub succ_ℤ : ℤ → ℤ
succ_ℤ (pos n) = pos (n + 1)
succ_ℤ (negsuc zero) = pos 0
succ_ℤ (negsuc (suc n)) = negsuc n

-- `[n for n in (1, 2, 4, 8) if n <= max_running_requests]`
abbrev pub up_to : ℤ → List ℤ → List ℤ
up_to limit [] = []
up_to limit (n ∷ ns) = if ltb_ℤ limit n then up_to limit ns else n ∷ up_to limit ns

unfoldable pub batch_sizes : ℤ → List ℤ
batch_sizes limit = up_to limit (pos 1 ∷ pos 2 ∷ pos 4 ∷ pos 8 ∷ [])

module _ (shown : ℤ → String) (shown_float : Float → String) where
  abbrev pub env_of : Profile → String → Env
  env_of profile sha =
      ("HOME", "/cache/home")
      ∷ ("TMPDIR", "/cache/tmp")
      ∷ ("XDG_CACHE_HOME", "/cache/xdg")
      ∷ ("HF_HOME", "/cache/hf")
      ∷ ("SGLANG_CACHE_DIR", "/cache/jit")
      ∷ ("SGLANG_VIT_ENABLE_CUDA_GRAPH", if profile.vision_cuda_graph then "1" else "0")
      ∷ ("SGLANG_VIT_ENABLE_VECTORIZED_POS_EMBED", "1")
      ∷ ("SGLANG_QWEN4_PLE_FILE_RSS_BUDGET_GB", shown profile.ple_rss_gib)
      ∷ ("SGLANG_QWEN4_PLE_FILE_PREFETCH", "1")
      ∷ (
        "SGLANG_QSA_KV_AMAX_CALIB",
        if eq_optional profile.kv_calibration_mode (some "collect") then "1" else "0",
      )
      ∷ ("SGLANG_QSA_KV_MODEL_REVISION", sha)
      ∷ (
        "SGLANG_QSA_KV_SCALE_SIDECAR",
        if eq_optional profile.kv_calibration_mode (some "frozen")
            then "/opt/r0b0tlab/kv-calibration/" +ₛ sha +ₛ "/" +ₛ or_none profile.kv_scale_file
            else "",
      )
      ∷ ("SGLANG_QSA_KV_SCALE_SHA256", or_empty profile.kv_scale_sha256)
      ∷ ("SGLANG_QWEN4_PLE_FILE_SKIP_DEVICE_CHECK", "0")
      ∷ ("SGLANG_DISABLE_DRAFT_EXTEND_CUDA_GRAPH", "0")
      ∷ ("R0B0TLAB_PLE_PREPARED_PATH", "")
      ∷ ("R0B0TLAB_PLE_PREPARED_SHA256", "")
      ∷ ("MAX_JOBS", "1")
      ∷ ("FLASHINFER_NVCC_THREADS", "1")
      ∷ ("HF_HUB_OFFLINE", "1")
      ∷ ("TRANSFORMERS_OFFLINE", "1")
      ∷ ("PYTHONDONTWRITEBYTECODE", "1")
      ∷ []

  -- `build_env`
  unfoldable pub build_env : Profile → Value → Result Refusal Env
  build_env profile sources = do
    checked ← checked_profile profile
    model ← checked_sources sources
    ok (env_of checked (text_of (get model "sha")))

  -- The words before the graph batch sizes.
  abbrev pub words_before_sizes : Profile → String → List String
  words_before_sizes profile sha =
      "sglang"
      ∷ "serve"
      ∷ "--model-path"
      ∷ "/model"
      ∷ "--served-model-name"
      ∷ model_id
      ∷ "--tp-size"
      ∷ "1"
      ∷ "--nnodes"
      ∷ "1"
      ∷ "--node-rank"
      ∷ "0"
      ∷ "--host"
      ∷ "0.0.0.0"
      ∷ "--port"
      ∷ shown (pos 30000)
      ∷ "--dtype"
      ∷ "bfloat16"
      ∷ "--quantization"
      ∷ "modelopt_mixed"
      ∷ "--load-format"
      ∷ "safetensors"
      ∷ "--ple-offload-embedding"
      ∷ "--ple-offload-backend"
      ∷ "file"
      ∷ "--ple-offload-dir"
      ∷ ple_dir sha
      ∷ "--fp4-gemm-backend"
      ∷ "flashinfer_cutlass"
      ∷ "--moe-runner-backend"
      ∷ profile.moe_backend
      ∷ "--attention-backend"
      ∷ "triton"
      ∷ "--mamba-ssm-dtype"
      ∷ "float32"
      ∷ "--linear-attn-prefill-backend"
      ∷ "triton"
      ∷ "--linear-attn-decode-backend"
      ∷ "triton"
      ∷ "--linear-attn-verify-backend"
      ∷ "triton"
      ∷ "--reasoning-parser"
      ∷ "auto"
      ∷ "--tool-call-parser"
      ∷ "auto"
      ∷ "--cuda-graph-backend-decode"
      ∷ profile.decode_graph_backend
      ∷ "--cuda-graph-backend-prefill"
      ∷ "disabled"
      ∷ "--cuda-graph-bs-decode"
      ∷ []

  abbrev pub words_after_sizes : Profile → List String
  words_after_sizes profile =
      "--page-size"
      ∷ "64"
      ∷ "--enable-metrics"
      ∷ "--watchdog-timeout"
      ∷ "1800"
      ∷ "--context-length"
      ∷ shown profile.context_length
      ∷ "--max-total-tokens"
      ∷ shown profile.max_total_tokens
      ∷ "--max-running-requests"
      ∷ shown profile.max_running_requests
      ∷ "--chunked-prefill-size"
      ∷ shown profile.chunked_prefill_size
      ∷ "--max-prefill-tokens"
      ∷ shown profile.chunked_prefill_size
      ∷ "--mem-fraction-static"
      ∷ shown_float profile.mem_fraction_static
      ∷ "--kv-cache-dtype"
      ∷ profile.kv_cache_dtype
      ∷ "--max-mamba-cache-size"
      ∷ shown profile.max_mamba_cache_size
      ∷ "--mm-attention-backend"
      ∷ profile.vision_backend
      ∷ "--mm-processor-worker-num"
      ∷ shown profile.mm_processor_worker_num
      ∷ []

  -- `profile.draft_kv_cache_dtype or profile.kv_cache_dtype`
  abbrev pub draft_dtype : Profile → String
  draft_dtype profile =
      if or_empty profile.draft_kv_cache_dtype =ₛ ""
      then profile.kv_cache_dtype
      else or_empty profile.draft_kv_cache_dtype

  abbrev pub draft_words : Profile → List String
  draft_words profile =
      "--speculative-algorithm"
      ∷ "NEXTN"
      ∷ "--speculative-num-steps"
      ∷ shown profile.speculative_steps
      ∷ "--speculative-eagle-topk"
      ∷ "1"
      ∷ "--speculative-num-draft-tokens"
      ∷ shown (succ_ℤ profile.speculative_steps)
      ∷ "--speculative-draft-model-quantization"
      ∷ profile.draft_quantization
      ∷ "--speculative-moe-runner-backend"
      ∷ "triton"
      ∷ "--speculative-draft-kv-cache-dtype"
      ∷ draft_dtype profile
      ∷ []

  abbrev pub argv_of : Profile → String → List String
  argv_of profile sha =
      words_before_sizes profile sha
      ++ (map shown (batch_sizes profile.max_running_requests)
          ++ (words_after_sizes profile
              ++ (if profile.mode =ₛ "nextn" then draft_words profile else [])))

  -- `build_argv`
  unfoldable pub build_argv : Profile → Value → Result Refusal (List String)
  unfolding batch_sizes
  build_argv profile sources = do
    checked ← checked_profile profile
    model ← checked_sources sources
    ok (argv_of checked (text_of (get model "sha")))

  -- `build_all`
  unfoldable pub build_all : Profile → Value → Result Refusal (List String × Env)
  build_all profile sources = do
    argv ← build_argv profile sources
    env ← build_env profile sources
    ok (argv, env)
