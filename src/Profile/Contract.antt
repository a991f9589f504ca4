-- ===== src/Profile/Contract.antt =====
-- The launch contract that runtime/__init__.py and docs describe, stated over the fields of a
-- profile with no reference to the checks, and that the checks decide it.
use qwen38_flash_next_nvidia.Prelude.{
  String, ◌≡◌, ◌≢◌, ◌⊎◌, Bool, true, none, some, List, [], ◌∷◌, ℤ, pos, ◌≤ℤ◌, is_hex, is_basename,
}
use qwen38_flash_next_nvidia.Json.{
  null, bool, int, float, str, obj, Fields, Float, get, keys_are, keys_within,
}
use qwen38_flash_next_nvidia.Profile.CheckLaws.{Among, InFraction}
use qwen38_flash_next_nvidia.Profile.Validate.{known}

module _ (fs : Fields) (key : String) where
  -- No such field, or one with an integer of which `P` holds.
  abbrev pub OptionalInt : (ℤ → Type 0) → Type 0
  OptionalInt P = (get fs key ≡ none) ⊎ ((n : ℤ) × (get fs key ≡ some (int n)) × P n)

  -- No such field, or one with a listed text.
  abbrev pub OptionalText : List String → Type 0
  OptionalText names =
      (get fs key ≡ none) ⊎ ((s : String) × (get fs key ≡ some (str s)) × Among s names)

-- The text of a field, with a default for none.
abbrev pub TextIs : Fields → String → String → String → Type 0
TextIs fs key default s = ((get fs key ≡ none) × (default ≡ s)) ⊎ (get fs key ≡ some (str s))

-- 0.70 to 0.88, as floats; never an integer.
abbrev pub MemFraction : Fields → Type 0
MemFraction raw =
    (get raw "mem_fraction_static" ≡ none)
    ⊎ ((x : Float) × (get raw "mem_fraction_static" ≡ some (float x))
        × InFraction 3152519739159347 52 7926335344172073 53 x)

-- A calibration that is frozen names a file and its digest and goes with the nvfp4 cache; one that
-- is collected goes with the bf16 cache; the nvfp4 cache has one.
abbrev pub Calibration : Fields → String → Type 0
Calibration raw dtype =
    ((get raw "kv_calibration" ≡ none) × (dtype ≢ "nvfp4"))
    ⊎ ((value : Fields) × (get raw "kv_calibration" ≡ some (obj value))
        × (((get value "mode" ≡ some (str "collect"))
              × (keys_are value ("mode" ∷ []) ≡ true)
              × (dtype ≡ "bf16"))
            ⊎ ((file digest : String) × (get value "mode" ≡ some (str "frozen"))
                × (keys_are value ("mode" ∷ "file" ∷ "sha256" ∷ []) ≡ true)
                × (dtype ≡ "nvfp4")
                × (get value "file" ≡ some (str file))
                × (file ≢ ".")
                × (file ≢ "..")
                × (is_basename file ≡ true)
                × (get value "sha256" ≡ some (str digest))
                × (is_hex 64 digest ≡ true))))

-- One to three draft steps; an nvfp4 draft cache only beside an nvfp4 cache.
pub record Draft (spec : Fields) (dtype : String) : Type 0 where
  pub steps : ℤ
  pub steps_at : get spec "steps" ≡ some (int steps)
  pub steps_bounds : (pos 1 ≤ℤ steps) × (steps ≤ℤ pos 3)
  pub closed : keys_within spec ("steps" ∷ "kv_cache_dtype" ∷ "draft_quantization" ∷ []) ≡ true
  pub draft_dtype : OptionalText spec "kv_cache_dtype" ("bf16" ∷ "nvfp4" ∷ [])
  pub nvfp4 : get spec "kv_cache_dtype" ≡ some (str "nvfp4") → dtype ≡ "nvfp4"
  pub quantization : OptionalText spec "draft_quantization" ("modelopt_mixed" ∷ "unquant" ∷ [])

-- A draft in the mode nextn, and none in the other.
abbrev pub Speculation : Fields → String → String → Type 0
Speculation raw mode dtype =
    ((mode ≡ "nextn")
      × ((spec : Fields) × (get raw "speculative" ≡ some (obj spec)) × Draft spec dtype))
    ⊎ ((mode ≡ "ar") × ((get raw "speculative" ≡ none) ⊎ (get raw "speculative" ≡ some null)))

pub record Identity (raw : Fields) (mode : String) : Type 0 where
  pub context : ℤ
  pub schema_at : get raw "schema" ≡ some (int (pos 1))
  pub mode_at : get raw "mode" ≡ some (str mode)
  pub mode_in : Among mode ("ar" ∷ "nextn" ∷ [])
  pub context_at : get raw "context_length" ≡ some (int context)
  pub context_in : Among context (pos 32768 ∷ pos 262144 ∷ [])
  pub total_at : get raw "max_total_tokens" ≡ some (int context)

pub record Limits (raw : Fields) (dtype : String) : Type 0 where
  pub requests :
      OptionalInt raw "max_running_requests" (λ n. Among n (pos 1 ∷ pos 2 ∷ pos 4 ∷ pos 8 ∷ []))
  pub prefill :
      OptionalInt raw "chunked_prefill_size" (λ n. Among n (pos 1024 ∷ pos 2048 ∷ pos 4096 ∷ []))
  pub mamba : OptionalInt raw "max_mamba_cache_size" (λ n. (pos 4 ≤ℤ n) × (n ≤ℤ pos 64))
  pub fraction : MemFraction raw
  pub dtype_at : TextIs raw "kv_cache_dtype" "bf16" dtype
  pub dtype_in : Among dtype ("bf16" ∷ "fp8_e4m3" ∷ "nvfp4" ∷ [])
  pub calibration : Calibration raw dtype
  pub moe : OptionalText raw "moe_backend" ("flashinfer_cutlass" ∷ "marlin" ∷ [])

pub record Vision (raw : Fields) : Type 0 where
  pub vision : Fields
  pub backend : String
  pub cuda_graph : Bool
  pub vision_at : get raw "vision" ≡ some (obj vision)
  pub exact : keys_are vision ("backend" ∷ "cuda_graph" ∷ []) ≡ true
  pub backend_at : get vision "backend" ≡ some (str backend)
  pub backend_in : Among backend ("triton_attn" ∷ "flashinfer_cudnn" ∷ "fa4" ∷ [])
  pub graph_at : get vision "cuda_graph" ≡ some (bool cuda_graph)

pub record Rest (raw : Fields) : Type 0 where
  pub ple : OptionalInt raw "ple_rss_gib" (λ n. Among n (pos 4 ∷ pos 8 ∷ pos 12 ∷ []))
  pub workers : OptionalInt raw "mm_processor_worker_num" (λ n. Among n (pos 1 ∷ pos 2 ∷ []))
  pub closed : keys_within raw known ≡ true
  pub graphs : OptionalText raw "decode_graph_backend" ("full" ∷ "disabled" ∷ [])

-- The whole contract.
pub record MeetsContract (raw : Fields) : Type 0 where
  pub mode : String
  pub dtype : String
  pub identity : Identity raw mode
  pub limits : Limits raw dtype
  pub speculation : Speculation raw mode dtype
  pub vision : Vision raw
  pub rest : Rest raw
