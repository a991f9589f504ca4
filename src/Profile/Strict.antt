-- ===== src/Profile/Strict.antt =====
-- A dict that meets the contract of runtime/__init__.py holds nothing that JSON text would change.
use qwen38_flash_next_nvidia.Prelude.{String, ◌≡◌, refl, inl, inr, true, some, [], ◌∷◌, arith}
use qwen38_flash_next_nvidia.Json.{
  Value, float, str, obj, Fields, finite, infinity, nan, get, keys_are, is_finite,
}
use qwen38_flash_next_nvidia.Json.RoundTrip.{IsStrict}
use qwen38_flash_next_nvidia.Json.Unique.{IsUnique}
use qwen38_flash_next_nvidia.Profile.CheckLaws.{Among}
use qwen38_flash_next_nvidia.Profile.Contract.{
  MemFraction, TextIs, Calibration, Speculation, MeetsContract, Draft,
}
use qwen38_flash_next_nvidia.Profile.Validate.{known}
use qwen38_flash_next_nvidia.Profile.StrictValues.{
  IsUnique-get, IsStrict-obj, key-Among, keys_are-within, IsStrict-at, IsStrict-str, IsStrict-bool,
  IsStrict-number, IsStrict-null, IsStrict-int, IsStrict-text,
}

module _ (raw : Fields) (c : MeetsContract raw) (u : IsUnique (obj raw)) where
  nested : (k : String) (fs : Fields) → get raw k ≡ some (obj fs) → IsUnique (obj fs)
  unfolding IsUnique
  nested k fs e = IsUnique-get raw k (obj fs) u.1 e

  vision-IsStrict : IsStrict (obj c.vision.vision)
  vision-IsStrict =
      IsStrict-obj fs (nested "vision" fs c.vision.vision_at)
        λ k v e. by_key k v e (key-Among fs _ k v (keys_are-within fs _ c.vision.exact) e)
    where
      fs : Fields
      fs = c.vision.vision

      by_key :
          (k : String) (v : Value)
          → get c.vision.vision k ≡ some v
          → Among k ("backend" ∷ "cuda_graph" ∷ [])
          → IsStrict v
      by_key k v e (inl p) = IsStrict-str _ _ v (rw p at e) _ c.vision.backend_at
      by_key k v e (inr (inl p)) = IsStrict-bool _ _ v (rw p at e) _ c.vision.graph_at
      by_key k v e (inr (inr p)) = absurd p

  Draft-IsStrict :
      (spec : Fields)
      → get raw "speculative" ≡ some (obj spec)
      → Draft spec c.dtype
      → IsStrict (obj spec)
  Draft-IsStrict spec at d =
      IsStrict-obj spec (nested "speculative" spec at)
        λ k v e. by_key k v e (key-Among spec _ k v d.closed e)
    where
      by_key :
          (k : String) (v : Value)
          → get spec k ≡ some v
          → Among k ("steps" ∷ "kv_cache_dtype" ∷ "draft_quantization" ∷ [])
          → IsStrict v
      by_key k v e (inl p) = IsStrict-number _ _ v (rw p at e) _ d.steps_at
      by_key k v e (inr (inl p)) =
          IsStrict-text spec _ v (rw p at e) ("bf16" ∷ "nvfp4" ∷ []) d.draft_dtype
      by_key k v e (inr (inr (inl p))) =
          IsStrict-text spec _ v (rw p at e) ("modelopt_mixed" ∷ "unquant" ∷ []) d.quantization
      by_key k v e (inr (inr (inr p))) = absurd p

  collected-IsStrict :
      (value : Fields)
      → get raw "kv_calibration" ≡ some (obj value)
      → get value "mode" ≡ some (str "collect")
      → keys_are value ("mode" ∷ []) ≡ true
      → IsStrict (obj value)
  collected-IsStrict value at mode exact =
      IsStrict-obj value (nested "kv_calibration" value at)
        λ k v e. by_key k v e (key-Among value _ k v (keys_are-within value _ exact) e)
    where
      by_key : (k : String) (v : Value) → get value k ≡ some v → Among k ("mode" ∷ []) → IsStrict v
      by_key k v e (inl p) = IsStrict-str _ _ v (rw p at e) _ mode
      by_key k v e (inr p) = absurd p

  frozen-IsStrict :
      (value : Fields) (file digest : String)
      → get raw "kv_calibration" ≡ some (obj value)
      → get value "mode" ≡ some (str "frozen")
      → get value "file" ≡ some (str file)
      → get value "sha256" ≡ some (str digest)
      → keys_are value ("mode" ∷ "file" ∷ "sha256" ∷ []) ≡ true
      → IsStrict (obj value)
  frozen-IsStrict value file digest at mode file_at sha_at exact =
      IsStrict-obj value (nested "kv_calibration" value at)
        λ k v e. by_key k v e (key-Among value _ k v (keys_are-within value _ exact) e)
    where
      by_key :
          (k : String) (v : Value)
          → get value k ≡ some v
          → Among k ("mode" ∷ "file" ∷ "sha256" ∷ [])
          → IsStrict v
      by_key k v e (inl p) = IsStrict-str _ _ v (rw p at e) _ mode
      by_key k v e (inr (inl p)) = IsStrict-str _ _ v (rw p at e) _ file_at
      by_key k v e (inr (inr (inl p))) = IsStrict-str _ _ v (rw p at e) _ sha_at
      by_key k v e (inr (inr (inr p))) = absurd p

  Calibration-IsStrict :
      (v : Value) → get raw "kv_calibration" ≡ some v → Calibration raw c.dtype → IsStrict v
  Calibration-IsStrict v e (inl (none_there, _)) = absurd (ground arith)
  Calibration-IsStrict v e (inr (value, at, inl (m, x, _))) =
      IsStrict-at raw _ v e (obj value) at (collected-IsStrict value at m x)
  Calibration-IsStrict v e (inr (value, at, inr (file, digest, m, x, _, f, _, _, _, d, _))) =
      IsStrict-at raw _ v e (obj value) at (frozen-IsStrict value file digest at m f d x)

  speculative-IsStrict :
      (v : Value) → get raw "speculative" ≡ some v → Speculation raw c.mode c.dtype → IsStrict v
  speculative-IsStrict v e (inl (_, (spec, at, d))) =
      IsStrict-at raw _ v e (obj spec) at (Draft-IsStrict spec at d)
  speculative-IsStrict v e (inr (_, inl none_there)) = absurd (ground arith)
  speculative-IsStrict v e (inr (_, inr null_there)) = IsStrict-null raw _ v e null_there

  fraction-IsStrict :
      (v : Value) → get raw "mem_fraction_static" ≡ some v → MemFraction raw → IsStrict v
  unfolding IsStrict is_finite
  fraction-IsStrict v e (inl none_there) = absurd (ground arith)
  fraction-IsStrict v e (inr (finite m k, at, p)) =
      IsStrict-at raw _ v e (float (finite m k)) at refl
  fraction-IsStrict v e (inr (infinity negative, at, p)) = absurd p
  fraction-IsStrict v e (inr (nan, at, p)) = absurd p

  field-IsStrict : (k : String) (v : Value) → get raw k ≡ some v → Among k known → IsStrict v
  field-IsStrict k v e (inl p) = IsStrict-number raw _ v (rw p at e) _ c.identity.schema_at
  field-IsStrict k v e (inr (inl p)) = IsStrict-str raw _ v (rw p at e) _ c.identity.mode_at
  field-IsStrict k v e (inr (inr (inl p))) =
      IsStrict-number raw _ v (rw p at e) _ c.identity.context_at
  field-IsStrict k v e (inr (inr (inr (inl p)))) =
      IsStrict-number raw _ v (rw p at e) _ c.identity.total_at
  field-IsStrict k v e (inr (inr (inr (inr (inl p))))) =
      IsStrict-int raw _ v (rw p at e) _ c.limits.requests
  field-IsStrict k v e (inr (inr (inr (inr (inr (inl p)))))) =
      IsStrict-int raw _ v (rw p at e) _ c.limits.prefill
  field-IsStrict k v e (inr (inr (inr (inr (inr (inr later)))))) = more k v e later
    where
      more :
          (k : String) (v : Value)
          → get raw k ≡ some v
          → Among k (
              "max_mamba_cache_size" ∷ "mem_fraction_static" ∷ "kv_cache_dtype" ∷ "speculative"
              ∷ "vision" ∷ "ple_rss_gib" ∷ "mm_processor_worker_num" ∷ "kv_calibration"
              ∷ "moe_backend" ∷ "decode_graph_backend" ∷ [])
          → IsStrict v
      more k v e (inl p) = IsStrict-int raw _ v (rw p at e) _ c.limits.mamba
      more k v e (inr (inl p)) = fraction-IsStrict v (rw p at e) c.limits.fraction
      more k v e (inr (inr (inl p))) = dtype_strict v (rw p at e) c.limits.dtype_at
        where
          dtype_strict :
              (v : Value)
              → get raw "kv_cache_dtype" ≡ some v
              → TextIs raw "kv_cache_dtype" "bf16" c.dtype
              → IsStrict v
          dtype_strict v e (inl (none_there, _)) = absurd (ground arith)
          dtype_strict v e (inr at) = IsStrict-str raw _ v e _ at
      more k v e (inr (inr (inr (inl p)))) = speculative-IsStrict v (rw p at e) c.speculation
      more k v e (inr (inr (inr (inr (inl p))))) =
          IsStrict-at raw _ v (rw p at e) _ c.vision.vision_at vision-IsStrict
      more k v e (inr (inr (inr (inr (inr (inl p)))))) =
          IsStrict-int raw _ v (rw p at e) _ c.rest.ple
      more k v e (inr (inr (inr (inr (inr (inr (inl p))))))) =
          IsStrict-int raw _ v (rw p at e) _ c.rest.workers
      more k v e (inr (inr (inr (inr (inr (inr (inr (inl p)))))))) =
          Calibration-IsStrict v (rw p at e) c.limits.calibration
      more k v e (inr (inr (inr (inr (inr (inr (inr (inr (inl p))))))))) =
          IsStrict-text raw _ v (rw p at e) ("flashinfer_cutlass" ∷ "marlin" ∷ []) c.limits.moe
      more k v e (inr (inr (inr (inr (inr (inr (inr (inr (inr (inl p)))))))))) =
          IsStrict-text raw _ v (rw p at e) ("full" ∷ "disabled" ∷ []) c.rest.graphs
      more k v e (inr (inr (inr (inr (inr (inr (inr (inr (inr (inr p)))))))))) = absurd p

  -- An accepted dict has distinct keys and finite floats only.
  pub contract-IsStrict : IsStrict (obj raw)
  contract-IsStrict =
      IsStrict-obj raw u λ k v e. field-IsStrict k v e (key-Among raw known k v c.rest.closed e)
