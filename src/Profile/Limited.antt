-- ===== src/Profile/Limited.antt =====
-- The optional fields of runtime/__init__.py: the sizes, the fraction of memory, the dtypes.
use qwen38_flash_next_nvidia.Prelude.{
  String, ◌≡◌, refl, ap, ◌∙◌, ◌⊎◌, inl, inr, none, some, List, ℤ, pos, negsuc, ok, arith, bound,
}
use qwen38_flash_next_nvidia.Json.{str, Fields, Float, finite, get, float_of_int-finite}
use qwen38_flash_next_nvidia.Profile.Checks.{
  optional_int, optional_float, optional_enum, validate_kv_calibration,
}
use qwen38_flash_next_nvidia.Profile.CheckLaws.{
  Among, Passes, InFraction, optional_int_sound, optional_int_absent, optional_int_present,
  optional_float_sound, optional_float_absent, optional_float_present, optional_enum_sound,
  optional_enum_absent, optional_enum_present,
}
use qwen38_flash_next_nvidia.Profile.Contract.{
  OptionalInt, OptionalText, TextIs, MemFraction, Limits,
}
use qwen38_flash_next_nvidia.Profile.Calibrated.{
  validate_kv_calibration_sound, validate_kv_calibration_complete,
}
use qwen38_flash_next_nvidia.Profile.Checks.{IntRule}
use qwen38_flash_next_nvidia.Profile.Validate.{
  max_running_requests_rule, chunked_prefill_rule, mamba_cache_rule, mem_fraction_min,
  mem_fraction_max, mem_fraction_default, kv_cache_dtypes, moe_backends, check_limits,
}

-- An accepted optional field, with what the rule says of it; and the other way round.
pub optional_rule :
    (raw : Fields) (key : String) (rule : IntRule) (P : ℤ → Type 0)
    → ((n : ℤ) → Passes rule n → P n)
    → (m : ℤ) → optional_int raw key rule ≡ ok m
    → OptionalInt raw key P
optional_rule raw key rule P imp m h = elim (optional_int_sound raw key rule m h) [
  | inl (e, d) ↦ inl e
  | inr (e, p) ↦ inr (m, e, imp m p)
]

pub rule_optional :
    (raw : Fields) (key : String) (rule : IntRule) (P : ℤ → Type 0) (d : ℤ)
    → rule.default ≡ some d
    → ((n : ℤ) → P n → Passes rule n)
    → OptionalInt raw key P
    → (m : ℤ) × (optional_int raw key rule ≡ ok m)
rule_optional raw key rule P d has_default imp (inl e) =
    (d, optional_int_absent raw key rule d has_default e)
rule_optional raw key rule P d has_default imp (inr (n, e, p)) =
    (n, optional_int_present raw key rule n e (imp n p))

pub optional_text :
    (raw : Fields) (key : String) (allowed : List String) (default s : String)
    → optional_enum raw key allowed default ≡ ok s
    → OptionalText raw key allowed
optional_text raw key allowed default s h = elim (optional_enum_sound raw key allowed default s h) [
  | inl (e, d) ↦ inl e
  | inr (e, p) ↦ inr (s, e, p)
]

pub text_optional :
    (raw : Fields) (key : String) (allowed : List String) (default : String)
    → OptionalText raw key allowed
    → (s : String) × (optional_enum raw key allowed default ≡ ok s)
text_optional raw key allowed default (inl e) =
    (default, optional_enum_absent raw key allowed default e)
text_optional raw key allowed default (inr (s, e, p)) =
    (s, optional_enum_present raw key allowed default s e p)

-- No integer lies between 0.70 and 0.88.
no_integer_fraction : (m : ℤ) → ¬ InFraction 3152519739159347 52 7926335344172073 53 (finite m 0)
no_integer_fraction (pos m) h = omega arith
no_integer_fraction (negsuc m) h = h

fraction_sound :
    (raw : Fields) (x : Float)
    → optional_float raw "mem_fraction_static" mem_fraction_min mem_fraction_max
        mem_fraction_default
      ≡ ok x
    → MemFraction raw
fraction_sound raw x h =
    elim (optional_float_sound raw "mem_fraction_static" 3152519739159347 52 7926335344172073 53
      mem_fraction_default x h) [
        | inl (e, d) ↦ inl e
        | inr (inl (e, p)) ↦ inr (x, e, p)
        | inr (inr (n, e, f, p)) ↦
            let (m, g) = float_of_int-finite n x f in absurd (no_integer_fraction m (rw g at p))
      ]

fraction_complete :
    (raw : Fields)
    → MemFraction raw
    → (x : Float) × (optional_float raw "mem_fraction_static" mem_fraction_min mem_fraction_max
          mem_fraction_default
        ≡ ok x)
fraction_complete raw (inl e) = (mem_fraction_default, optional_float_absent raw _ _ _ _ _ _ e)
fraction_complete raw (inr (x, e, p)) = (x, optional_float_present raw _ _ _ _ _ _ x e p)

dtype_complete :
    (raw : Fields) (dtype : String)
    → TextIs raw "kv_cache_dtype" "bf16" dtype
    → Among dtype kv_cache_dtypes
    → optional_enum raw "kv_cache_dtype" kv_cache_dtypes "bf16" ≡ ok dtype
dtype_complete raw dtype (inl (e, f)) m = optional_enum_absent raw _ _ _ e ∙ ap ok f
dtype_complete raw dtype (inr e) m = optional_enum_present raw _ _ _ dtype e m

abbrev Accepted : Fields → String → Type 0
Accepted raw d =
    ((get raw "kv_cache_dtype" ≡ none) × ("bf16" ≡ d))
    ⊎ ((get raw "kv_cache_dtype" ≡ some (str d)) × Among d kv_cache_dtypes)

Accepted-text :
    (raw : Fields) (dtype d : String)
    → d ≡ dtype
    → Accepted raw d
    → TextIs raw "kv_cache_dtype" "bf16" dtype
Accepted-text raw dtype d same (inl (e, f)) = inl (e, cc)
Accepted-text raw dtype d same (inr (e, f)) = inr (cc)

Accepted-in :
    (raw : Fields) (dtype d : String) → d ≡ dtype → Accepted raw d → Among dtype kv_cache_dtypes
Accepted-in raw dtype d same (inl (e, f)) = inl (cc)
Accepted-in raw dtype d same (inr (e, f)) = rw same at f

pub check_limits_sound :
    (raw : Fields) (dtype : String) → check_limits raw ≡ ok dtype → Limits raw dtype
unfolding check_limits
check_limits_sound raw dtype h =
    bound (optional_int raw "max_running_requests" max_running_requests_rule) _ h λ n₁ e₁ h₁.
      bound (optional_int raw "chunked_prefill_size" chunked_prefill_rule) _ h₁ λ n₂ e₂ h₂.
        bound (optional_int raw "max_mamba_cache_size" mamba_cache_rule) _ h₂ λ n₃ e₃ h₃.
          bound
            (optional_float raw "mem_fraction_static" mem_fraction_min mem_fraction_max
              mem_fraction_default)
            _ h₃
            λ x e₄ h₄.
              bound (optional_enum raw "kv_cache_dtype" kv_cache_dtypes "bf16") _ h₄ λ d e₅ h₅.
                bound (validate_kv_calibration raw d) _ h₅ λ _ e₆ h₆.
                  bound (optional_enum raw "moe_backend" moe_backends "flashinfer_cutlass") _ h₆
                    λ m e₇ h₇.
                      let same : d ≡ dtype = cc in
                      record {
                        requests =
                            optional_rule raw _ max_running_requests_rule _ (λ n p. p.0) n₁ e₁;
                        prefill = optional_rule raw _ chunked_prefill_rule _ (λ n p. p.0) n₂ e₂;
                        mamba = optional_rule raw _ mamba_cache_rule _ (λ n p. (p.1, p.2)) n₃ e₃;
                        fraction = fraction_sound raw x e₄;
                        dtype_at =
                            Accepted-text raw dtype d same
                              (optional_enum_sound raw _ kv_cache_dtypes _ d e₅);
                        dtype_in =
                            Accepted-in raw dtype d same
                              (optional_enum_sound raw _ kv_cache_dtypes _ d e₅);
                        calibration = rw same at (validate_kv_calibration_sound raw d e₆);
                        moe = optional_text raw _ moe_backends _ m e₇;
                      }

pub check_limits_complete :
    (raw : Fields) (dtype : String) → Limits raw dtype → check_limits raw ≡ ok dtype
unfolding check_limits
check_limits_complete raw dtype c =
    let (n₁, e₁) =
      rule_optional raw "max_running_requests" max_running_requests_rule _ (pos 1) refl
        (λ n p. (p, tt, tt)) c.requests in
    let (n₂, e₂) =
      rule_optional raw "chunked_prefill_size" chunked_prefill_rule _ (pos 1024) refl
        (λ n p. (p, tt, tt)) c.prefill in
    let (n₃, e₃) =
      rule_optional raw "max_mamba_cache_size" mamba_cache_rule _ (pos 8) refl
        (λ n p. (tt, p.0, p.1)) c.mamba in
    let (x, e₄) = fraction_complete raw c.fraction in
    let (m, e₇) = text_optional raw "moe_backend" moe_backends "flashinfer_cutlass" c.moe in
    rw (
      e₁,
      e₂,
      e₃,
      e₄,
      dtype_complete raw dtype c.dtype_at c.dtype_in,
      validate_kv_calibration_complete raw dtype c.calibration,
      e₇,
    )
