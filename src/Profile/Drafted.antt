-- ===== src/Profile/Drafted.antt =====
-- The speculative section of a profile, as runtime/__init__.py checks it.
use qwen38_flash_next_nvidia.Prelude.{
  String, ◌≡◌, ◌⊎◌, inl, inr, ◌↔◌, true, false, ◌&&◌, Option, none, some, [], ◌∷◌, ℤ, pos, ◌≤ℤ◌, ok,
  arith, Bool-cases, bound, passed, =ₛ_iff,
}
use qwen38_flash_next_nvidia.Json.{Value, int, str, Fields, get, has, keys_within, has_all}
use qwen38_flash_next_nvidia.Profile.Checks.{optional_int, optional_enum}
use qwen38_flash_next_nvidia.Profile.CheckLaws.{
  Passes, optional_int_sound, optional_int_present, optional_enum_present,
}
use qwen38_flash_next_nvidia.Profile.Contract.{OptionalText, Draft}
use qwen38_flash_next_nvidia.Profile.Limited.{optional_text}
use qwen38_flash_next_nvidia.Profile.Validate.{
  is_text, draft_dtypes, draft_quantizations, steps_rule, check_draft_dtype,
  check_draft_quantization, check_draft,
}

is_text_iff : (v : Option Value) (t : String) → (is_text v t ≡ true) ↔ (v ≡ some (str t))
unfolding is_text
is_text_iff (some (str s)) t = ground (arith, =ₛ_iff s t)
is_text_iff none t = (λ h. cc, λ h. cc)
is_text_iff (some _) t = (λ h. cc, λ h. cc)

has-none : (fs : Fields) (key : String) → has fs key ≡ false → get fs key ≡ none
unfolding has
has-none fs key h = ground arith

none-has : (fs : Fields) (key : String) → get fs key ≡ none → has fs key ≡ false
unfolding has
none-has fs key h = ground arith

some-has : (fs : Fields) (key : String) (v : Value) → get fs key ≡ some v → has fs key ≡ true
unfolding has
some-has fs key v h = ground arith

module _ (spec : Fields) (dtype : String) where
  check_draft_dtype_sound :
      check_draft_dtype spec dtype ≡ ok tt
      → OptionalText spec "kv_cache_dtype" draft_dtypes
        × (get spec "kv_cache_dtype" ≡ some (str "nvfp4") → dtype ≡ "nvfp4")
  unfolding check_draft_dtype
  check_draft_dtype_sound h = elim (Bool-cases (has spec "kv_cache_dtype")) [
    | inl there ↦
        bound (optional_enum spec "kv_cache_dtype" draft_dtypes "bf16") _ (rw there at h) λ s e h₁.
          (
            optional_text spec "kv_cache_dtype" draft_dtypes "bf16" s e,
            λ g. ground (
              arith,
              (is_text_iff (get spec "kv_cache_dtype") "nvfp4").1 g,
              =ₛ_iff dtype "nvfp4",
            ),
          )
    | inr gone ↦ (
      inl (has-none spec "kv_cache_dtype" gone),
      λ g. ground (arith, has-none spec "kv_cache_dtype" gone),
    )
  ]

  check_draft_dtype_complete :
      OptionalText spec "kv_cache_dtype" draft_dtypes
      → (get spec "kv_cache_dtype" ≡ some (str "nvfp4") → dtype ≡ "nvfp4")
      → check_draft_dtype spec dtype ≡ ok tt
  unfolding check_draft_dtype
  check_draft_dtype_complete (inl e) n = rw (none-has spec "kv_cache_dtype" e)
  check_draft_dtype_complete (inr (s, e, m)) n =
      rw
        (
          some-has spec "kv_cache_dtype" (str s) e,
          optional_enum_present spec "kv_cache_dtype" draft_dtypes "bf16" s e m,
        )
        (ground (arith, is_text_iff (get spec "kv_cache_dtype") "nvfp4", n, =ₛ_iff dtype "nvfp4"))

  check_draft_quantization_sound :
      check_draft_quantization spec ≡ ok tt
      → OptionalText spec "draft_quantization" draft_quantizations
  unfolding check_draft_quantization
  check_draft_quantization_sound h = elim (Bool-cases (has spec "draft_quantization")) [
    | inl there ↦
        bound (optional_enum spec "draft_quantization" draft_quantizations "modelopt_mixed") _
          (rw there at h)
          λ s e h₁. optional_text spec "draft_quantization" draft_quantizations "modelopt_mixed" s e
    | inr gone ↦ inl (has-none spec "draft_quantization" gone)
  ]

  check_draft_quantization_complete :
      OptionalText spec "draft_quantization" draft_quantizations
      → check_draft_quantization spec ≡ ok tt
  unfolding check_draft_quantization
  check_draft_quantization_complete (inl e) = rw (none-has spec "draft_quantization" e)
  check_draft_quantization_complete (inr (s, e, m)) = rw (
    some-has spec "draft_quantization" (str s) e,
    optional_enum_present spec "draft_quantization" draft_quantizations "modelopt_mixed" s e m,
  )

  pub check_draft_sound : check_draft spec dtype ≡ ok tt → Draft spec dtype
  unfolding check_draft
  check_draft_sound h =
      passed
        (has_all spec ("steps" ∷ [])
          && keys_within spec ("steps" ∷ "kv_cache_dtype" ∷ "draft_quantization" ∷ []))
        _ _ h
        λ a h₁. bound (check_draft_dtype spec dtype) _ h₁ λ _ b h₂.
          bound (check_draft_quantization spec) _ h₂ λ _ c h₃.
            bound (optional_int spec "steps" steps_rule) _ h₃ λ n d h₄.
              let (e, p) = steps_present n (optional_int_sound spec "steps" steps_rule n d) in
              record {
                steps = n;
                steps_at = e;
                steps_bounds = p;
                closed = ground arith;
                draft_dtype = (check_draft_dtype_sound b).0;
                nvfp4 = (check_draft_dtype_sound b).1;
                quantization = check_draft_quantization_sound c;
              }
    where
      steps_present :
          (n : ℤ)
          → ((get spec "steps" ≡ none) × (steps_rule.default ≡ some n))
            ⊎ ((get spec "steps" ≡ some (int n)) × Passes steps_rule n)
          → (get spec "steps" ≡ some (int n)) × ((pos 1 ≤ℤ n) × (n ≤ℤ pos 3))
      steps_present n (inl (e, d)) = absurd (ground arith)
      steps_present n (inr (e, p)) = (e, (p.1, p.2))

  pub check_draft_complete : Draft spec dtype → check_draft spec dtype ≡ ok tt
  unfolding check_draft has_all
  check_draft_complete c = rw (
    some-has spec "steps" (int c.steps) c.steps_at,
    c.closed,
    check_draft_dtype_complete c.draft_dtype c.nvfp4,
    check_draft_quantization_complete c.quantization,
    optional_int_present spec "steps" steps_rule c.steps c.steps_at
        (tt, c.steps_bounds.0, c.steps_bounds.1),
  )
