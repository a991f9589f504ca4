-- ===== src/Profile/Values.antt =====
-- What the launcher may rely on in the values of a profile (runtime/__init__.py).
use mathlib.Core.Path.{subst, ap}
use qwen38_flash_next_nvidia.Prelude.{
  String, ◌≡◌, ◌⊎◌, inl, inr, refl, ◌∙◌, none, some, [], ◌∷◌, ℤ, pos, ◌≤ℤ◌, arith, ok, bound, sym,
  ℕ, sym,
}
use qwen38_flash_next_nvidia.Json.{null, int, str, obj, Fields, end, Float, finite, get}
use qwen38_flash_next_nvidia.Profile.{
  Profile, int_or, str_or, str?, object_or_empty, float_or, profile_of,
}
use qwen38_flash_next_nvidia.Profile.CheckLaws.{Among, InFraction}
use qwen38_flash_next_nvidia.Profile.Contract.{MeetsContract, MemFraction, OptionalInt, TextIs}
use qwen38_flash_next_nvidia.Profile.Validate.{mem_fraction_default}

-- A draft of one to three steps in the mode nextn, and no step in the mode ar.
abbrev pub Drafts : Profile → Type 0
Drafts p =
    ((p.mode ≡ "nextn") × (pos 1 ≤ℤ p.speculative_steps) × (p.speculative_steps ≤ℤ pos 3))
    ⊎ ((p.mode ≡ "ar") × (p.speculative_steps ≡ pos 0))

pub record IsLaunchable (p : Profile) : Type 0 where
  pub total : p.max_total_tokens ≡ p.context_length
  pub context_in : Among p.context_length (pos 32768 ∷ pos 262144 ∷ [])
  pub requests_in : Among p.max_running_requests (pos 1 ∷ pos 2 ∷ pos 4 ∷ pos 8 ∷ [])
  pub drafts : Drafts p
  pub calibrated : p.kv_cache_dtype ≡ "nvfp4" → p.kv_calibration_mode ≡ some "frozen"
  pub number : (m : ℤ) × (k : ℕ) × (p.mem_fraction_static ≡ finite m k)

module _ (fs : Fields) where
  int_or-some : (k : String) (n default : ℤ) → get fs k ≡ some (int n) → int_or fs k default ≡ n
  unfolding int_or
  int_or-some k n default e = ground arith

  str_or-some : (k s default : String) → get fs k ≡ some (str s) → str_or fs k default ≡ s
  unfolding str_or
  str_or-some k s default e = ground arith

  int_or-optional :
      (k : String) (default : ℤ) (P : ℤ → Type 0)
      → P default
      → OptionalInt fs k P
      → P (int_or fs k default)
  unfolding int_or
  int_or-optional k default P d (inl e) = ground arith
  int_or-optional k default P d (inr (n, e, p)) = ground arith

  object_or_empty-some :
      (k : String) (v : Fields) → get fs k ≡ some (obj v) → object_or_empty fs k ≡ v
  unfolding object_or_empty
  object_or_empty-some k v e = ground arith

  str?-some : (k s : String) → get fs k ≡ some (str s) → str? fs k ≡ some s
  unfolding str?
  str?-some k s e = ground arith

  fraction_number :
      (x : Float)
      → MemFraction fs
      → float_or fs "mem_fraction_static" mem_fraction_default ≡ ok x
      → (m : ℤ) × (k : ℕ) × (x ≡ finite m k)
  unfolding float_or
  fraction_number x (inl e) h = (pos 3602879701896397, 52, ground arith)
  fraction_number x (inr (y, e, p)) h = of_finite y p (ground arith)
    where
      of_finite :
          (y : Float)
          → InFraction 3152519739159347 52 7926335344172073 53 y
          → y ≡ x
          → (m : ℤ) × (k : ℕ) × (x ≡ finite m k)
      of_finite (finite (pos m) k) p e = (pos m, k, sym e)
      of_finite _ p e = absurd p

  object_or_empty-none :
      (k : String) → (get fs k ≡ none) ⊎ (get fs k ≡ some null) → object_or_empty fs k ≡ end
  unfolding object_or_empty
  object_or_empty-none k (inl e) = ground arith
  object_or_empty-none k (inr e) = ground arith

  str_or-TextIs : (k default s : String) → TextIs fs k default s → str_or fs k default ≡ s
  unfolding str_or
  str_or-TextIs k default s (inl (e, d)) = ground arith
  str_or-TextIs k default s (inr e) = ground arith

int_or-end : (k : String) (default : ℤ) → int_or end k default ≡ default
unfolding int_or get
int_or-end k default = refl

module _ (fs : Fields) (p : Profile) (h : profile_of fs ≡ ok p) where
  -- The fields of the record, as `profile_of` reads them.
  abbrev Reads : Type 0
  Reads =
      (p.context_length ≡ int_or fs "context_length" (pos 0))
      × (p.max_total_tokens ≡ int_or fs "max_total_tokens" (pos 0))
      × (p.max_running_requests ≡ int_or fs "max_running_requests" (pos 1))
      × (p.mode ≡ str_or fs "mode" "")
      × (p.speculative_steps ≡ int_or (object_or_empty fs "speculative") "steps" (pos 0))
      × (p.kv_cache_dtype ≡ str_or fs "kv_cache_dtype" "bf16")
      × (p.kv_calibration_mode ≡ str? (object_or_empty fs "kv_calibration") "mode")
      × (float_or fs "mem_fraction_static" mem_fraction_default ≡ ok p.mem_fraction_static)

  reads : Reads
  unfolding profile_of
  reads = bound (float_or fs "mem_fraction_static" mem_fraction_default) _ h λ x e k.
      let same : x ≡ p.mem_fraction_static = cc in (cc, cc, cc, cc, cc, cc, cc, e ∙ ap ok same)

  module _ (c : MeetsContract fs) where
    mode_read : p.mode ≡ c.mode
    mode_read = reads.3 ∙ str_or-some fs "mode" c.mode "" c.identity.mode_at

    context_read : p.context_length ≡ c.identity.context
    context_read =
        reads.0 ∙ int_or-some fs "context_length" c.identity.context (pos 0) c.identity.context_at

    Drafts-read : Drafts p
    Drafts-read = elim c.speculation [
      | inl (m, (spec, at, d)) ↦
          let steps : p.speculative_steps ≡ d.steps =
            reads.4
            ∙ ap (λ s. int_or s "steps" (pos 0)) (object_or_empty-some fs "speculative" spec at)
            ∙ int_or-some spec "steps" d.steps (pos 0) d.steps_at in
          inl (
            mode_read ∙ m,
            subst (λ n. pos 1 ≤ℤ n) (sym steps) d.steps_bounds.0,
            subst (λ n. n ≤ℤ pos 3) (sym steps) d.steps_bounds.1,
          )
      | inr (m, at) ↦ inr (
        mode_read ∙ m,
        reads.4
            ∙ ap (λ s. int_or s "steps" (pos 0)) (object_or_empty-none fs "speculative" at)
            ∙ int_or-end "steps" (pos 0),
      )
    ]

    calibrated_read : p.kv_cache_dtype ≡ "nvfp4" → p.kv_calibration_mode ≡ some "frozen"
    calibrated_read e =
        let dtype : c.dtype ≡ "nvfp4" =
          sym (reads.5 ∙ str_or-TextIs fs "kv_cache_dtype" "bf16" c.dtype c.limits.dtype_at) ∙ e in
        elim c.limits.calibration [
          | inl (at, other) ↦ absurd (other dtype)
          | inr (value, at, inl (m, exact, bf16)) ↦ absurd (never c.dtype bf16 dtype)
          | inr (value, at, inr frozen) ↦
              reads.6
              ∙ ap (λ s. str? s "mode") (object_or_empty-some fs "kv_calibration" value at)
              ∙ str?-some value "mode" "frozen" frozen.2
        ]
      where
        never : (s : String) → s ≡ "bf16" → s ≡ "nvfp4" → ⊥
        never s e e' = cc

    -- The values of a profile made of a dict that meets the contract.
    pub profile_of-IsLaunchable : IsLaunchable p
    profile_of-IsLaunchable = record {
      total =
          reads.1
          ∙ int_or-some fs "max_total_tokens" c.identity.context (pos 0) c.identity.total_at
          ∙ sym context_read;
      context_in =
          subst (λ n. Among n (pos 32768 ∷ pos 262144 ∷ [])) (sym context_read)
            c.identity.context_in;
      requests_in =
          subst (λ n. Among n (pos 1 ∷ pos 2 ∷ pos 4 ∷ pos 8 ∷ [])) (sym reads.2)
            (int_or-optional fs "max_running_requests" (pos 1)
              (λ n. Among n (pos 1 ∷ pos 2 ∷ pos 4 ∷ pos 8 ∷ [])) (inl refl) c.limits.requests);
      drafts = Drafts-read;
      calibrated = calibrated_read;
      number = fraction_number fs p.mem_fraction_static c.limits.fraction reads.7;
    }
