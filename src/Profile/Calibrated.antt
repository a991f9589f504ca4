-- ===== src/Profile/Calibrated.antt =====
-- `_validate_kv_calibration` of runtime/__init__.py accepts exactly what the contract says.
use qwen38_flash_next_nvidia.Prelude.{
  String, ◌≡◌, refl, ◌≢◌, ◌⊎◌, inl, inr, true, not, ◌||◌, Option, none, some, [], ◌∷◌, ok, arith,
  is_hex, is_basename, Option-cases, bound, not_refused, ◌=ₛ◌, =ₛ_iff, if◌then◌else◌,
}
use qwen38_flash_next_nvidia.Json.{Value, str, obj, Fields, get, keys_are}
use qwen38_flash_next_nvidia.Profile.Checks.{require_enum, validate_kv_calibration}
use qwen38_flash_next_nvidia.Profile.CheckLaws.{Among, require_enum_iff}
use qwen38_flash_next_nvidia.Profile.Contract.{Calibration}
use qwen38_flash_next_nvidia.Profile.Checks.{
  basename_value, sha256_value, collect_calibration, frozen_calibration, calibration_object,
}

basename_value_sound :
    (v : Option Value)
    → basename_value v ≡ ok tt
    → (s : String) × (v ≡ some (str s)) × (s ≢ ".") × (s ≢ "..") × (is_basename s ≡ true)
unfolding basename_value
basename_value_sound (some (str s)) h =
    (s, refl, ground (arith, =ₛ_iff s "."), ground (arith, =ₛ_iff s ".."), ground arith)
basename_value_sound none h = cc
basename_value_sound (some _) h = cc

sha256_value_sound :
    (v : Option Value)
    → sha256_value v ≡ ok tt
    → (s : String) × (v ≡ some (str s)) × (is_hex 64 s ≡ true)
unfolding sha256_value
sha256_value_sound (some (str s)) h = (s, refl, ground arith)
sha256_value_sound none h = cc
sha256_value_sound (some _) h = cc

abbrev Collected : Fields → String → Type 0
Collected value dtype =
    (get value "mode" ≡ some (str "collect"))
    × (keys_are value ("mode" ∷ []) ≡ true)
    × (dtype ≡ "bf16")

abbrev Frozen : Fields → String → Type 0
Frozen value dtype =
    (file digest : String) × (get value "mode" ≡ some (str "frozen"))
    × (keys_are value ("mode" ∷ "file" ∷ "sha256" ∷ []) ≡ true)
    × (dtype ≡ "nvfp4")
    × (get value "file" ≡ some (str file))
    × (file ≢ ".")
    × (file ≢ "..")
    × (is_basename file ≡ true)
    × (get value "sha256" ≡ some (str digest))
    × (is_hex 64 digest ≡ true)

module _ (value : Fields) (dtype : String) where
  collect_calibration_sound :
      collect_calibration value dtype ≡ ok tt
      → (keys_are value ("mode" ∷ []) ≡ true) × (dtype ≡ "bf16")
  unfolding collect_calibration
  collect_calibration_sound h = ground (arith, =ₛ_iff dtype "bf16")

  frozen_calibration_sound :
      get value "mode" ≡ some (str "frozen")
      → frozen_calibration value dtype ≡ ok tt
      → Frozen value dtype
  unfolding frozen_calibration
  frozen_calibration_sound m h =
      not_refused (not (keys_are value ("mode" ∷ "file" ∷ "sha256" ∷ [])) || not (dtype =ₛ "nvfp4"))
        _ _ h
        λ a h₁. bound (basename_value (get value "file")) _ h₁ λ _ b h₂.
          let (file, b₁, b₂, b₃, b₄) = basename_value_sound (get value "file") b in
          let (digest, c₁, c₂) = sha256_value_sound (get value "sha256") h₂ in
          (
            file,
            digest,
            m,
            ground arith,
            ground (arith, =ₛ_iff dtype "nvfp4"),
            b₁,
            b₂,
            b₃,
            b₄,
            c₁,
            c₂,
          )

  calibration_object_sound :
      calibration_object (obj value) dtype ≡ ok tt → Collected value dtype ⊎ Frozen value dtype
  unfolding calibration_object
  calibration_object_sound h =
      bound (require_enum value "mode" ("collect" ∷ "frozen" ∷ [])) _ h λ mode e h₁.
        split mode ((require_enum_iff value "mode" ("collect" ∷ "frozen" ∷ []) mode).0 e).0
          ((require_enum_iff value "mode" ("collect" ∷ "frozen" ∷ []) mode).0 e).1 h₁
    where
      split :
          (mode : String)
          → get value "mode" ≡ some (str mode)
          → Among mode ("collect" ∷ "frozen" ∷ [])
          → (if mode =ₛ "collect"
              then collect_calibration value dtype
              else frozen_calibration value dtype)
            ≡ ok tt
          → Collected value dtype ⊎ Frozen value dtype
      split mode g (inl p) k =
          let (a, b) = collect_calibration_sound (rw p at k) in inl (rw p at g, a, b)
      split mode g (inr (inl p)) k = inr (frozen_calibration_sound (rw p at g) (rw p at k))
      split mode g (inr (inr p)) k = absurd p

  calibration_object_complete :
      Collected value dtype ⊎ Frozen value dtype → calibration_object (obj value) dtype ≡ ok tt
  unfolding calibration_object
  calibration_object_complete (inl (m, a, b)) =
      rw ((require_enum_iff value "mode" ("collect" ∷ "frozen" ∷ []) "collect").1 (m, inl refl))
        (unfold collect_calibration in rw (a, b))
  calibration_object_complete (inr (file, digest, m, a, b, f₁, f₂, f₃, f₄, d₁, d₂)) =
      rw
        ((require_enum_iff value "mode" ("collect" ∷ "frozen" ∷ []) "frozen").1 (m, inr (inl refl)))
        (unfold frozen_calibration basename_value sha256_value in
          ground (arith, =ₛ_iff file ".", =ₛ_iff file "..", =ₛ_iff dtype "nvfp4"))

module _ (raw : Fields) (dtype : String) where
  pub validate_kv_calibration_sound :
      validate_kv_calibration raw dtype ≡ ok tt → Calibration raw dtype
  unfolding validate_kv_calibration
  validate_kv_calibration_sound h = elim (Option-cases (get raw "kv_calibration")) [
    | inl e ↦ inl (e, ground (arith, =ₛ_iff dtype "nvfp4"))
    | inr (obj value, e) ↦ inr (value, e, calibration_object_sound value dtype (ground arith))
    | inr (v, e) ↦ absurd (ground arith)
  ]

  pub validate_kv_calibration_complete :
      Calibration raw dtype → validate_kv_calibration raw dtype ≡ ok tt
  unfolding validate_kv_calibration
  validate_kv_calibration_complete (inl (e, ne)) = ground (arith, =ₛ_iff dtype "nvfp4")
  validate_kv_calibration_complete (inr (value, e, c)) =
      ground (arith, calibration_object_complete value dtype c)
