-- ===== src/Preflight/Passed.antt =====
-- What the checks of the machine, the memory and the GPU say when they pass (scripts/preflight.py).
use qwen38_flash_next_nvidia.Prelude.{pos, ◌||◌}
use qwen38_flash_next_nvidia.Entrypoint.{eq_float}
use qwen38_flash_next_nvidia.Prelude.{
  ◌≡◌, refl, ℕ, String, Bool, true, false, ◌&&◌, Option, none, some, List, [], ◌∷◌, ◌++◌, ◌*◌, ◌≤◌,
  ◌==◌, ◌=ₛ◌, =ₛ_iff, all, inl, inr, ◌⊎◌, both, Bool-cases, arith, length,
}
use qwen38_flash_next_nvidia.Preflight.{
  Gpu, is_pass, check_of, is_one_gb10, GpuState, ram_checks, arch_checks, eq_float, is_idle, finite,
  pos, gpu_checks, is_light,
}

-- The GPU is the one GB10 of the host, and idle.
pub record IsIdleGb10 (state : GpuState) : Type 0 where
  pub gpu : Gpu
  pub only : state.gpus ≡ gpu ∷ []
  pub first : gpu.index ≡ 0
  pub is_gb10 : (gpu.name ≡ "GB10") ⊎ (gpu.name ≡ "NVIDIA GB10")
  pub idle : eq_float gpu.utilization_percent (finite (pos 0) 0) ≡ true
  pub light : is_light gpu.memory_used_mib ≡ true
  pub no_apps : state.compute_apps ≡ []

pub all-append :
    {A : Type 0} (p : A → Bool) (xs ys : List A) → all p (xs ++ ys) ≡ (all p xs && all p ys)
all-append p [] ys = refl
all-append p (x ∷ xs) ys = rw (all-append p xs ys) (and_assoc (p x) (all p xs) (all p ys))
  where
    and_assoc : (a b c : Bool) → (a && (b && c)) ≡ ((a && b) && c)
    and_assoc true b c = refl
    and_assoc false b c = refl

is_pass-check_of :
    (name : String) (okay known : Bool) → is_pass (check_of name okay known) ≡ (known && okay)
is_pass-check_of name true true = refl
is_pass-check_of name true false = refl
is_pass-check_of name false true = refl
is_pass-check_of name false false = refl

pub arch-passed :
    (machine : String) → all is_pass (arch_checks machine) ≡ true → machine ≡ "aarch64"
arch-passed machine h = elim (Bool-cases (machine =ₛ "aarch64")) [
  | inl e ↦ (=ₛ_iff machine "aarch64").0 e
  | inr e ↦ ground arith
]

pub ram-passed :
    (o : Option ℕ)
    → all is_pass (ram_checks o) ≡ true
    → (n : ℕ) × (o ≡ some n) × (104 * 1073741824 ≤ n * 1024)
ram-passed none h = cc
ram-passed (some n) h = (n, refl, ground arith)

empty-length : (xs : List String) → (length xs == 0) ≡ true → xs ≡ []
empty-length [] h = refl
empty-length (x ∷ xs) h = ground arith

gpus-IsIdleGb10 :
    (gpus : List Gpu) (apps : List String)
    → is_one_gb10 gpus ≡ true
    → is_idle gpus ≡ true
    → (length apps == 0) ≡ true
    → IsIdleGb10 (record { gpus = gpus; compute_apps = apps })
gpus-IsIdleGb10 [] apps a b c = cc
gpus-IsIdleGb10 (gpu ∷ []) apps a b c =
    let (index, name) = both (gpu.index == 0) _ a in
    let (idle, light) = both (eq_float gpu.utilization_percent (finite (pos 0) 0)) _ b in
    record {
      gpu = gpu;
      only = refl;
      first = ground arith;
      is_gb10 = either name;
      idle = idle;
      light = light;
      no_apps = empty-length apps c;
    }
  where
    either :
        (gpu.name =ₛ "GB10" || gpu.name =ₛ "NVIDIA GB10") ≡ true
        → (gpu.name ≡ "GB10") ⊎ (gpu.name ≡ "NVIDIA GB10")
    either h = elim (Bool-cases (gpu.name =ₛ "GB10")) [
      | inl e ↦ inl ((=ₛ_iff gpu.name "GB10").0 e)
      | inr e ↦ inr ((=ₛ_iff gpu.name "NVIDIA GB10").0 (ground arith))
    ]
gpus-IsIdleGb10 (gpu ∷ other ∷ gpus) apps a b c = cc

passed_check :
    (name : String) (okay : Bool) → is_pass (check_of name okay true) ≡ true → okay ≡ true
passed_check name true h = refl
passed_check name false h = cc

pub gpu-passed :
    (o : Option GpuState)
    → all is_pass (gpu_checks o) ≡ true
    → (state : GpuState) × (o ≡ some state) × IsIdleGb10 state
gpu-passed none h = cc
gpu-passed (some state) h =
    let (a, rest) = both (is_pass (check_of "gpu_inventory" (is_one_gb10 state.gpus) true)) _ h in
    let (b, rest') = both (is_pass (check_of "gpu_idle" (is_idle state.gpus) true)) _ rest in
    let (c, end_) =
      both (is_pass (check_of "gpu_compute_apps" (length state.compute_apps == 0) true)) _ rest' in
    (
      state,
      refl,
      gpus-IsIdleGb10 state.gpus state.compute_apps (passed_check "gpu_inventory" _ a)
          (passed_check "gpu_idle" _ b) (passed_check "gpu_compute_apps" _ c),
    )
