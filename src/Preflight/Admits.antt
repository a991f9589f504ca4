-- ===== src/Preflight/Admits.antt =====
-- When the preflight of a serve phase passes (scripts/preflight.py).
use qwen38_flash_next_nvidia.Prelude.{◌≡◌, ℕ, true, false, some, List, ◌+◌, ◌-◌, ◌*◌, ◌≤◌}
use qwen38_flash_next_nvidia.Preflight.{
  Request, Probes, Mount, Location, fs_identity, FsIdentity, GpuState, is_rejected,
}
use qwen38_flash_next_nvidia.Preflight.Passed.{IsIdleGb10}

-- The filesystem of the target has room for what is missing and for 32 GiB more.
pub record HasRoom (identity : FsIdentity) (missing_bytes : ℕ) : Type 0 where
  pub free_bytes : ℕ
  pub free_eq : identity.free_bytes ≡ some free_bytes
  pub known : identity.known ≡ true
  pub room : missing_bytes + 32 * 1073741824 ≤ free_bytes
  pub local : is_rejected identity.fstype ≡ false

-- A host that may serve.
pub record MayServe (request : Request) (target : Location) (probes : Probes) : Type 0 where
  pub arch : probes.machine ≡ "aarch64"
  pub available : ℕ
  pub available_eq : probes.mem_available ≡ some available
  pub enough_ram : 104 * 1073741824 ≤ available * 1024
  pub state : GpuState
  pub state_eq : probes.gpu_state ≡ some state
  pub gpu : IsIdleGb10 state
  pub mounts : List Mount
  pub mounts_eq : probes.mounts ≡ some mounts
  pub model_present : ℕ
  pub model_present_eq : probes.model_present ≡ some model_present
  pub ple_present : ℕ
  pub ple_present_eq : probes.ple_present ≡ some ple_present
  pub room : HasRoom (fs_identity target mounts probes.statvfs) (request.ple_bytes - ple_present)
