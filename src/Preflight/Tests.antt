-- ===== src/Preflight/Tests.antt =====
-- A host that may serve, and the witnesses.
use qwen38_flash_next_nvidia.Prelude.{◌≡◌, refl, none, some, [], ◌∷◌, pos, List}
use qwen38_flash_next_nvidia.Json.{finite}
use qwen38_flash_next_nvidia.Preflight.{
  Request, Probes, Mount, Location, Gpu, mount_for, serve_phase, List, Statted, free, missing,
}
use qwen38_flash_next_nvidia.Preflight.Mounts.{IsMountOf, mount_for-IsMountOf}

abbrev ple : Location
ple = "ple" ∷ "cache" ∷ []

abbrev root_mount : Mount
root_mount = record { mount_point = []; fstype = "ext4"; source = "/dev/root" }

abbrev cache_mount : Mount
cache_mount = record { mount_point = "cache" ∷ []; fstype = "xfs"; source = "/dev/nvme0n1p1" }

abbrev mounts : List Mount
mounts = root_mount ∷ cache_mount ∷ []

abbrev request : Request
request = record {
  phase = serve_phase;
  model_bytes = 0;
  ple_bytes = 51200245760;
  ple_dir = some ple;
  build_root = none;
  build_allowance = 0;
}

abbrev gpu : Gpu
gpu = record {
  index = 0;
  name = "NVIDIA GB10";
  utilization_percent = finite (pos 0) 0;
  memory_used_mib = none;
}

abbrev only_cache : Location → Statted
only_cache [] = free 1000
only_cache (name ∷ []) = free 200000000000
only_cache _ = missing

abbrev probes : Probes
probes = record {
  machine = "aarch64";
  mem_available = some 115000000;
  gpu_state = some (record { gpus = gpu ∷ []; compute_apps = [] });
  mounts = some mounts;
  model_present = some 0;
  ple_present = some 0;
  statvfs = only_cache;
}

mounted : mount_for ple mounts ≡ some cache_mount
unfolding mount_for
mounted = refl

mount_for-IsMountOf_example : IsMountOf ple mounts cache_mount
mount_for-IsMountOf_example = mount_for-IsMountOf ple mounts cache_mount mounted
