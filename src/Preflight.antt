-- ===== src/Preflight.antt =====
-- `run_preflight` of scripts/preflight.py. The probes of the host are input: the machine's name, the
-- MemAvailable counter, the state of the GPUs, the mounts, the bytes present, and `statvfs`. Sizes are
-- bytes, as the divisions by a power of 2 and the products with it are exact below 2 ** 53.
pub mod Admits
pub mod Mounts
pub mod Passed
mod Tests
use qwen38_flash_next_nvidia.Prelude.{pos}
use qwen38_flash_next_nvidia.Prelude.{
  ℕ, String, Bool, true, false, not, ◌&&◌, ◌||◌, Option, none, some, List, [], ◌∷◌, ◌++◌, map, ◌+◌,
  ◌-◌, ◌*◌, ltb, leb, ◌==◌, ◌=ₛ◌, all, codes, length, if◌then◌else◌, pos,
}
use qwen38_flash_next_nvidia.Json.{Float, finite, leb_float, is_finite}
use qwen38_flash_next_nvidia.Entrypoint.{eq_float, eq_optional}

-- The names on the way to a place in an absolute path, the last first.
abbrev pub Location : Type 0
Location = List String

pub record Mount : Type 0 where
  pub mount_point : Location
  pub fstype : String
  pub source : String

unfoldable pub same_location : Location → Location → Bool
same_location [] [] = true
same_location (a ∷ as_) (b ∷ bs) = a =ₛ b && same_location as_ bs
same_location _ _ = false

-- `target == mount_point or target.startswith(mount_point + "/")`
unfoldable pub is_below : Location → Location → Bool
unfolding same_location
is_below [] mount = same_location [] mount
is_below (name ∷ target) mount = same_location (name ∷ target) mount || is_below target mount

-- A deeper mount point of the same target is a longer one.
abbrev pub is_deeper : Option Mount → Mount → Bool
is_deeper none entry = true
is_deeper (some best) entry = ltb (length best.mount_point) (length entry.mount_point)

-- The loop of `_mount_for`, with the best entry so far
unfoldable pub deepest : Location → Option Mount → List Mount → Option Mount
unfolding is_below
deepest target best [] = best
deepest target best (entry ∷ mounts) =
    deepest target
      (if is_below target entry.mount_point && is_deeper best entry then some entry else best)
      mounts

-- `_mount_for`
unfoldable pub mount_for : Location → List Mount → Option Mount
unfolding deepest
mount_for target mounts = deepest target none mounts

-- What `statvfs` gives: free bytes, FileNotFoundError or another OSError.
pub data Statted : Type 0 where
  free : ℕ → Statted
  missing unreadable : Statted

-- The loop of `_fs_identity`, which goes up to an existing directory.
unfoldable pub free_at : (Location → Statted) → Location → Option ℕ
free_at statvfs [] = elim (statvfs []) [ free n ↦ some n | missing ↦ none | unreadable ↦ none ]
free_at statvfs (name ∷ parent) =
    let above = free_at statvfs parent in
    elim (statvfs (name ∷ parent)) [ free n ↦ some n | missing ↦ above | unreadable ↦ none ]

pub record FsIdentity : Type 0 where
  pub fstype : Option String
  pub source : Option String
  pub known : Bool
  pub free_bytes : Option ℕ

abbrev pub is_known : Option ℕ → Bool
is_known none = false
is_known (some n) = true

-- `_fs_identity`, of the entry found
abbrev pub identity_of : (Location → Statted) → Location → Option Mount → FsIdentity
identity_of statvfs target none = record {
  fstype = none;
  source = none;
  known = false;
  free_bytes = none;
}
identity_of statvfs target (some entry) = record {
  fstype = some entry.fstype;
  source = some entry.source;
  known = is_known (free_at statvfs target);
  free_bytes = free_at statvfs target;
}

unfoldable pub fs_identity : Location → List Mount → (Location → Statted) → FsIdentity
unfolding mount_for free_at
fs_identity target mounts statvfs = identity_of statvfs target (mount_for target mounts)

-- A row of `allowances`, with the filesystem as its key
pub record DiskRow : Type 0 where
  pub identity : FsIdentity
  pub required_bytes : ℕ

abbrev pub same_key : FsIdentity → FsIdentity → Bool
same_key a b = eq_optional a.source b.source && eq_optional a.fstype b.fstype

-- `allowances.setdefault(key, ...)` and `row["required_bytes"] += ...`
unfoldable pub add_charge : FsIdentity → ℕ → List DiskRow → List DiskRow
add_charge identity bytes [] = record { identity = identity; required_bytes = bytes } ∷ []
add_charge identity bytes (row ∷ rows) =
    if same_key row.identity identity
    then record { identity = row.identity; required_bytes = row.required_bytes + bytes } ∷ rows
    else row ∷ add_charge identity bytes rows

module _ (mounts : List Mount) (statvfs : Location → Statted) where
  -- `_charge`
  unfoldable pub charge : Option Location → ℕ → List DiskRow → List DiskRow
  unfolding add_charge fs_identity
  charge none bytes rows = rows
  charge (some target) bytes rows =
      if bytes == 0 then rows else add_charge (fs_identity target mounts statvfs) bytes rows

pub data Phase : Type 0 where
  build_phase serve_phase : Phase

pub record Request : Type 0 where
  pub phase : Phase
  pub model_bytes : ℕ
  pub ple_bytes : ℕ
  pub ple_dir : Option Location
  pub build_root : Option Location
  pub build_allowance : ℕ

pub record Gpu : Type 0 where
  pub index : ℕ
  pub name : String
  pub utilization_percent : Float
  pub memory_used_mib : Option Float

pub record GpuState : Type 0 where
  pub gpus : List Gpu
  pub compute_apps : List String

-- What the probes give, `none` for what is not known.
pub record Probes : Type 0 where
  pub machine : String
  pub mem_available : Option ℕ
  pub gpu_state : Option GpuState
  pub mounts : Option (List Mount)
  pub model_present : Option ℕ
  pub ple_present : Option ℕ
  pub statvfs : Location → Statted

pub data Status : Type 0 where
  pass fail unknown : Status

pub record Check : Type 0 where
  pub name : String
  pub status : Status

-- `_add_check`
abbrev pub check_of : String → Bool → Bool → Check
check_of name ok known = record {
  name = name;
  status = if known then (if ok then pass else fail) else unknown;
}

abbrev pub gib : ℕ
gib = 1073741824

abbrev pub arch_checks : String → List Check
arch_checks machine = check_of "arch" (machine =ₛ "aarch64") (not (machine =ₛ "")) ∷ []

-- The counter is in kB.
abbrev pub ram_checks : Option ℕ → List Check
ram_checks none = check_of "ram_available" false false ∷ []
ram_checks (some kb) = check_of "ram_available" (leb (104 * gib) (kb * 1024)) true ∷ []

abbrev pub is_one_gb10 : List Gpu → Bool
is_one_gb10 (gpu ∷ []) = gpu.index == 0 && (gpu.name =ₛ "GB10" || gpu.name =ₛ "NVIDIA GB10")
is_one_gb10 _ = false

abbrev pub is_light : Option Float → Bool
is_light none = true
is_light (some used) = is_finite used && leb_float used (finite (pos 256) 0)

abbrev pub is_idle : List Gpu → Bool
is_idle [] = false
is_idle (gpu ∷ gpus) =
    eq_float gpu.utilization_percent (finite (pos 0) 0) && is_light gpu.memory_used_mib

abbrev pub gpu_checks : Option GpuState → List Check
gpu_checks none =
    check_of "gpu_inventory" false false
    ∷ check_of "gpu_idle" false false
    ∷ check_of "gpu_compute_apps" false false
    ∷ []
gpu_checks (some state) =
    check_of "gpu_inventory" (is_one_gb10 state.gpus) true
    ∷ check_of "gpu_idle" (is_idle state.gpus) true
    ∷ check_of "gpu_compute_apps" (length state.compute_apps == 0) true
    ∷ []

abbrev pub disk_reserve : ℕ
disk_reserve = 32 * gib

-- The charges of the phase; a subtraction stops at 0, as `max(0, ...)` does. They have one target, so
-- that there is at most one row and `sorted` has nothing to do.
unfoldable pub disk_rows : Request → List Mount → (Location → Statted) → ℕ → ℕ → List DiskRow
unfolding charge
disk_rows request mounts statvfs model_present ple_present = elim request.phase [
  | build_phase ↦ charge mounts statvfs request.build_root disk_reserve (
      charge mounts statvfs request.build_root request.build_allowance (
        charge mounts statvfs request.build_root (request.ple_bytes - ple_present)
          (charge mounts statvfs request.build_root (request.model_bytes - model_present) [])))
  | serve_phase ↦
      charge mounts statvfs request.ple_dir disk_reserve
        (charge mounts statvfs request.ple_dir (request.ple_bytes - ple_present) [])
]

abbrev pub has_room : Option ℕ → ℕ → Bool
has_room none required = false
has_room (some free_bytes) required = leb required free_bytes

abbrev pub disk_check : DiskRow → Check
disk_check row =
    check_of "disk" (row.identity.known && has_room row.identity.free_bytes row.required_bytes)
      row.identity.known

abbrev pub strip_prefix : List ℕ → List ℕ → Bool
strip_prefix [] cs = true
strip_prefix (p ∷ ps) [] = false
strip_prefix (p ∷ ps) (c ∷ cs) = p == c && strip_prefix ps cs

unfoldable pub member_text : String → List String → Bool
member_text s [] = false
member_text s (t ∷ ts) = s =ₛ t || member_text s ts

abbrev pub rejected_filesystems : List String
rejected_filesystems =
    "fuse" ∷ "fuseblk" ∷ "nfs" ∷ "nfs4" ∷ "cifs" ∷ "smbfs" ∷ "sshfs" ∷ "nfsd" ∷ "9p" ∷ []

-- `None` and its text "None" are no such type.
abbrev pub is_rejected : Option String → Bool
is_rejected none = false
is_rejected (some fstype) =
    member_text fstype rejected_filesystems || strip_prefix (codes "fuse.") (codes fstype)

-- The rows of rejected filesystems give a failed check each.
unfoldable pub rejected_checks : List DiskRow → List Check
unfolding member_text
rejected_checks [] = []
rejected_checks (row ∷ rows) =
    let rest = rejected_checks rows in
    if is_rejected row.identity.fstype then check_of "local_nvme" false true ∷ rest else rest

abbrev pub row_checks : List DiskRow → List Check
row_checks rows = map disk_check rows ++ rejected_checks rows

abbrev pub unknown_filesystems : List Check
unknown_filesystems = check_of "filesystems" false false ∷ []

abbrev pub present_checks :
    Request → List Mount → (Location → Statted) → Option ℕ → Option ℕ → List Check
present_checks request mounts statvfs (some model_present) (some ple_present) =
    row_checks (disk_rows request mounts statvfs model_present ple_present)
present_checks request mounts statvfs _ _ = unknown_filesystems

abbrev pub disk_checks : Request → Probes → Option (List Mount) → List Check
disk_checks request probes none = unknown_filesystems
disk_checks request probes (some mounts) =
    present_checks request mounts probes.statvfs probes.model_present probes.ple_present

unfoldable pub all_checks : Request → Probes → List Check
unfolding disk_rows rejected_checks
all_checks request probes =
    arch_checks probes.machine
    ++ (ram_checks probes.mem_available
        ++ (gpu_checks probes.gpu_state ++ disk_checks request probes probes.mounts))

abbrev pub is_pass : Check → Bool
is_pass check = elim check.status [ pass ↦ true | fail ↦ false | unknown ↦ false ]

-- The status of `run_preflight`
unfoldable pub run_preflight : Request → Probes → Bool
unfolding all_checks
run_preflight request probes = all is_pass (all_checks request probes)
