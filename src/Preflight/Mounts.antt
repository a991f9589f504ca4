-- ===== src/Preflight/Mounts.antt =====
-- The mount that the preflight takes for a target (`_mount_for` of scripts/preflight.py).
use mathlib.Core.Path.{subst, sym}
use qwen38_flash_next_nvidia.Prelude.{
  ◌≡◌, Bool, true, false, ◌&&◌, Option, none, some, List, [], ◌∷◌, ◌≤◌, length, inl, inr,
  Bool-cases, arith, if◌then◌else◌,
}
use qwen38_flash_next_nvidia.Preflight.{Location, Mount, is_below, is_deeper, deepest, mount_for}
use qwen38_flash_next_nvidia.Profile.CheckLaws.{Among}

-- At or above the target, and as deep as any of the mounts that are.
pub record IsMountOf (target : Location) (mounts : List Mount) (mount : Mount) : Type 0 where
  pub above : is_below target mount.mount_point ≡ true
  pub deepest_of :
      (other : Mount)
      → Among other mounts
      → is_below target other.mount_point ≡ true
      → length other.mount_point ≤ length mount.mount_point

-- The best mount so far is at or above the target, if there is one.
abbrev Above : Location → Option Mount → Type 0
Above target none = Unit
Above target (some best) = is_below target best.mount_point ≡ true

-- The result is at least as deep as the best mount so far.
abbrev AtLeast : Option Mount → Mount → Type 0
AtLeast none mount = Unit
AtLeast (some best) mount = length best.mount_point ≤ length mount.mount_point

AtLeast-deeper :
    (best : Option Mount) (entry mount : Mount)
    → is_deeper best entry ≡ true
    → length entry.mount_point ≤ length mount.mount_point
    → AtLeast best mount
AtLeast-deeper none entry mount d l = tt
AtLeast-deeper (some best) entry mount d l = ground arith

not_deeper :
    (best : Option Mount) (entry mount : Mount)
    → is_deeper best entry ≡ false
    → AtLeast best mount
    → length entry.mount_point ≤ length mount.mount_point
not_deeper none entry mount d l = cc
not_deeper (some best) entry mount d l = ground arith

deepest-IsMountOf :
    (target : Location) (best : Option Mount) (mounts : List Mount) (mount : Mount)
    → Above target best
    → deepest target best mounts ≡ some mount
    → IsMountOf target mounts mount × AtLeast best mount
unfolding deepest
deepest-IsMountOf target none [] mount b h = cc
deepest-IsMountOf target (some best) [] mount b h =
    let same : best ≡ mount = cc in
    (
      record {
        above = subst (λ m. is_below target m.mount_point ≡ true) same b;
        deepest_of = λ other among below. absurd among;
      },
      subst (λ m. length best.mount_point ≤ length m.mount_point) same (omega arith),
    )
deepest-IsMountOf target best (entry ∷ mounts) mount b h =
    elim (Bool-cases (is_below target entry.mount_point)) [
      | inr out ↦
          let (m, l) = deepest-IsMountOf target best mounts mount b (
            subst
              (λ t.
                deepest target (if t && is_deeper best entry then some entry else best) mounts
                ≡ some mount)
              out h) in
          (extend m λ below. absurd (clash _ below out), l)
      | inl here ↦ elim (Bool-cases (is_deeper best entry)) [
        | inl new ↦
            let (m, l) = deepest-IsMountOf target (some entry) mounts mount here (
              subst (λ t. deepest target (if t then some entry else best) mounts ≡ some mount) new
                (subst
                  (λ t.
                    deepest target (if t && is_deeper best entry then some entry else best) mounts
                    ≡ some mount)
                  here h)) in
            (extend m λ below. l, AtLeast-deeper best entry mount new l)
        | inr old ↦
            let (m, l) = deepest-IsMountOf target best mounts mount b (
              subst (λ t. deepest target (if t then some entry else best) mounts ≡ some mount) old
                (subst
                  (λ t.
                    deepest target (if t && is_deeper best entry then some entry else best) mounts
                    ≡ some mount)
                  here h)) in
            (extend m λ below. not_deeper best entry mount old l, l)
      ]
    ]
  where
    clash : (b : Bool) → b ≡ true → b ≡ false → ⊥
    clash true h k = cc
    clash false h k = cc

    extend :
        IsMountOf target mounts mount
        → (is_below target entry.mount_point ≡ true
            → length entry.mount_point ≤ length mount.mount_point)
        → IsMountOf target (entry ∷ mounts) mount
    extend m l = record {
      above = m.above;
      deepest_of = λ other among below. elim among [
        | inl e ↦
            subst (λ o. length o.mount_point ≤ length mount.mount_point) (sym e)
              (l (subst (λ o. is_below target o.mount_point ≡ true) e below))
        | inr later ↦ m.deepest_of other later below
      ];
    }

-- The mount of a target is at or above it, and no other mount at or above it is deeper.
pub mount_for-IsMountOf :
    (target : Location) (mounts : List Mount) (mount : Mount)
    → mount_for target mounts ≡ some mount
    → IsMountOf target mounts mount
unfolding mount_for
mount_for-IsMountOf target mounts mount h = (deepest-IsMountOf target none mounts mount tt h).0
