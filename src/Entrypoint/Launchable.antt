-- ===== src/Entrypoint/Launchable.antt =====
-- What `_checked_profile` and `build_all` of runtime/entrypoint.py accept.
use mathlib.Core.Path.{subst}
use qwen38_flash_next_nvidia.Prelude.{
  ℕ, String, ◌≡◌, refl, sym, Bool, true, false, Option, none, some, List, ℤ, ok, err, Result, bound,
  passed, arith, =ₛ_iff, ◌=ₛ◌, eqb_ℤ, eqb_ℤ_iff,
}
use qwen38_flash_next_nvidia.Json.{Value, Fields, Float, finite, get, leb_float, obj}
use qwen38_flash_next_nvidia.Json.Loads.{Syntax, dumps}
use qwen38_flash_next_nvidia.Profile.{Profile, profile_from_dict, profile_from_json}
use qwen38_flash_next_nvidia.Profile.Reason.{Raised}
use qwen38_flash_next_nvidia.Profile.Contract.{MeetsContract}
use qwen38_flash_next_nvidia.Profile.Validate.{validate_payload}
use qwen38_flash_next_nvidia.Profile.Reload.{
  validate_payload_sound, raw-profile_of, profile_from_json-reload,
}
use qwen38_flash_next_nvidia.Profile.Values.{IsLaunchable, profile_of-IsLaunchable}
use qwen38_flash_next_nvidia.Entrypoint.{
  checked_sources, checked_profile, from_profile, same_fields, eq_float, eq_bool, eq_optional,
  text_of,
}
use qwen38_flash_next_nvidia.Entrypoint.Command.{build_env, build_argv, build_all, argv_of, env_of}

pub profile_from_dict-IsLaunchable :
    (raw : Fields) (q : Profile)
    → profile_from_dict raw ≡ ok q
    → MeetsContract q.raw × IsLaunchable q
unfolding profile_from_dict
profile_from_dict-IsLaunchable raw q h =
    bound (validate_payload (some (dumps (obj raw)))) _ h λ fs e k.
      let (c, u) = validate_payload_sound _ fs e in
      (
        subst (λ r. MeetsContract r) (sym (raw-profile_of fs q k)) c,
        profile_of-IsLaunchable fs q k c,
      )

eqb_ℤ_refl : (n : ℤ) → eqb_ℤ n n ≡ true
eqb_ℤ_refl n = (eqb_ℤ_iff n n).1 refl

=ₛ_refl : (s : String) → (s =ₛ s) ≡ true
=ₛ_refl s = (=ₛ_iff s s).1 refl

eq_bool_refl : (b : Bool) → eq_bool b b ≡ true
eq_bool_refl true = refl
eq_bool_refl false = refl

pub eq_optional_refl : (o : Option String) → eq_optional o o ≡ true
eq_optional_refl none = refl
eq_optional_refl (some s) = =ₛ_refl s

eq_float_refl : (x : Float) → ((m : ℤ) × (k : ℕ) × (x ≡ finite m k)) → eq_float x x ≡ true
unfolding eq_float leb_float
eq_float_refl x (m, k, e) = rw e (ground arith)

same_fields_refl : (p : Profile) → IsLaunchable p → same_fields p p ≡ true
unfolding same_fields
same_fields_refl p l = simp (
  eqb_ℤ_refl,
  =ₛ_refl,
  eq_bool_refl,
  eq_optional_refl,
  eq_float_refl p.mem_fraction_static l.number,
)

from_profile-eq-ok : {A : Type 0} (r : Result Raised A) (a : A) → from_profile r ≡ ok a → r ≡ ok a
from_profile-eq-ok (ok b) a h = cc
from_profile-eq-ok (err e) a h = cc

pub checked_profile-IsLaunchable :
    (p q : Profile)
    → checked_profile p ≡ ok q
    → MeetsContract q.raw × IsLaunchable q × (same_fields p q ≡ true)
unfolding checked_profile
checked_profile-IsLaunchable p q h = bound (from_profile (profile_from_dict p.raw)) _ h λ r e k.
    passed (same_fields p r) _ _ k λ s j.
      let same : r ≡ q = cc in
      let (c, l) = profile_from_dict-IsLaunchable p.raw r (from_profile-eq-ok _ r e) in
      subst (λ x. MeetsContract x.raw × IsLaunchable x × (same_fields p x ≡ true)) same (c, l, s)

checked_profile_loaded :
    (payload : Option Syntax) (p : Profile)
    → profile_from_json payload ≡ ok p
    → checked_profile p ≡ ok p
unfolding checked_profile
checked_profile_loaded payload p h =
    let (c, again) = profile_from_json-reload payload p h in
    let (c', l) = profile_from_dict-IsLaunchable p.raw p again in
    rw (again, same_fields_refl p l) refl

module _ (shown : ℤ → String) (shown_float : Float → String) (sources : Value) (model : Fields)
    (pinned : checked_sources sources ≡ ok model) where
  -- A profile that the loader returned is always compiled: no check of it is repeated in vain.
  pub build_all-loaded :
      (payload : Option Syntax) (p : Profile)
      → profile_from_json payload ≡ ok p
      → build_all shown shown_float p sources
        ≡ ok (
          argv_of shown shown_float p (text_of (get model "sha")),
          env_of shown shown_float p (text_of (get model "sha")),
        )
  unfolding build_all build_argv build_env
  build_all-loaded payload p h = rw (checked_profile_loaded payload p h, pinned) refl

module _ (shown : ℤ → String) (shown_float : Float → String) (p : Profile) (sources : Value) where
  -- Where the words come from.
  pub record Compiled (argv : List String) : Type 0 where
    pub profile : Profile
    pub model : Fields
    pub checked_at : checked_profile p ≡ ok profile
    pub model_at : checked_sources sources ≡ ok model
    pub argv_at : argv_of shown shown_float profile (text_of (get model "sha")) ≡ argv

  pub build_argv-Compiled :
      (argv : List String) → build_argv shown shown_float p sources ≡ ok argv → Compiled argv
  unfolding build_argv
  build_argv-Compiled argv h = bound (checked_profile p) _ h λ q e k.
      bound (checked_sources sources) _ k
        λ m e' j. record { profile = q; model = m; checked_at = e; model_at = e'; argv_at = cc }
