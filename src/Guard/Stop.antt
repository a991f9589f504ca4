-- ===== src/Guard/Stop.antt =====
-- `main` of scripts/guard_stop.py, which stops the container of a launch record.
use qwen38_flash_next_nvidia.Entrypoint.{text_of}
use qwen38_flash_next_nvidia.Guard.Session.{is_handled, exit_cleanup}
use mathlib.Core.Path.{subst, ap}
use qwen38_flash_next_nvidia.Prelude.{
  ◌≡◌, refl, ℕ, String, true, false, Option, some, List, [], ok, err, ◌>>=◌, if◌then◌else◌,
  Bool-cases, inl, inr, bound, passed, arith, ap,
}
use qwen38_flash_next_nvidia.Json.{Value, Fields, str, obj, get, hex_at}
use qwen38_flash_next_nvidia.Guard.{
  GuardError, Owner, Call, stop_owned, attribute_error, launch_error,
}
use qwen38_flash_next_nvidia.Guard.Inventory.{Guarded, Raw, read_json, require_hex}
use qwen38_flash_next_nvidia.Guard.Plan.{Place, safe_path, is_image_id}
use qwen38_flash_next_nvidia.Guard.Ownership.{IsStopped, stop_owned-IsStopped, stop_owned-second}

abbrev pub record_fields : Value → Guarded Fields
record_fields (obj fs) = ok fs
record_fields _ = err attribute_error

-- `record["image"]`, an exact image ID
abbrev pub image_of : Option Value → Guarded String
image_of (some (str image)) = if is_image_id image then ok image else err launch_error
image_of _ = err launch_error

-- The container of the record, with all its identities checked.
unfoldable pub stop_target : Place → Guarded Raw → Guarded Owner
unfolding safe_path read_json require_hex is_image_id
stop_target place file = do
  _ ← safe_path place false
  (value, raw) ← read_json file
  record_ ← record_fields value
  cid ← require_hex (get record_ "cid") 64
  nonce ← require_hex (get record_ "nonce") 32
  profile ← require_hex (get record_ "profile_sha256") 64
  image ← image_of (get record_ "image")
  ok (record { cid = cid; image = image; nonce = nonce; profile_sha256 = profile })

-- An exit code, or an exception that is not caught.
pub data Stopped : Type 0 where
  stop_exit : ℕ → Stopped
  stop_crash : GuardError → Stopped

abbrev pub stop_ending : {A : Type 0} → Guarded A → Stopped
stop_ending (ok a) = stop_exit 0
stop_ending (err e) = if is_handled e then stop_exit exit_cleanup else stop_crash e

module _ (first : Guarded Fields) (stopped : Guarded (Unit {0})) (second : Guarded Fields) where
  abbrev pub stop_target_owned : Guarded Owner → List Call × Stopped
  stop_target_owned (err e) = ([], stop_ending {A = Owner} (err e))
  stop_target_owned (ok owner) =
      let r = stop_owned owner first stopped second in (r.0, stop_ending r.1)

  -- `main`, for the answers of the container engine
  unfoldable pub stop_main : Place → Guarded Raw → List Call × Stopped
  unfolding stop_target stop_owned
  stop_main place file = stop_target_owned (stop_target place file)

abbrev pub IsFullOwner : Owner → Type 0
IsFullOwner owner =
    (hex_at 64 (some (str owner.cid)) ≡ true)
    × (hex_at 32 (some (str owner.nonce)) ≡ true)
    × (hex_at 64 (some (str owner.profile_sha256)) ≡ true)
    × (is_image_id owner.image ≡ true)

-- What the launch record says of its container.
pub record Recorded (file : Guarded Raw) (owner : Owner) : Type 0 where
  pub raw : Raw
  pub fields : Fields
  pub read_eq : read_json file ≡ ok (obj fields, raw)
  pub cid_eq : get fields "cid" ≡ some (str owner.cid)
  pub nonce_eq : get fields "nonce" ≡ some (str owner.nonce)
  pub profile_eq : get fields "profile_sha256" ≡ some (str owner.profile_sha256)
  pub image_eq : get fields "image" ≡ some (str owner.image)

require_hex-full :
    (o : Option Value) (n : ℕ) (s : String)
    → require_hex o n ≡ ok s
    → (o ≡ some (str s)) × (hex_at n (some (str s)) ≡ true)
unfolding require_hex hex_at text_of
require_hex-full (some (str t)) n s h = passed (hex_at n (some (str t))) _ _ h λ a k.
    let same : t ≡ s = cc in
    (ap (λ x. some (str x)) same, subst (λ x. hex_at n (some (str x)) ≡ true) same a)
require_hex-full _ n s h = cc

image_of-full :
    (o : Option Value) (s : String)
    → image_of o ≡ ok s
    → (o ≡ some (str s)) × (is_image_id s ≡ true)
image_of-full (some (str t)) s h = elim (Bool-cases (is_image_id t)) [
  | inl e ↦
      let same : t ≡ s = ground arith in
      (ap (λ x. some (str x)) same, subst (λ x. is_image_id x ≡ true) same e)
  | inr e ↦ ground arith
]
image_of-full _ s h = cc

record_fields-eq-ok : (v : Value) (fs : Fields) → record_fields v ≡ ok fs → v ≡ obj fs
record_fields-eq-ok (obj gs) fs h = cc
record_fields-eq-ok _ fs h = cc

stop_target-Recorded :
    (place : Place) (file : Guarded Raw) (owner : Owner)
    → stop_target place file ≡ ok owner
    → Recorded file owner × IsFullOwner owner
unfolding stop_target
stop_target-Recorded place file owner h = bound (safe_path place false) _ h λ p a h₁.
    bound (read_json file) _ h₁ λ (value, raw) b h₂. bound (record_fields value) _ h₂ λ fs c h₃.
      bound (require_hex (get fs "cid") 64) _ h₃ λ cid d h₄.
        bound (require_hex (get fs "nonce") 32) _ h₄ λ nonce e h₅.
          bound (require_hex (get fs "profile_sha256") 64) _ h₅ λ profile f h₆.
            bound (image_of (get fs "image")) _ h₆ λ image g h₇.
              let same : record {
                cid = cid;
                image = image;
                nonce = nonce;
                profile_sha256 = profile;
              }
                  ≡ owner =
                cc in
              let (i, i') = require_hex-full (get fs "cid") 64 cid d in
              let (j, j') = require_hex-full (get fs "nonce") 32 nonce e in
              let (k, k') = require_hex-full (get fs "profile_sha256") 64 profile f in
              let (l, l') = image_of-full (get fs "image") image g in
              subst (λ o. Recorded file o × IsFullOwner o) same
                (
                  record {
                    raw = raw;
                    fields = fs;
                    read_eq =
                        subst (λ v. read_json file ≡ ok (v, raw)) (record_fields-eq-ok value fs c)
                          b;
                    cid_eq = i;
                    nonce_eq = j;
                    profile_eq = k;
                    image_eq = l;
                  },
                  (i', j', k', l'),
                )

stop_ending-zero : {A : Type 0} (r : Guarded A) → stop_ending r ≡ stop_exit 0 → (a : A) × (r ≡ ok a)
stop_ending-zero (ok a) h = (a, refl)
stop_ending-zero (err e) h = elim (Bool-cases (is_handled e)) [
  | inl k ↦ ground arith
  | inr k ↦ ground arith
]

module _ (first : Guarded Fields) (stopped : Guarded (Unit {0})) (second : Guarded Fields) where
  -- guard_stop exits with 0 only if its record names a container, a launch, a profile and an image by
  -- full identities, and the second inspection answered with a document of that container, with the
  -- labels of that launch, that is not running.
  pub stop_main-IsStopped :
      (place : Place) (file : Guarded Raw)
      → (stop_main first stopped second place file).1 ≡ stop_exit 0
      → (owner : Owner) × Recorded file owner
        × IsFullOwner owner
        × ((final : Fields) × (second ≡ ok final) × IsStopped owner final)
  unfolding stop_main
  stop_main-IsStopped place file = by_target (stop_target place file) refl
    where
      by_target :
          (r : Guarded Owner)
          → stop_target place file ≡ r
          → (stop_target_owned first stopped second r).1 ≡ stop_exit 0
          → (owner : Owner) × Recorded file owner
            × IsFullOwner owner
            × ((final : Fields) × (second ≡ ok final) × IsStopped owner final)
      by_target (err e) t h = let (o, k) = stop_ending-zero {A = Owner} (err e) h in cc
      by_target (ok owner) t h =
          let (recorded, full) = stop_target-Recorded place file owner t in
          let (final, e) = stop_ending-zero (stop_owned owner first stopped second).1 h in
          (
            owner,
            recorded,
            full,
            (
              final,
              stop_owned-second owner first stopped second final e,
              stop_owned-IsStopped owner first stopped second final e,
            ),
          )
