-- ===== src/Guard/Ownership.antt =====
-- Only an owned container is stopped (`verify_ownership` and `stop_owned` of scripts/guard.py).
use mathlib.Core.Path.{subst}
use qwen38_flash_next_nvidia.Prelude.{
  String, ◌≡◌, inl, inr, refl, Bool, true, false, ◌&&◌, Option, some, List, [], ◌∷◌, Result, ok,
  err, Result-cases, bound, passed, both,
}
use qwen38_flash_next_nvidia.Json.Lookup.{text_is-eq-true}
use qwen38_flash_next_nvidia.Json.{text_is, Value, bool, str, Fields, get}
use qwen38_flash_next_nvidia.Profile.CheckLaws.{Among}
use qwen38_flash_next_nvidia.Guard.{
  GuardError, Owner, as_dict, as_dict_or_empty, verify_ownership, Call, inspect_call, stop_call,
  is_false, confirm_stopped, owned_running, stop_after, stop_owned,
}

-- The identity and the labels that make a container one of this launch.
pub record IsOwned (expected : Owner) (doc : Fields) : Type 0 where
  pub config : Fields
  pub labels : Fields
  pub id_at : get doc "Id" ≡ some (str expected.cid)
  pub image_at : get doc "Image" ≡ some (str expected.image)
  pub config_at : as_dict (get doc "Config") ≡ ok config
  pub labels_at : as_dict_or_empty (get config "Labels") ≡ ok labels
  pub nonce_at : get labels "io.r0b0tlab.qwen38fn.owner" ≡ some (str expected.nonce)
  pub profile_at :
      get labels "io.r0b0tlab.qwen38fn.profile-sha256" ≡ some (str expected.profile_sha256)
  pub label_image_at : get labels "io.r0b0tlab.qwen38fn.image-id" ≡ some (str expected.image)

pub verify_ownership-IsOwned :
    (doc doc' : Fields) (expected : Owner)
    → verify_ownership doc expected ≡ ok doc'
    → IsOwned expected doc × (doc ≡ doc')
unfolding verify_ownership
verify_ownership-IsOwned doc doc' expected h =
    passed (text_is (get doc "Id") expected.cid && text_is (get doc "Image") expected.image) _ _ h
      λ a h₁. bound (as_dict (get doc "Config")) _ h₁ λ config b h₂.
        bound (as_dict_or_empty (get config "Labels")) _ h₂ λ labels c h₃.
          passed
            (text_is (get labels "io.r0b0tlab.qwen38fn.owner") expected.nonce
              && (text_is (get labels "io.r0b0tlab.qwen38fn.profile-sha256") expected.profile_sha256
                  && text_is (get labels "io.r0b0tlab.qwen38fn.image-id") expected.image))
            _ _ h₃
            λ d h₄.
              let (i, m) = both _ _ a in
              let (n, more) = both _ _ d in
              let (p, l) = both _ _ more in
              (
                record {
                  config = config;
                  labels = labels;
                  id_at = text_is-eq-true _ _ i;
                  image_at = text_is-eq-true _ _ m;
                  config_at = b;
                  labels_at = c;
                  nonce_at = text_is-eq-true _ _ n;
                  profile_at = text_is-eq-true _ _ p;
                  label_image_at = text_is-eq-true _ _ l;
                },
                cc,
              )

-- A document of an owned container that is not running.
abbrev pub IsStopped : Owner → Fields → Type 0
IsStopped expected doc =
    IsOwned expected doc
    × ((state : Fields) × (as_dict (get doc "State") ≡ ok state)
        × (get state "Running" ≡ some (bool false)))

is_false-eq-true : (o : Option Value) → is_false o ≡ true → o ≡ some (bool false)
is_false-eq-true (some (bool false)) h = refl
is_false-eq-true (some (bool true)) h = cc
is_false-eq-true _ h = cc

confirm_stopped-IsStopped :
    (expected : Owner) (inspected : Result GuardError Fields) (final : Fields)
    → confirm_stopped expected inspected ≡ ok final
    → IsStopped expected final
unfolding confirm_stopped
confirm_stopped-IsStopped expected inspected final h = bound inspected _ h λ doc a h₁.
    bound (verify_ownership doc expected) _ h₁ λ same b h₂.
      bound (as_dict (get same "State")) _ h₂ λ state c h₃.
        passed (is_false (get state "Running")) _ _ h₃ λ d h₄.
          let (owned, e) = verify_ownership-IsOwned doc same expected b in
          let e' : same ≡ final = cc in
          subst (λ f. IsStopped expected f) e'
            (subst (λ f. IsOwned expected f) e owned, (state, c, is_false-eq-true _ d))

confirm_stopped-same :
    (expected : Owner) (inspected : Result GuardError Fields) (final : Fields)
    → confirm_stopped expected inspected ≡ ok final
    → inspected ≡ ok final
unfolding confirm_stopped
confirm_stopped-same expected inspected final h = bound inspected _ h λ doc a h₁.
    bound (verify_ownership doc expected) _ h₁ λ same b h₂.
      bound (as_dict (get same "State")) _ h₂ λ state c h₃.
        passed (is_false (get state "Running")) _ _ h₃
          λ d h₄. let (owned, e) = verify_ownership-IsOwned doc same expected b in cc

owned_running-IsOwned :
    (expected : Owner) (inspected : Result GuardError Fields) (running : Bool)
    → owned_running expected inspected ≡ ok running
    → (doc : Fields) × (inspected ≡ ok doc) × IsOwned expected doc
unfolding owned_running
owned_running-IsOwned expected inspected running h = bound inspected _ h λ doc a h₁.
    bound (verify_ownership doc expected) _ h₁
      λ same b h₂. (doc, a, (verify_ownership-IsOwned doc same expected b).0)

module _ (expected : Owner) (first : Result GuardError Fields)
    (stopped : Result GuardError (Unit {0})) (second : Result GuardError Fields) where
  -- `stop_owned` stops no other container than the one it is given, and that one only if its first
  -- inspection shows the identity and the labels of this launch.
  pub stop_owned-IsOwned :
      (cid : String)
      → Among (stop_call cid) (stop_owned expected first stopped second).0
      → (cid ≡ expected.cid) × ((doc : Fields) × (first ≡ ok doc) × IsOwned expected doc)
  unfolding stop_owned
  stop_owned-IsOwned cid = elim (Result-cases (owned_running expected first)) [
    | inr (e, a) ↦ rw a λ h. elim h [ inl e ↦ cc | inr e ↦ absurd e ]
    | inl (false, a) ↦
        rw a λ h. elim h [ inl e ↦ cc | inr h' ↦ elim h' [ inl e ↦ cc | inr e ↦ absurd e ] ]
    | inl (true, a) ↦
        let found = owned_running-IsOwned expected first true a in
        elim (Result-cases stopped) [
          | inr (e, b) ↦ rw (a, b) λ h. (second_call [] cid (λ e. e) h, found)
          | inl (u, b) ↦
              rw (a, b)
                λ h. (
                  second_call (inspect_call expected.cid ∷ []) cid
                      (λ h. elim h [ inl e ↦ cc | inr e ↦ e ]) h,
                  found,
                )
        ]
  ]
    where
      second_call :
          (rest : List Call) (cid : String)
          → (Among (stop_call cid) rest → ⊥)
          → Among (stop_call cid) (inspect_call expected.cid ∷ stop_call expected.cid ∷ rest)
          → cid ≡ expected.cid
      second_call rest cid never (inl e) = cc
      second_call rest cid never (inr (inl e)) = cc
      second_call rest cid never (inr (inr h)) = absurd (never h)

  stop_after-IsStopped :
      (running : Result GuardError Bool) (stopped : Result GuardError (Unit {0})) (final : Fields)
      → (stop_after expected running stopped second).1 ≡ ok final
      → IsStopped expected final
  stop_after-IsStopped (err e) s final h = cc
  stop_after-IsStopped (ok false) s final h = confirm_stopped-IsStopped expected second final h
  stop_after-IsStopped (ok true) (err e) final h = cc
  stop_after-IsStopped (ok true) (ok u) final h = confirm_stopped-IsStopped expected second final h

  -- `stop_owned` returns a document only if it is that of the owned container, not running.
  pub stop_owned-IsStopped :
      (final : Fields)
      → (stop_owned expected first stopped second).1 ≡ ok final
      → IsStopped expected final
  unfolding stop_owned
  stop_owned-IsStopped = stop_after-IsStopped (owned_running expected first) stopped

  stop_after-second :
      (running : Result GuardError Bool) (stopped : Result GuardError (Unit {0})) (final : Fields)
      → (stop_after expected running stopped second).1 ≡ ok final
      → second ≡ ok final
  stop_after-second (err e) s final h = cc
  stop_after-second (ok false) s final h = confirm_stopped-same expected second final h
  stop_after-second (ok true) (err e) final h = cc
  stop_after-second (ok true) (ok u) final h = confirm_stopped-same expected second final h

  -- The document that is returned is the one of the second inspection.
  pub stop_owned-second :
      (final : Fields) → (stop_owned expected first stopped second).1 ≡ ok final → second ≡ ok final
  unfolding stop_owned
  stop_owned-second = stop_after-second (owned_running expected first) stopped
