-- ===== src/Profile/Reload.antt =====
-- A profile that was accepted is accepted again from its own dict, with the same values: what
-- `profile_from_dict` and `_checked_profile` of runtime/ rely on.
use mathlib.Core.Path.{subst}
use qwen38_flash_next_nvidia.Prelude.{
  ◌≡◌, sym, ap, ◌∙◌, Option, none, some, ok, ◌>>=◌, arith, bound,
}
use qwen38_flash_next_nvidia.Json.{Value, null, obj, Fields}
use qwen38_flash_next_nvidia.Json.Loads.{Syntax, build, dumps}
use qwen38_flash_next_nvidia.Json.RoundTrip.{build-dumps}
use qwen38_flash_next_nvidia.Json.Unique.{IsUnique, build-IsUnique}
use qwen38_flash_next_nvidia.Profile.{
  Profile, profile_of, float_or, profile_from_dict, profile_from_json,
}
use qwen38_flash_next_nvidia.Profile.Contract.{MeetsContract}
use qwen38_flash_next_nvidia.Profile.Accepts.{validate_fields_sound, validate_fields_complete}
use qwen38_flash_next_nvidia.Profile.Validate.{
  validate_fields, validate_value, validate_payload, profile_hooks, mem_fraction_default,
}
use qwen38_flash_next_nvidia.Profile.Strict.{contract-IsStrict}

-- `validate_payload` gives a dict that meets the contract and repeats no key, at any depth.
pub validate_payload_sound :
    (payload : Option Syntax) (raw : Fields)
    → validate_payload payload ≡ ok raw
    → MeetsContract raw × IsUnique (obj raw)
unfolding validate_payload validate_value
validate_payload_sound none raw h = cc
validate_payload_sound (some s) raw h = bound (build profile_hooks s) _ h λ v e h₁. by_value v e h₁
  where
    by_value :
        (v : Value)
        → build profile_hooks s ≡ ok v
        → validate_value v ≡ ok raw
        → MeetsContract raw × IsUnique (obj raw)
    by_value (obj fs) e k = bound (validate_fields fs) _ k λ _ a b.
        let same : fs ≡ raw = cc in
        (
          subst (λ r. MeetsContract r) same (validate_fields_sound fs a),
          subst (λ r. IsUnique (obj r)) same (build-IsUnique profile_hooks s (obj fs) e),
        )
    by_value null e k = cc
    by_value _ e k = cc

-- The dict of a profile, written as JSON and read again, is accepted unchanged.
validate_payload-dumps :
    (raw : Fields)
    → MeetsContract raw
    → IsUnique (obj raw)
    → validate_payload (some (dumps (obj raw))) ≡ ok raw
unfolding validate_payload validate_value
validate_payload-dumps raw c u = rw (
  build-dumps profile_hooks (obj raw) (contract-IsStrict raw c u),
  validate_fields_complete raw c,
)

pub raw-profile_of : (fs : Fields) (p : Profile) → profile_of fs ≡ ok p → p.raw ≡ fs
unfolding profile_of
raw-profile_of fs p h =
    bound (float_or fs "mem_fraction_static" mem_fraction_default) _ h λ x e k. cc

-- A profile that `profile_from_json` returns meets the contract, and `profile_from_dict` of its own
-- dict returns the same profile.
pub profile_from_json-reload :
    (payload : Option Syntax) (p : Profile)
    → profile_from_json payload ≡ ok p
    → MeetsContract p.raw × (profile_from_dict p.raw ≡ ok p)
unfolding profile_from_json profile_from_dict
profile_from_json-reload payload p h = bound (validate_payload payload) _ h λ raw e h₁.
    let (c, u) = validate_payload_sound payload raw e in
    bound (validate_payload (some (dumps (obj raw)))) _ h₁ λ raw' e' h₂.
      let same : raw' ≡ raw = ground (arith, validate_payload-dumps raw c u) in
      let at : p.raw ≡ raw = raw-profile_of raw' p h₂ ∙ same in
      (
        subst (λ r. MeetsContract r) (sym at) c,
        subst (λ r. profile_from_dict r ≡ ok p) (sym at)
            (from_dict raw raw' (validate_payload-dumps raw c u) same h₂),
      )
  where
    from_dict :
        (raw raw' : Fields)
        → validate_payload (some (dumps (obj raw))) ≡ ok raw
        → raw' ≡ raw
        → profile_of raw' ≡ ok p
        → profile_from_dict raw ≡ ok p
    from_dict raw raw' e s k = ap (λ r. r >>= profile_of) e ∙ ap profile_of (sym s) ∙ k
