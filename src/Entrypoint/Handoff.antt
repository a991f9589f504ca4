-- ===== src/Entrypoint/Handoff.antt =====
-- What `main` of runtime/entrypoint.py hands to the server (`validate_prepared_result`, `main`).
use mathlib.Core.Path.{subst, ap, sym}
use qwen38_flash_next_nvidia.Prelude.{
  ◌=ₛ◌, ◌∙◌, refl, String, ◌≡◌, true, false, some, [], ◌∷◌, ok, err, ◌⊎◌, inl, inr, arith, =ₛ_iff,
  bound, passed, Bool-cases, ◌+ₛ◌, pos, is_hex, eqb_ℤ_iff,
}
use qwen38_flash_next_nvidia.Json.{Value, int, str, obj, Fields, get, text_is, hex_at, keys_are}
use qwen38_flash_next_nvidia.Json.Lookup.{text_is-eq-true, hex_at-eq-true}
use qwen38_flash_next_nvidia.Entrypoint.{ℤ, Option, eqb_ℤ}
use qwen38_flash_next_nvidia.Entrypoint.Command.{Env}
use qwen38_flash_next_nvidia.Entrypoint.Plan.{int_at_least, Plan}
use qwen38_flash_next_nvidia.Entrypoint.Plan.Lookups.{int_at_least-eq-ok}
use qwen38_flash_next_nvidia.Entrypoint.Prepared.{
  validate_prepared_result, required_bytes, is_elapsed, one_of_texts,
}
use qwen38_flash_next_nvidia.Entrypoint.Main.{env_get, env_set}

-- A receipt of the directory, of a reuse that copied nothing or of a copy of the whole table.
pub record IsPrepared (directory : String) (bytes : ℤ) (result : Fields) : Type 0 where
  pub path : get result "receipt_path" ≡ some (str (directory +ₛ "/prepared.json"))
  pub digest : String
  pub digest_eq : get result "receipt_sha256" ≡ some (str digest)
  pub digest_hex : is_hex 64 digest ≡ true
  pub copied :
      (get result "mode" ≡ some (str "reuse")) × (get result "copied_bytes" ≡ some (int (pos 0)))
      ⊎ (get result "mode" ≡ some (str "materialized"))
        × (get result "copied_bytes" ≡ some (int bytes))
  pub elapsed : is_elapsed (get result "elapsed_seconds") ≡ true

one_of_texts-eq-true :
    (o : Option Value) (a b : String)
    → one_of_texts o a b ≡ true
    → (o ≡ some (str a)) ⊎ (o ≡ some (str b))
unfolding one_of_texts
one_of_texts-eq-true (some (str s)) a b h = elim (Bool-cases (s =ₛ a)) [
  | inl e ↦ inl (ap (λ t. some (str t)) ((=ₛ_iff s a).0 e))
  | inr e ↦ inr (ap (λ t. some (str t)) ((=ₛ_iff s b).0 (ground arith)))
]
one_of_texts-eq-true _ a b h = cc

abbrev value_or : Plan Fields → Fields → Fields
value_or (ok a) fs = a
value_or (err e) fs = fs

reuse_bytes :
    (fs : Fields) (bytes : ℤ) → get fs "mode" ≡ some (str "reuse") → required_bytes fs bytes ≡ pos 0
unfolding text_is
reuse_bytes fs bytes m = rw m refl

materialized_bytes :
    (fs : Fields) (bytes : ℤ)
    → get fs "mode" ≡ some (str "materialized")
    → required_bytes fs bytes ≡ bytes
unfolding text_is
materialized_bytes fs bytes m = rw m refl

pub validate_prepared_result-IsPrepared :
    (value : Value) (directory : String) (bytes : ℤ) (result : Fields)
    → validate_prepared_result value directory bytes ≡ ok result
    → (value ≡ obj result) × IsPrepared directory bytes result
unfolding validate_prepared_result
validate_prepared_result-IsPrepared (obj fs) directory bytes result h =
    passed
      (keys_are fs
        ("receipt_path" ∷ "receipt_sha256" ∷ "mode" ∷ "copied_bytes" ∷ "elapsed_seconds" ∷ []))
      _ _ h
      λ a h₁.
        passed (text_is (get fs "receipt_path") (directory +ₛ "/prepared.json")) _ _ h₁ λ b h₂.
          passed (hex_at 64 (get fs "receipt_sha256")) _ _ h₂ λ c h₃.
            passed (one_of_texts (get fs "mode") "reuse" "materialized") _ _ h₃ λ d h₄.
              bound (int_at_least (pos 0) (get fs "copied_bytes")) _ h₄ λ n e h₅.
                passed (eqb_ℤ n (required_bytes fs bytes)) _ _ h₅ λ f h₆.
                  passed (is_elapsed (get fs "elapsed_seconds")) _ _ h₆ λ g h₇.
                    let same : fs ≡ result = ap (λ r. value_or r fs) h₇ in
                    let (digest, i, j) = hex_at-eq-true 64 (get fs "receipt_sha256") c in
                    (
                      ap obj same,
                      subst (IsPrepared directory bytes) same (record {
                        path =
                            text_is-eq-true (get fs "receipt_path") (directory +ₛ "/prepared.json")
                              b;
                        digest = digest;
                        digest_eq = i;
                        digest_hex = j;
                        copied =
                            copied_of fs n
                              (one_of_texts-eq-true (get fs "mode") "reuse" "materialized" d)
                              (int_at_least-eq-ok (pos 0) (get fs "copied_bytes") n e)
                              ((eqb_ℤ_iff n (required_bytes fs bytes)).0 f);
                        elapsed = g;
                      }),
                    )
  where
    copied_of :
        (fs : Fields) (n : ℤ)
        → (get fs "mode" ≡ some (str "reuse")) ⊎ (get fs "mode" ≡ some (str "materialized"))
        → get fs "copied_bytes" ≡ some (int n)
        → n ≡ required_bytes fs bytes
        → (get fs "mode" ≡ some (str "reuse")) × (get fs "copied_bytes" ≡ some (int (pos 0)))
          ⊎ (get fs "mode" ≡ some (str "materialized")) × (get fs "copied_bytes" ≡ some (int bytes))
    copied_of fs n (inl m) e q = inl (m, e ∙ ap (λ k. some (int k)) (q ∙ reuse_bytes fs bytes m))
    copied_of fs n (inr m) e q =
        inr (m, e ∙ ap (λ k. some (int k)) (q ∙ materialized_bytes fs bytes m))
validate_prepared_result-IsPrepared _ directory bytes result h = cc

pub env_get_set :
    (env : Env) (name value : String) → env_get (env_set env name value) name ≡ some value
unfolding env_get env_set
env_get_set [] name value = ground (arith, =ₛ_iff name name)
env_get_set ((k, v) ∷ env) name value = ground (arith, env_get_set env name value)

pub env_get_set_other :
    (env : Env) (name other value : String)
    → (name =ₛ other) ≡ false
    → env_get (env_set env name value) other ≡ env_get env other
unfolding env_get env_set
env_get_set_other [] name other value d = rw d refl
env_get_set_other ((k, v) ∷ env) name other value d = elim (Bool-cases (k =ₛ name)) [
  | inl e ↦
      let same : k ≡ name = (=ₛ_iff k name).0 e in
      let away : (k =ₛ other) ≡ false = subst (λ t. (t =ₛ other) ≡ false) (sym same) d in
      simp (e, away)
  | inr e ↦ elim (Bool-cases (k =ₛ other)) [
    | inl f ↦ simp (e, f)
    | inr f ↦ simp (e, f, env_get_set_other env name other value d)
  ]
]
