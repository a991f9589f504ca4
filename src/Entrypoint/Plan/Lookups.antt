-- ===== src/Entrypoint/Plan/Lookups.antt =====
-- The fields that the checks of a plan have read (`_plan_object`, `_plan_int`, `_plan_sha256` of
-- runtime/entrypoint.py).
use mathlib.Core.Path.{subst, sym}
use qwen38_flash_next_nvidia.Prelude.{
  ◌≡◌, refl, ap, ◌∙◌, String, true, some, Option, ok, bound, passed, arith, ℤ, is_hex,
}
use qwen38_flash_next_nvidia.Json.{Value, int, str, obj, Fields, get, hex_at}
use qwen38_flash_next_nvidia.Json.Lookup.{hex_at-eq-true}
use qwen38_flash_next_nvidia.Entrypoint.{as_object, plan_refusal, text_of}
use qwen38_flash_next_nvidia.Entrypoint.Plan.{
  plan_object, int_at_least, plan_int, some_text, plan_str, plan_sha256,
}

pub plan_object-eq-ok :
    (plan : Fields) (key : String) (fs : Fields)
    → plan_object plan key ≡ ok fs
    → get plan key ≡ some (obj fs)
plan_object-eq-ok plan key fs h = object_at (get plan key) h
  where
    object_at : (o : Option Value) → as_object plan_refusal o ≡ ok fs → o ≡ some (obj fs)
    object_at (some (obj gs)) h = cc
    object_at _ h = cc

pub int_at_least-eq-ok :
    (m : ℤ) (o : Option Value) (n : ℤ) → int_at_least m o ≡ ok n → o ≡ some (int n)
int_at_least-eq-ok m (some (int k)) n h = ground arith
int_at_least-eq-ok m _ n h = cc

pub plan_int-eq-ok :
    (fs : Fields) (key : String) (minimum n : ℤ)
    → plan_int fs key minimum ≡ ok n
    → get fs key ≡ some (int n)
unfolding plan_int
plan_int-eq-ok fs key minimum n h = int_at_least-eq-ok minimum (get fs key) n h

text_of-eq : (o : Option Value) (s : String) → some_text o ≡ true → text_of o ≡ s → o ≡ some (str s)
unfolding some_text text_of
text_of-eq (some (str t)) s h e = ap (λ t. some (str t)) e
text_of-eq _ s h e = cc

plan_str-eq-ok : (fs : Fields) (key s : String) → plan_str fs key ≡ ok s → get fs key ≡ some (str s)
unfolding plan_str
plan_str-eq-ok fs key s h =
    passed (some_text (get fs key)) _ _ h λ a k. text_of-eq (get fs key) s a cc

pub plan_sha256-eq-ok :
    (fs : Fields) (key s : String) → plan_sha256 fs key ≡ ok s → get fs key ≡ some (str s)
unfolding plan_sha256
plan_sha256-eq-ok fs key s h = bound (plan_str fs key) _ h λ t a h₁.
    passed (is_hex 64 t) _ _ h₁ λ b h₂.
      let same : t ≡ s = cc in
      subst (λ x. get fs key ≡ some (str x)) same (plan_str-eq-ok fs key t a)

text_at : (o : Option Value) (s : String) → o ≡ some (str s) → text_of o ≡ s
unfolding text_of
text_at o s e = rw e refl

pub hex_text :
    (o : Option Value) (t : String) → hex_at 40 o ≡ true → text_of o ≡ t → o ≡ some (str t)
hex_text o t d e =
    let (s, at, hex) = hex_at-eq-true 40 o d in
    let same : s ≡ t = sym (text_at o s at) ∙ e in subst (λ x. o ≡ some (str x)) same at
