-- ===== src/Profile/StrictValues.antt =====
-- Which values of a profile dict survive `json.dumps` and `json.loads` in runtime/__init__.py.
use mathlib.Core.Path.{subst}
use qwen38_flash_next_nvidia.Prelude.{
  String, ◌≡◌, inl, inr, Bool, true, some, List, ℤ, Bool-cases, arith, ◌=ₛ◌,
}
use qwen38_flash_next_nvidia.Json.{
  Value, null, bool, int, str, obj, Fields, end, field, get, keys_within, keys_are,
}
use qwen38_flash_next_nvidia.Json.Lookup.{AllValues, AllValues-of_get, member-keys_within}
use qwen38_flash_next_nvidia.Json.RoundTrip.{IsStrict, AllStrictFields}
use qwen38_flash_next_nvidia.Json.Unique.{IsUnique, AllUniqueFields}
use qwen38_flash_next_nvidia.Profile.CheckLaws.{Among, member_iff}
use qwen38_flash_next_nvidia.Profile.Contract.{OptionalInt, OptionalText}

pub IsUnique-get :
    (fs : Fields) (k : String) (v : Value) → AllUniqueFields fs → get fs k ≡ some v → IsUnique v
unfolding IsUnique get
IsUnique-get end k v u e = cc
IsUnique-get (field j w fs) k v u e = elim (Bool-cases (j =ₛ k)) [
  | inl same ↦ subst (λ x. IsUnique x) (found same) u.0
  | inr other ↦ IsUnique-get fs k v u.1 (ground arith)
]
  where
    found : (j =ₛ k) ≡ true → w ≡ v
    found same = ground arith

AllStrict_of_AllValues : (fs : Fields) → AllValues (λ k v. IsStrict v) fs → AllStrictFields fs
unfolding IsStrict
AllStrict_of_AllValues end h = tt
AllStrict_of_AllValues (field k v fs) h = (h.0, AllStrict_of_AllValues fs h.1)

-- A value that a lookup yields is strict if it is what another account of that lookup says.
module _ (fs : Fields) (k : String) (v : Value) (e : get fs k ≡ some v) where
  pub IsStrict-at : (w : Value) → get fs k ≡ some w → IsStrict w → IsStrict v
  IsStrict-at w f s = let same : w ≡ v = cc in subst (λ x. IsStrict x) same s

  pub IsStrict-str : (s : String) → get fs k ≡ some (str s) → IsStrict v
  unfolding IsStrict
  IsStrict-str s f = IsStrict-at (str s) f tt

  pub IsStrict-bool : (b : Bool) → get fs k ≡ some (bool b) → IsStrict v
  unfolding IsStrict
  IsStrict-bool b f = IsStrict-at (bool b) f tt

  pub IsStrict-number : (n : ℤ) → get fs k ≡ some (int n) → IsStrict v
  unfolding IsStrict
  IsStrict-number n f = IsStrict-at (int n) f tt

  pub IsStrict-null : get fs k ≡ some null → IsStrict v
  unfolding IsStrict
  IsStrict-null f = IsStrict-at null f tt

  pub IsStrict-int : (P : ℤ → Type 0) → OptionalInt fs k P → IsStrict v
  unfolding IsStrict
  IsStrict-int P (inl none_there) = absurd (ground arith)
  IsStrict-int P (inr (n, f, p)) = IsStrict-at (int n) f tt

  pub IsStrict-text : (names : List String) → OptionalText fs k names → IsStrict v
  unfolding IsStrict
  IsStrict-text names (inl none_there) = absurd (ground arith)
  IsStrict-text names (inr (s, f, p)) = IsStrict-at (str s) f tt

-- A dict with distinct keys is strict if every value that can be looked up is.
pub IsStrict-obj :
    (fs : Fields)
    → IsUnique (obj fs)
    → ((k : String) (v : Value) → get fs k ≡ some v → IsStrict v)
    → IsStrict (obj fs)
unfolding IsStrict IsUnique
IsStrict-obj fs u h =
    (u.0, AllStrict_of_AllValues fs (AllValues-of_get (λ k v. IsStrict v) fs u.0 h))

pub key-Among :
    (fs : Fields) (names : List String) (k : String) (v : Value)
    → keys_within fs names ≡ true
    → get fs k ≡ some v
    → Among k names
key-Among fs names k v closed e = (member_iff k names).0 (member-keys_within fs names k v closed e)

pub keys_are-within :
    (fs : Fields) (names : List String) → keys_are fs names ≡ true → keys_within fs names ≡ true
unfolding keys_are
keys_are-within fs names h = ground arith
