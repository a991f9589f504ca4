-- ===== src/Json/Lookup.antt =====
-- Laws of lookups in a dict.
use qwen38_flash_next_nvidia.Prelude.{
  refl, String, ◌≡◌, true, false, none, some, List, arith, =ₛ_iff, Option-cases, inl, inr,
}
use qwen38_flash_next_nvidia.Json.{
  Value, Fields, end, field, get, has, keys_within, member, hex_at, text_is, Option, ℕ, str, is_hex,
}

-- No key comes twice.
abbrev pub Distinct : Fields → Type 0
Distinct end = Unit
Distinct (field k v fs) = (has fs k ≡ false) × Distinct fs

pub has-get : (fs : Fields) (k : String) (v : Value) → get fs k ≡ some v → has fs k ≡ true
unfolding has
has-get fs k v h = rw (h, has)

pub get-has-false : (fs : Fields) (k : String) → has fs k ≡ false → get fs k ≡ none
unfolding has
get-has-false fs k h = elim (Option-cases (get fs k)) [ inl e ↦ e | inr (v, e) ↦ ground arith ]

pub get-has-true : (fs : Fields) (k : String) → has fs k ≡ true → (v : Value) × (get fs k ≡ some v)
unfolding has
get-has-true fs k h = elim (Option-cases (get fs k)) [ inl e ↦ ground arith | inr (v, e) ↦ (v, e) ]

-- In a dict with distinct keys, every value holds a property that every lookup yields.
abbrev pub AllValues {ℓ} : (String → Value → Type ℓ) → Fields → Type ℓ
AllValues P end = Unit
AllValues P (field k v fs) = P k v × AllValues P fs

pub AllValues-of_get {ℓ} :
    (P : String → Value → Type ℓ) (fs : Fields)
    → Distinct fs
    → ((k : String) (v : Value) → get fs k ≡ some v → P k v)
    → AllValues P fs
unfolding get
AllValues-of_get P end d h = tt
AllValues-of_get P (field k v fs) d h = (
  h k v (ground (arith, =ₛ_iff k k)),
  AllValues-of_get P fs d.1 λ k' v' e. h k' v' (skip k' v' e),
)
  where
    skip : (k' : String) (v' : Value) → get fs k' ≡ some v' → get (field k v fs) k' ≡ some v'
    skip k' v' e = ground (arith, =ₛ_iff k k', has-get fs k' v' e)

pub member-keys_within :
    (fs : Fields) (names : List String) (k : String) (v : Value)
    → keys_within fs names ≡ true
    → get fs k ≡ some v
    → member k names ≡ true
unfolding get keys_within
member-keys_within end names k v h e = cc
member-keys_within (field j w fs) names k v h e =
    ground (arith, =ₛ_iff j k, member-keys_within fs names k v)

-- What a passed test says.
pub text_is-eq-true : (o : Option Value) (t : String) → text_is o t ≡ true → o ≡ some (str t)
unfolding text_is
text_is-eq-true (some (str s)) t h = ground (arith, =ₛ_iff s t)
text_is-eq-true _ t h = cc

pub hex_at-eq-true :
    (n : ℕ) (o : Option Value)
    → hex_at n o ≡ true
    → (s : String) × (o ≡ some (str s)) × (is_hex n s ≡ true)
unfolding hex_at
hex_at-eq-true n (some (str s)) h = (s, refl, h)
hex_at-eq-true n _ h = cc
