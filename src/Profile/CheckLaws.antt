-- ===== src/Profile/CheckLaws.antt =====
-- What the field checks of runtime/__init__.py accept, both ways.
use native.Mathlib.Nat.{one-le-pow}
use qwen38_flash_next_nvidia.Prelude.{
  ℕ, suc, String, ◌≡◌, refl, ◌↔◌, ◌⊎◌, inl, inr, ◌*◌, ◌^◌, ◌≤◌, true, false, Option, none, some,
  List, [], ◌∷◌, ℤ, pos, negsuc, ◌≤ℤ◌, eqb_ℤ_iff, =ₛ_iff, ok, arith, Option-cases, refuse-eq-ok,
}
use qwen38_flash_next_nvidia.Json.{
  int, float, str, Fields, Float, finite, infinity, nan, get, has, member, leb_float, is_finite,
  float_of_int,
}
use qwen38_flash_next_nvidia.Profile.Checks.{
  IntRule, require_int, one_of, optional_int, optional_float, require_enum, optional_enum,
  number_value, in_rule, in_range, to_float, outside, below, above,
}

-- One of the listed values.
abbrev pub Among : {A : Type 0} → A → List A → Type 0
Among a [] = ⊥
Among a (x ∷ xs) = (a ≡ x) ⊎ Among a xs

pub one_of_iff : (n : ℤ) (allowed : List ℤ) → (one_of n allowed ≡ true) ↔ Among n allowed
unfolding one_of
one_of_iff n [] = (λ h. cc, λ h. absurd h)
one_of_iff n (a ∷ allowed) = ground (arith, eqb_ℤ_iff n a, one_of_iff n allowed)

pub member_iff : (s : String) (names : List String) → (member s names ≡ true) ↔ Among s names
unfolding member
member_iff s [] = (λ h. cc, λ h. absurd h)
member_iff s (n ∷ names) = ground (arith, =ₛ_iff n s, member_iff s names)

module _ (raw : Fields) (key : String) where
  pub require_int_iff : (n : ℤ) → (require_int raw key ≡ ok n) ↔ (get raw key ≡ some (int n))
  unfolding require_int
  require_int_iff n = ground arith

  pub require_enum_iff :
      (allowed : List String) (s : String)
      → (require_enum raw key allowed ≡ ok s) ↔ ((get raw key ≡ some (str s)) × Among s allowed)
  unfolding require_enum
  require_enum_iff allowed s = elim (Option-cases (get raw key)) [
    | inl e ↦ ground arith
    | inr (str t, e) ↦ ground (arith, member_iff t allowed, member_iff s allowed)
    | inr (v, e) ↦ ground arith
  ]

abbrev Allowed : List ℤ → ℤ → Type 0
Allowed [] n = Unit
Allowed (a ∷ allowed) n = Among n (a ∷ allowed)

abbrev AtLeast : Option ℤ → ℤ → Type 0
AtLeast none n = Unit
AtLeast (some minimum) n = minimum ≤ℤ n

abbrev AtMost : Option ℤ → ℤ → Type 0
AtMost none n = Unit
AtMost (some maximum) n = n ≤ℤ maximum

-- What a rule of `_optional_int` lets through.
abbrev pub Passes : IntRule → ℤ → Type 0
Passes rule n = Allowed rule.allowed n × AtLeast rule.minimum n × AtMost rule.maximum n

outside_iff : (allowed : List ℤ) (n : ℤ) → (outside allowed n ≡ false) ↔ Allowed allowed n
unfolding outside
outside_iff [] n = (λ h. tt, λ h. refl)
outside_iff (a ∷ allowed) n = ground (arith, one_of_iff n (a ∷ allowed))

below_iff : (minimum : Option ℤ) (n : ℤ) → (below minimum n ≡ false) ↔ AtLeast minimum n
unfolding below
below_iff none n = (λ h. tt, λ h. refl)
below_iff (some m) n = ground arith

above_iff : (maximum : Option ℤ) (n : ℤ) → (above maximum n ≡ false) ↔ AtMost maximum n
unfolding above
above_iff none n = (λ h. tt, λ h. refl)
above_iff (some m) n = ground arith

module _ (rule : IntRule) (key : String) (n : ℤ) where
  in_rule_sound : (m : ℤ) → in_rule rule key n ≡ ok m → (n ≡ m) × Passes rule n
  unfolding in_rule
  in_rule_sound m h =
      let (a, h₁) = refuse-eq-ok (outside rule.allowed n) _ _ h in
      let (b, h₂) = refuse-eq-ok (below rule.minimum n) _ _ h₁ in
      let (c, h₃) = refuse-eq-ok (above rule.maximum n) _ _ h₂ in
      (
        cc,
        (
          (outside_iff rule.allowed n).0 a,
          (below_iff rule.minimum n).0 b,
          (above_iff rule.maximum n).0 c,
        ),
      )

  in_rule_complete : Passes rule n → in_rule rule key n ≡ ok n
  unfolding in_rule
  in_rule_complete (a, b, c) = rw (
    (outside_iff rule.allowed n).1 a,
    (below_iff rule.minimum n).1 b,
    (above_iff rule.maximum n).1 c,
  )

module _ (raw : Fields) (key : String) (rule : IntRule) where
  -- An accepted field is absent and has a default, or passes the rule.
  pub optional_int_sound :
      (m : ℤ)
      → optional_int raw key rule ≡ ok m
      → ((get raw key ≡ none) × (rule.default ≡ some m))
        ⊎ ((get raw key ≡ some (int m)) × Passes rule m)
  unfolding optional_int
  optional_int_sound m h = elim (Option-cases (get raw key)) [
    | inl e ↦ elim (Option-cases rule.default) [ inl d ↦ ground arith | inr (n, d) ↦ ground arith ]
    | inr (int n, e) ↦ inr (ground (arith, in_rule_sound rule key n m))
    | inr (v, e) ↦ ground arith
  ]

  pub optional_int_absent :
      (d : ℤ) → rule.default ≡ some d → get raw key ≡ none → optional_int raw key rule ≡ ok d
  unfolding optional_int
  optional_int_absent d h e = ground arith

  pub optional_int_present :
      (n : ℤ) → get raw key ≡ some (int n) → Passes rule n → optional_int raw key rule ≡ ok n
  unfolding optional_int
  optional_int_present n e p = ground (arith, in_rule_complete rule key n p)

-- The numbers that `mem_fraction_static` may take, m / 2 ^ k between two floats a / 2 ^ i and b / 2 ^ j.
abbrev pub InFraction : ℕ → ℕ → ℕ → ℕ → Float → Type 0
InFraction a i b j (finite (pos m) k) = (a * 2 ^ k ≤ m * 2 ^ i) × (m * 2 ^ j ≤ b * 2 ^ k)
InFraction a i b j _ = ⊥

mul-pos : (m p : ℕ) → 1 ≤ p → 1 ≤ suc m * p
mul-pos m p h = grind arith

module _ (key : String) (a i b j : ℕ) where
  in_range_sound :
      (x y : Float)
      → in_range (finite (pos a) i) (finite (pos b) j) key x ≡ ok y
      → (x ≡ y) × InFraction a i b j x
  unfolding in_range is_finite leb_float
  in_range_sound (finite (pos m) k) y h = ground arith
  in_range_sound (finite (negsuc m) k) y h =
      ground (arith, one-le-pow i 2 (omega arith), mul-pos m (2 ^ i))
  in_range_sound (infinity negative) y h = cc
  in_range_sound nan y h = cc

  in_range_complete :
      (x : Float)
      → InFraction a i b j x
      → in_range (finite (pos a) i) (finite (pos b) j) key x ≡ ok x
  unfolding in_range is_finite leb_float
  in_range_complete (finite (pos m) k) h = ground arith
  in_range_complete (finite (negsuc m) k) h = absurd h
  in_range_complete (infinity negative) h = absurd h
  in_range_complete nan h = absurd h

module _ (raw : Fields) (key : String) (a i b j : ℕ) (d : Float) where
  -- A float in the range, or no field; an integer is accepted only if its float is in the range.
  pub optional_float_sound :
      (x : Float)
      → optional_float raw key (finite (pos a) i) (finite (pos b) j) d ≡ ok x
      → ((get raw key ≡ none) × (d ≡ x))
        ⊎ (((get raw key ≡ some (float x)) × InFraction a i b j x)
            ⊎ ((n : ℤ) × (get raw key ≡ some (int n))
                × (float_of_int n ≡ some x)
                × InFraction a i b j x))
  unfolding optional_float number_value to_float
  optional_float_sound x h = elim (Option-cases (get raw key)) [
    | inl e ↦ inl (ground arith)
    | inr (int n, e) ↦ elim (Option-cases (float_of_int n)) [
      | inl f ↦ ground arith
      | inr (y, f) ↦
          let p : (y ≡ x) × InFraction a i b j y = in_range_sound key a i b j y x (ground arith) in
          inr (inr (n, e, ground arith, ground arith))
    ]
    | inr (float y, e) ↦ inr (inl (ground (arith, in_range_sound key a i b j y x)))
    | inr (v, e) ↦ ground arith
  ]

  pub optional_float_absent :
      get raw key ≡ none → optional_float raw key (finite (pos a) i) (finite (pos b) j) d ≡ ok d
  unfolding optional_float
  optional_float_absent e = ground arith

  pub optional_float_present :
      (x : Float)
      → get raw key ≡ some (float x)
      → InFraction a i b j x
      → optional_float raw key (finite (pos a) i) (finite (pos b) j) d ≡ ok x
  unfolding optional_float number_value
  optional_float_present x e p = ground (arith, in_range_complete key a i b j x p)

module _ (raw : Fields) (key : String) (allowed : List String) (default : String) where
  pub optional_enum_sound :
      (s : String)
      → optional_enum raw key allowed default ≡ ok s
      → ((get raw key ≡ none) × (default ≡ s)) ⊎ ((get raw key ≡ some (str s)) × Among s allowed)
  unfolding optional_enum has
  optional_enum_sound s h = elim (Option-cases (get raw key)) [
    | inl e ↦ inl (ground arith)
    | inr (v, e) ↦ inr (ground (arith, (require_enum_iff raw key allowed s).0))
  ]

  pub optional_enum_absent : get raw key ≡ none → optional_enum raw key allowed default ≡ ok default
  unfolding optional_enum has
  optional_enum_absent e = ground arith

  pub optional_enum_present :
      (s : String)
      → get raw key ≡ some (str s)
      → Among s allowed
      → optional_enum raw key allowed default ≡ ok s
  unfolding optional_enum has
  optional_enum_present s e m = ground (arith, (require_enum_iff raw key allowed s).1 (e, m))
