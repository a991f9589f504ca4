-- ===== src/Json/RoundTrip.antt =====
-- Dicts with distinct keys and finite floats, and the hook that builds them (runtime/__init__.py).
use mathlib.Core.Path.{subst, sym}
use qwen38_flash_next_nvidia.Prelude.{
  String, ◌≡◌, refl, ap, ◌∙◌, true, false, arith, ◌=ₛ◌, =ₛ_iff, if◌then◌else◌, ok, Bool-cases, inl,
  inr,
}
use qwen38_flash_next_nvidia.Json.{
  Value, null, bool, int, float, str, arr, obj, Items, nil, cons, Fields, end, field, finite,
  infinity, nan, has, get, put, is_finite,
}
use qwen38_flash_next_nvidia.Json.Lookup.{Distinct}
use qwen38_flash_next_nvidia.Json.Loads.{
  Hooks, build, build_elements, build_members, dumps, dumps_items, dumps_fields, object_pairs,
}

-- Distinct keys and finite floats, at every depth.
unfoldable mutual
  pub IsStrict : Value → Type 0
  IsStrict (arr vs) = AllStrict vs
  IsStrict (obj fs) = Distinct fs × AllStrictFields fs
  IsStrict (float x) = is_finite x ≡ true
  IsStrict v = Unit

  pub AllStrict : Items → Type 0
  AllStrict nil = Unit
  AllStrict (cons v vs) = IsStrict v × AllStrict vs

  pub AllStrictFields : Fields → Type 0
  AllStrictFields end = Unit
  AllStrictFields (field k v fs) = IsStrict v × AllStrictFields fs

-- No key of the second dict is in the first.
abbrev Apart : Fields → Fields → Type 0
Apart seen end = Unit
Apart seen (field k v fs) = (has seen k ≡ false) × Apart seen fs

append_fields : Fields → Fields → Fields
append_fields end fs = fs
append_fields (field k v seen) fs = field k v (append_fields seen fs)

append_fields-end : (seen : Fields) → seen ≡ append_fields seen end
unfolding append_fields
append_fields-end end = refl
append_fields-end (field k v seen) = ap (λ rest. field k v rest) (append_fields-end seen)

append_field : Fields → String → Value → Fields
append_field end key v = field key v end
append_field (field k w fs) key v = field k w (append_field fs key v)

-- A new key is put at the end.
put-new :
    (seen : Fields) (key : String) (v : Value)
    → has seen key ≡ false
    → put seen key v ≡ append_field seen key v
unfolding put append_field has get
put-new end key v h = refl
put-new (field k w seen) key v h = elim (Bool-cases (k =ₛ key)) [
  | inl e ↦ ground arith
  | inr e ↦ rw e (ap (λ rest. field k w rest) (put-new seen key v (ground arith)))
]

append_fields-append_field :
    (seen fs : Fields) (k : String) (v : Value)
    → append_fields (append_field seen k v) fs ≡ append_fields seen (field k v fs)
unfolding append_fields append_field
append_fields-append_field end fs k v = refl
append_fields-append_field (field j w seen) fs k v =
    ap (λ rest. field j w rest) (append_fields-append_field seen fs k v)

has-append_field :
    (seen : Fields) (key k : String) (v : Value)
    → has (append_field seen key v) k ≡ (if key =ₛ k then true else has seen k)
unfolding has get append_field
has-append_field end key k v = ground arith
has-append_field (field j w seen) key k v = ground (arith, has-append_field seen key k v)

Apart-append_field :
    (seen fs : Fields) (key : String) (v : Value)
    → has fs key ≡ false
    → Apart seen fs
    → Apart (append_field seen key v) fs
unfolding has get
Apart-append_field seen end key v h a = tt
Apart-append_field seen (field k w fs) key v h a = ground (
  arith,
  has-append_field seen key k v,
  =ₛ_iff key k,
  =ₛ_iff k key,
  Apart-append_field seen fs key v,
)

Distinct-append_field :
    (fs : Fields) (key : String) (v : Value)
    → has fs key ≡ false
    → Distinct fs
    → Distinct (append_field fs key v)
unfolding has get append_field
Distinct-append_field end key v h d = (refl, tt)
Distinct-append_field (field k w fs) key v h d =
    ground (
      arith,
      has-append_field fs key k v,
      =ₛ_iff key k,
      =ₛ_iff k key,
      Distinct-append_field fs key v,
    )

Apart-end : (fs : Fields) → Apart end fs
unfolding has get
Apart-end end = tt
Apart-end (field k v fs) = (refl, Apart-end fs)

module _ {E : Type 0} (h : Hooks E) where
  object_pairs-append_fields :
      (seen fs : Fields)
      → Apart seen fs
      → Distinct fs
      → object_pairs h seen fs ≡ ok (append_fields seen fs)
  unfolding object_pairs
  object_pairs-append_fields seen end a d = ap ok (append_fields-end seen)
  object_pairs-append_fields seen (field k v fs) a d =
      rw (a.0, put-new seen k v a.0)
        (object_pairs-append_fields (append_field seen k v) fs
            (Apart-append_field seen fs k v d.0 a.1) d.1
          ∙ ap ok (append_fields-append_field seen fs k v))

  -- The dict that the hook returns has distinct keys.
  pub object_pairs-Distinct :
      (seen pairs fs : Fields) → object_pairs h seen pairs ≡ ok fs → Distinct seen → Distinct fs
  unfolding object_pairs
  object_pairs-Distinct seen end fs e d = ground arith
  object_pairs-Distinct seen (field k v pairs) fs e d = elim (Bool-cases (has seen k)) [
    | inl old ↦ ground arith
    | inr new ↦ object_pairs-Distinct (put seen k v) pairs fs (ground arith) (
        subst (λ gs. Distinct gs) (sym (put-new seen k v new))
          (Distinct-append_field seen k v new d))
  ]

  mutual
    unfolding build dumps IsStrict is_finite append_fields

    build-dumps_rec : (v : Value) → IsStrict v → build h (dumps v) ≡ ok v
    build-dumps_rec null s = refl
    build-dumps_rec (bool b) s = refl
    build-dumps_rec (int n) s = refl
    build-dumps_rec (float (finite m k)) s = refl
    build-dumps_rec (float (infinity true)) s = cc
    build-dumps_rec (float (infinity false)) s = cc
    build-dumps_rec (float nan) s = cc
    build-dumps_rec (str t) s = refl
    build-dumps_rec (arr vs) s = rw (build_elements-dumps vs s)
    build-dumps_rec (obj fs) s =
        rw (build_members-dumps fs s.1, object_pairs-append_fields end fs (Apart-end fs) s.0)

    build_elements-dumps : (vs : Items) → AllStrict vs → build_elements h (dumps_items vs) ≡ ok vs
    build_elements-dumps nil s = refl
    build_elements-dumps (cons v vs) s = rw (build-dumps_rec v s.0, build_elements-dumps vs s.1)

    build_members-dumps :
        (fs : Fields) → AllStrictFields fs → build_members h (dumps_fields fs) ≡ ok fs
    build_members-dumps end s = refl
    build_members-dumps (field k v fs) s = rw (build-dumps_rec v s.0, build_members-dumps fs s.1)

  -- In the tree model, loading what was dumped gives a strict value back, at every depth.
  pub build-dumps : (v : Value) → IsStrict v → build h (dumps v) ≡ ok v
  build-dumps v = build-dumps_rec v
