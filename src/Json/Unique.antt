-- ===== src/Json/Unique.antt =====
-- The keys of what `json.loads` builds with the hook `_object_pairs` (runtime/__init__.py).
use qwen38_flash_next_nvidia.Prelude.{
  String, ◌≡◌, arith, ok, Result-cases, Bool-cases, inl, inr, ◌=ₛ◌,
}
use qwen38_flash_next_nvidia.Json.{Value, arr, obj, Items, nil, cons, Fields, end, field, has, put}
use qwen38_flash_next_nvidia.Json.Lookup.{Distinct}
use qwen38_flash_next_nvidia.Json.RoundTrip.{object_pairs-Distinct}
use qwen38_flash_next_nvidia.Json.Loads.{
  Syntax, null_token, bool_token, int_token, float_token, constant_token, str_token, array, object,
  Elements, no_elements, element, Members, no_members, pair, Hooks, build, build_elements,
  build_members, object_pairs,
}

unfoldable mutual
  pub IsUnique : Value → Type 0
  IsUnique (arr vs) = AllUnique vs
  IsUnique (obj fs) = Distinct fs × AllUniqueFields fs
  IsUnique v = Unit

  pub AllUnique : Items → Type 0
  AllUnique nil = Unit
  AllUnique (cons v vs) = IsUnique v × AllUnique vs

  pub AllUniqueFields : Fields → Type 0
  AllUniqueFields end = Unit
  AllUniqueFields (field k v fs) = IsUnique v × AllUniqueFields fs

AllUnique-put :
    (fs : Fields) (key : String) (v : Value)
    → IsUnique v
    → AllUniqueFields fs
    → AllUniqueFields (put fs key v)
unfolding IsUnique put
AllUnique-put end key v h d = (h, tt)
AllUnique-put (field k w fs) key v h d = elim (Bool-cases (k =ₛ key)) [
  | inl e ↦ rw e (h, d.1)
  | inr e ↦ rw e (d.0, AllUnique-put fs key v h d.1)
]

module _ {E : Type 0} (h : Hooks E) where
  object_pairs-AllUnique :
      (seen pairs fs : Fields)
      → object_pairs h seen pairs ≡ ok fs
      → AllUniqueFields seen
      → AllUniqueFields pairs
      → AllUniqueFields fs
  unfolding object_pairs IsUnique
  object_pairs-AllUnique seen end fs e d u = ground arith
  object_pairs-AllUnique seen (field k v pairs) fs e d u = elim (Bool-cases (has seen k)) [
    | inl old ↦ ground arith
    | inr new ↦
        object_pairs-AllUnique (put seen k v) pairs fs (ground arith) (AllUnique-put seen k v u.0 d)
          u.1
  ]

  mutual
    unfolding build IsUnique

    build-IsUnique_rec : (s : Syntax) (v : Value) → build h s ≡ ok v → IsUnique v
    build-IsUnique_rec null_token v e = ground arith
    build-IsUnique_rec (bool_token b) v e = ground arith
    build-IsUnique_rec (int_token n) v e = ground arith
    build-IsUnique_rec (float_token x) v e = ground arith
    build-IsUnique_rec (constant_token t) v e = cc
    build-IsUnique_rec (str_token t) v e = ground arith
    build-IsUnique_rec (array es) v e = elim (Result-cases (build_elements h es)) [
      | inl (vs, p) ↦ ground (arith, build_elements-AllUnique es vs p)
      | inr (x, p) ↦ ground arith
    ]
    build-IsUnique_rec (object ms) v e = elim (Result-cases (build_members h ms)) [
      | inl (pairs, p) ↦ elim (Result-cases (object_pairs h end pairs)) [
        | inl (fs, q) ↦ ground (
          arith,
          object_pairs-Distinct h end pairs fs q tt,
          object_pairs-AllUnique end pairs fs q tt (build_members-AllUnique ms pairs p),
        )
        | inr (x, q) ↦ ground arith
      ]
      | inr (x, p) ↦ ground arith
    ]

    build_elements-AllUnique :
        (es : Elements) (vs : Items) → build_elements h es ≡ ok vs → AllUnique vs
    build_elements-AllUnique no_elements vs e = ground arith
    build_elements-AllUnique (element s es) vs e = elim (Result-cases (build h s)) [
      | inl (v, p) ↦ elim (Result-cases (build_elements h es)) [
        | inl (ws, q) ↦ ground (arith, build-IsUnique_rec s v p, build_elements-AllUnique es ws q)
        | inr (x, q) ↦ ground arith
      ]
      | inr (x, p) ↦ ground arith
    ]

    build_members-AllUnique :
        (ms : Members) (fs : Fields) → build_members h ms ≡ ok fs → AllUniqueFields fs
    build_members-AllUnique no_members fs e = ground arith
    build_members-AllUnique (pair k s ms) fs e = elim (Result-cases (build h s)) [
      | inl (v, p) ↦ elim (Result-cases (build_members h ms)) [
        | inl (gs, q) ↦ ground (arith, build-IsUnique_rec s v p, build_members-AllUnique ms gs q)
        | inr (x, q) ↦ ground arith
      ]
      | inr (x, p) ↦ ground arith
    ]

  -- No dict of an accepted document, at any depth, repeats a key.
  pub build-IsUnique : (s : Syntax) (v : Value) → build h s ≡ ok v → IsUnique v
  build-IsUnique s v = build-IsUnique_rec s v
