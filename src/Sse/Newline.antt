-- ===== src/Sse/Newline.antt =====
-- Where `_find_newline` of scripts/http_client.py cuts, and that more bytes do not change it.
use qwen38_flash_next_nvidia.Prelude.{
  ℕ, zero, suc, ◌+◌, ◌≤◌, ◌<◌, ◌≡◌, refl, ◌⊎◌, inl, inr, none, some, List, [], ◌∷◌, ◌++◌, arith,
  length, length-append, Option-cases,
}
use qwen38_flash_next_nvidia.Sse.{find, byte_is, lf, cr, find_newline}

module _ (c : ℕ) where
  find-lt-length : (buf : List ℕ) (i : ℕ) → find c buf ≡ some i → i < length buf
  unfolding find
  find-lt-length [] i h = cc
  find-lt-length (b ∷ buf) i h = elim (Option-cases (find c buf)) [
    | inl e ↦ ground arith
    | inr (j, e) ↦ ground (arith, find-lt-length buf j e)
  ]

  find-append : (buf more : List ℕ) (i : ℕ) → find c buf ≡ some i → find c (buf ++ more) ≡ some i
  unfolding find
  find-append [] more i h = cc
  find-append (b ∷ buf) more i h = elim (Option-cases (find c buf)) [
    | inl e ↦ ground arith
    | inr (j, e) ↦ ground (arith, find-append buf more j e)
  ]

  -- What the longer buffer adds stands behind the shorter one.
  find-append_none :
      (buf more : List ℕ) (i : ℕ)
      → find c buf ≡ none
      → find c (buf ++ more) ≡ some i
      → length buf ≤ i
  unfolding find
  find-append_none [] more i h k = omega arith
  find-append_none (b ∷ buf) more i h k = elim (Option-cases (find c (buf ++ more))) [
    | inl e ↦ ground arith
    | inr (j, e) ↦ ground (arith, find-append_none buf more j)
  ]

  find-append_cases :
      (buf more : List ℕ)
      → find c buf ≡ none
      → find c (buf ++ more) ≡ none ⊎ ((i : ℕ) × (find c (buf ++ more) ≡ some i) × (length buf ≤ i))
  find-append_cases buf more h = elim (Option-cases (find c (buf ++ more))) [
    | inl e ↦ inl e
    | inr (i, e) ↦ inr (i, e, find-append_none buf more i h e)
  ]

  byte_is-append :
      (i : ℕ) (buf more : List ℕ) → i < length buf → byte_is c i (buf ++ more) ≡ byte_is c i buf
  unfolding byte_is
  byte_is-append i [] more h = absurd (omega arith)
  byte_is-append zero (b ∷ buf) more h = refl
  byte_is-append (suc i) (b ∷ buf) more h = byte_is-append i buf more (omega arith)

module _ (buf : List ℕ) (i j : ℕ) (cut : find_newline buf ≡ some (i, j)) where
  -- A line and its terminator lie within the buffer, and the terminator is not empty.
  pub find_newline_bounds : (i < j) × (j ≤ length buf)
  unfolding find_newline
  find_newline_bounds = elim (Option-cases (find lf buf)) [
    | inl no_lf ↦ elim (Option-cases (find cr buf)) [
      | inl no_cr ↦ ground arith
      | inr (k, at) ↦ ground (arith, find-lt-length cr buf k at)
    ]
    | inr (l, at) ↦ elim (Option-cases (find cr buf)) [
      | inl no_cr ↦ ground (arith, find-lt-length lf buf l at)
      | inr (k, at') ↦ ground (arith, find-lt-length lf buf l at, find-lt-length cr buf k at')
    ]
  ]

  -- A line that can be cut is cut the same way when more bytes follow.
  pub find_newline-append : (more : List ℕ) → find_newline (buf ++ more) ≡ some (i, j)
  unfolding find_newline
  find_newline-append more = elim (Option-cases (find lf buf)) [
    | inl no_lf ↦ elim (Option-cases (find cr buf)) [
      | inl no_cr ↦ ground arith
      | inr (k, at) ↦ ground (
        arith,
        find-append cr buf more k at,
        find-lt-length cr buf k at,
        length-append buf more,
        byte_is-append lf (k + 1) buf more,
        find-append_cases lf buf more no_lf,
      )
    ]
    | inr (l, at) ↦ elim (Option-cases (find cr buf)) [
      | inl no_cr ↦ ground (
        arith,
        find-append lf buf more l at,
        find-lt-length lf buf l at,
        find-append_cases cr buf more no_cr,
      )
      | inr (k, at') ↦ ground (
        arith,
        find-append lf buf more l at,
        find-append cr buf more k at',
        find-lt-length lf buf l at,
        find-lt-length cr buf k at',
        length-append buf more,
        byte_is-append lf (k + 1) buf more,
      )
    ]
  ]
