-- ===== src/Json/Number.antt =====
-- Python's float, as the program uses it: order, `math.isfinite` and `float(n)` of an integer.
use qwen38_flash_next_nvidia.Prelude.{
  ◌≡◌, arith, ℕ, zero, suc, ◌+◌, ◌-◌, ◌*◌, ◌/◌, ◌%◌, ◌^◌, Bool, true, false, not, ◌&&◌, Option,
  none, some, ℤ, pos, negsuc, pos_part, neg_part, ltb, leb, ◌==◌, if◌then◌else◌,
}

pub data Float : Type 0 where
  -- m / 2 ^ k
  finite : ℤ → ℕ → Float
  -- `true` for -inf
  infinity : Bool → Float
  nan : Float

-- a / 2 ^ j ≤ b / 2 ^ k
leb_finite : ℤ → ℕ → ℤ → ℕ → Bool
leb_finite a j b k =
    leb (pos_part a * 2 ^ k + neg_part b * 2 ^ j) (pos_part b * 2 ^ j + neg_part a * 2 ^ k)

-- `x <= y`
unfoldable pub leb_float : Float → Float → Bool
unfolding leb_finite
leb_float nan y = false
leb_float (finite a j) (finite b k) = leb_finite a j b k
leb_float (finite a j) (infinity negative) = not negative
leb_float (finite a j) nan = false
leb_float (infinity true) nan = false
leb_float (infinity true) y = true
leb_float (infinity false) (infinity false) = true
leb_float (infinity false) y = false

-- `math.isfinite(x)`, and what `x != x or x in (inf, -inf)` denies
unfoldable pub is_finite : Float → Bool
is_finite (finite m k) = true
is_finite (infinity negative) = false
is_finite nan = false

-- The number of binary digits. The number itself is enough fuel.
bits : ℕ → ℕ → ℕ
bits zero n = 0
bits (suc fuel) n = elim (n == 0) [ true ↦ 0 | false ↦ bits fuel (n / 2) + 1 ]

-- n / 2 ^ s, to the nearest, ties to even.
round_even : ℕ → ℕ → ℕ
round_even n s =
    let q = n / 2 ^ s in
    let r = 2 * (n % 2 ^ s) in
    if ltb r (2 ^ s) then q else if (r == 2 ^ s) && (q % 2 == 0) then q else q + 1

-- An integer keeps 53 binary digits.
round53 : ℕ → ℕ
unfolding bits round_even
round53 n =
    let size = bits n n in let s = size - 53 in if leb size 53 then n else round_even n s * 2 ^ s

-- A magnitude that rounds to 2 ^ 1024 or more is Python's `OverflowError`.
in_double : ℕ → ℤ → Option Float
in_double magnitude n = if ltb magnitude (2 ^ 1024) then some (finite n 0) else none

-- `float(n)`, with `none` for the `OverflowError`
unfoldable pub float_of_int : ℤ → Option Float
unfolding round53 in_double
float_of_int (pos n) = in_double (round53 n) (pos (round53 n))
float_of_int (negsuc n) = in_double (round53 (n + 1)) (negsuc (round53 (n + 1) - 1))

in_double-finite :
    (magnitude : ℕ) (n : ℤ) (x : Float) → in_double magnitude n ≡ some x → x ≡ finite n 0
unfolding in_double
in_double-finite magnitude n x h = ground arith

-- `float(n)` of an integer is an integer.
pub float_of_int-finite : (n : ℤ) (x : Float) → float_of_int n ≡ some x → (m : ℤ) × (x ≡ finite m 0)
unfolding float_of_int
float_of_int-finite (pos n) x h = (pos (round53 n), in_double-finite (round53 n) _ x h)
float_of_int-finite (negsuc n) x h =
    (negsuc (round53 (n + 1) - 1), in_double-finite (round53 (n + 1)) _ x h)
