-- ===== src/Prelude/Hex.antt =====
-- The two patterns that the program matches whole texts with.
use Prim.Native.Nat.{ℕ}
use Prim.Native.String.{String}
use mathlib.Core.Bool.{Bool, ◌&&◌, ◌||◌}
use qwen38_flash_next_nvidia.Prelude.Lists.{length, all}
use qwen38_flash_next_nvidia.Prelude.Tests.{leb, ◌==◌, codes}

abbrev between : ℕ → ℕ → ℕ → Bool
between low high c = leb low c && leb c high

abbrev pub hex_digit : ℕ → Bool
hex_digit c = between b'0' b'9' c || between b'a' b'f' c

-- `re.fullmatch(r"[0-9a-f]{n}", s)`
unfoldable pub is_hex : ℕ → String → Bool
is_hex n s = length (codes s) == n && all hex_digit (codes s)

abbrev name_char : ℕ → Bool
name_char c =
    between b'A' b'Z' c
    || between b'a' b'z' c
    || between b'0' b'9' c
    || c == b'_'
    || c == b'.'
    || c == b'-'

-- `re.fullmatch(r"[A-Za-z0-9_.-]{1,128}", s)`
unfoldable pub is_basename : String → Bool
is_basename s = leb 1 (length (codes s)) && leb (length (codes s)) 128 && all name_char (codes s)
