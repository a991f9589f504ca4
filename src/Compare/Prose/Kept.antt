-- ===== src/Compare/Prose/Kept.antt =====
-- The rows that `measured_prose_rows` of scripts/compare.py keeps.
use qwen38_flash_next_nvidia.Prelude.{◌≡◌, Bool, true, false, some, List, [], ◌∷◌, ◌++◌, ℤ, ok}
use qwen38_flash_next_nvidia.Json.{Value, int, Fields, get, Float, leb_float, has_all, text_is}
use qwen38_flash_next_nvidia.Guard.{is_true}
use qwen38_flash_next_nvidia.Compare.Upstream.{Rated, require_finite_positive}
use qwen38_flash_next_nvidia.Compare.Prose.{is_warmup, usage_tokens, usage_object, has_all, text_is}

-- The rows that are no warm-up, in their order.
abbrev pub not_warmup : Bool → Fields → List Fields
not_warmup true row = []
not_warmup false row = row ∷ []

abbrev pub measured : List Fields → List Fields
measured [] = []
measured (row ∷ rows) = not_warmup (is_warmup row) row ++ measured rows

module _ (divide : Float → Float → Float) (float_of : Value → Rated Float)
    (disagrees : Float → Float → Bool) where
  -- A valid row and its rate, completion tokens by wall time.
  pub record IsMeasured (entry : Fields × Float) : Type 0 where
    pub valid : is_true (get entry.0 "valid") ≡ true
    pub usage : Fields
    pub usage_eq : usage_object (get entry.0 "usage") ≡ ok usage
    pub tokens : ℤ
    pub tokens_eq : usage_tokens usage ≡ ok tokens
    pub completion : Float
    pub completion_eq : require_finite_positive (some (int tokens)) ≡ ok completion
    pub wall : Float
    pub wall_eq : require_finite_positive (get entry.0 "wall_s") ≡ ok wall
    pub ttft : Float
    pub ttft_eq : require_finite_positive (get entry.0 "ttft_s") ≡ ok ttft
    pub ttft_within : leb_float ttft wall ≡ true
    pub rate_eq : entry.1 ≡ divide completion wall
