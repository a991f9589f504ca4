-- ===== src/Compare/Prose.antt =====
-- `measured_prose_rows` of scripts/compare.py. The quotient of two floats, `float(v)` of a value and
-- the comparison of two rates are parameters.
pub mod Kept
mod Tests
use qwen38_flash_next_nvidia.Prelude.{
  ℕ, zero, suc, ◌+◌, String, Bool, true, false, not, ◌&&◌, ◌||◌, Option, none, some, List, [], ◌∷◌,
  ℤ, pos, ltb_ℤ, ◌==◌, ◌=ₛ◌, Result, ok, err, ◌>>=◌, ◌>>◌, require, refuse, if◌then◌else◌, pos_part,
  neg_part,
}
use qwen38_flash_next_nvidia.Json.{
  Value, null, int, str, obj, Fields, get, has_all, text_is, Float, leb_float, truthy,
}
use qwen38_flash_next_nvidia.Guard.{is_true}
use qwen38_flash_next_nvidia.Compare.Upstream.{Rated, reject, require_finite_positive}

-- The warm-up rows, which are left out.
abbrev pub is_warmup : Fields → Bool
is_warmup row = is_true (get row "warmup") || text_is (get row "repeat") "warmup"

abbrev pub prose_keys : List String
prose_keys = "case" ∷ "repeat" ∷ "valid" ∷ "finish_reason" ∷ "usage" ∷ "wall_s" ∷ "ttft_s" ∷ []

abbrev pub usage_object : Option Value → Rated Fields
usage_object (some (obj usage)) = ok usage
usage_object _ = err reject

-- `type(usage.get(key)) is int`
abbrev pub exact_int : Option Value → Rated ℤ
exact_int (some (int n)) = ok n
exact_int _ = err reject

-- `total == prompt + completion`
abbrev pub is_sum : ℤ → ℤ → ℤ → Bool
is_sum total a b =
    pos_part total + (neg_part a + neg_part b) == neg_part total + (pos_part a + pos_part b)

-- `v is not None`, of a key that may be missing
abbrev pub is_none : Option Value → Bool
is_none none = true
is_none (some null) = true
is_none (some v) = false

abbrev pub is_filled : Option Value → Bool
is_filled none = false
is_filled (some v) = truthy v

-- The completion tokens of a usage that adds up.
unfoldable pub usage_tokens : Fields → Rated ℤ
usage_tokens usage = do
  prompt ← exact_int (get usage "prompt_tokens")
  completion ← exact_int (get usage "completion_tokens")
  total ← exact_int (get usage "total_tokens")
  refuse (ltb_ℤ prompt (pos 0)) reject
  require (is_sum total prompt completion) reject
  ok completion

module _ (divide : Float → Float → Float) (float_of : Value → Rated Float)
    (disagrees : Float → Float → Bool) where
  -- `e2erate`, if the row states one
  abbrev pub check_stated : Option Value → Float → Rated (Unit {0})
  check_stated none rate = ok tt
  check_stated (some null) rate = ok tt
  check_stated (some v) rate = do stated ← float_of v; refuse (disagrees stated rate) reject

  -- One round of the loop: the rate of a row that is no warm-up.
  unfoldable pub check_prose_row : Fields → Rated Float
  unfolding usage_tokens require_finite_positive
  check_prose_row row = do
    require (has_all row prose_keys) reject
    require (is_true (get row "valid")) reject
    require
        (text_is (get row "model") "nvidia/Qwen3.8-Flash-Next-NVFP4"
          && text_is (get row "finish_reason") "stop")
        reject
    usage ← usage_object (get row "usage")
    tokens ← usage_tokens usage
    comp ← require_finite_positive (some (int tokens))
    wall ← require_finite_positive (get row "wall_s")
    ttft ← require_finite_positive (get row "ttft_s")
    require (leb_float ttft wall) reject
    require
        (is_true (get row "ok") && is_none (get row "error") && is_filled (get row "raw_events"))
        reject
    _ ← check_stated (get row "e2erate") (divide comp wall)
    ok (divide comp wall)

  -- `measured_prose_rows`: the rows, each with its `_rate`
  unfoldable pub measured_prose_rows : List Fields → Rated (List (Fields × Float))
  unfolding check_prose_row
  measured_prose_rows [] = ok []
  measured_prose_rows (row ∷ rows) =
      let rest = measured_prose_rows rows in
      if is_warmup row
      then rest
      else (check_prose_row row >>= λ rate. rest >>= λ more. ok ((row, rate) ∷ more))
