-- ===== src/Compare/Upstream.antt =====
-- `_upstream_rate` of scripts/compare.py: the checks of a run of the upstream benchmark. The quotient
-- of a number and a float, and the comparison of two rates, are parameters.
pub mod Tokens
mod Tests
use qwen38_flash_next_nvidia.Prelude.{
  ℕ, zero, suc, ◌+◌, ◌*◌, String, Bool, true, false, not, ◌&&◌, Option, none, some, List, [], ◌∷◌,
  ℤ, pos, ◌==◌, ◌=ₛ◌, Result, ok, err, ◌>>=◌, ◌>>◌, require, refuse, if◌then◌else◌,
}
use qwen38_flash_next_nvidia.Json.{
  Value, int, float, str, arr, obj, Items, nil, cons, Fields, get, has_all, text_is, hex_at, Float,
  finite, is_finite, leb_float, float_of_int,
}
use qwen38_flash_next_nvidia.Entrypoint.Plan.{int_is, some_text}

-- Reject, or the OverflowError of `float`.
pub data RateError : Type 0 where
  reject overflows : RateError

abbrev pub Rated : Type 0 → Type 0
Rated = Result RateError

abbrev pub positive : Float → Rated Float
positive x = if is_finite x && not (leb_float x (finite (pos 0) 0)) then ok x else err reject

abbrev pub float_or_overflow : Option Float → Rated Float
float_or_overflow none = err overflows
float_or_overflow (some x) = positive x

-- `require_finite_positive`
unfoldable pub require_finite_positive : Option Value → Rated Float
require_finite_positive (some (int n)) = float_or_overflow (float_of_int n)
require_finite_positive (some (float x)) = positive x
require_finite_positive _ = err reject

unfoldable pub items_length : Items → ℕ
items_length nil = 0
items_length (cons v vs) = items_length vs + 1

unfoldable pub items_all : (Value → Bool) → Items → Bool
items_all test nil = true
items_all test (cons v vs) = test v && items_all test vs

-- A list of 8 values that pass a test
unfoldable pub is_eight : (Value → Bool) → Option Value → Bool
unfolding items_length items_all
is_eight test (some (arr vs)) = items_length vs == 8 && items_all test vs
is_eight test _ = false

abbrev pub is_int : ℕ → Value → Bool
is_int n v = int_is (pos n) (some v)

-- The observed usage of one request
abbrev pub is_usage : ℕ → ℕ → Value → Bool
is_usage inp out (obj item) =
    int_is (pos inp) (get item "prompt_tokens")
    && int_is (pos out) (get item "completion_tokens")
    && int_is (pos (inp + out)) (get item "total_tokens")
is_usage inp out _ = false

-- The lengths of the two lanes
unfoldable pub lane_lengths : String → Rated (ℕ × ℕ)
lane_lengths lane =
    if lane =ₛ "short"
    then ok (512, 256)
    else if lane =ₛ "medium"
    then ok (2048, 512)
    else err reject

abbrev pub as_dict_row : Value → Rated Fields
as_dict_row (obj row) = ok row
as_dict_row _ = err reject

abbrev pub upstream_keys : List String
upstream_keys =
    "duration" ∷ "completed" ∷ "total_input_tokens" ∷ "total_output_tokens" ∷ "output_throughput"
    ∷ "backend" ∷ "max_concurrency" ∷ "random_input_len" ∷ "random_output_len" ∷ "input_lens"
    ∷ "output_lens" ∷ "errors" ∷ "generated_texts" ∷ "ttfts" ∷ []

-- From the finish reasons to the request hashes
unfoldable pub check_observed : ℕ → ℕ → Fields → Rated (Unit {0})
unfolding is_eight
check_observed inp out row = do
  require
      (text_is (get row "usage_source") "observed_oai_sse"
        && text_is (get row "finish_source") "observed_oai_sse")
      reject
  require (is_eight (λ v. text_is (some v) "length") (get row "finish_reasons")) reject
  require (is_eight (is_usage inp out) (get row "observed_usage")) reject
  require (is_eight (is_int 0) (get row "cached_tokens")) reject
  require (is_eight (λ v. hex_at 64 (some v)) (get row "request_hashes")) reject

-- The fields of the protocol
unfoldable pub check_protocol : ℕ → ℕ → Fields → Rated (Unit {0})
unfolding is_eight some_text
check_protocol inp out row = do
  require (int_is (pos inp) (get row "random_input_len")) reject
  require (int_is (pos out) (get row "random_output_len")) reject
  require (int_is (pos 1) (get row "max_concurrency")) reject
  require (int_is (pos (8 * inp)) (get row "total_input_tokens")) reject
  require (int_is (pos (8 * out)) (get row "total_output_tokens")) reject
  require (text_is (get row "backend") "sglang-oai") reject
  require (is_eight (is_int inp) (get row "input_lens")) reject
  require (is_eight (is_int out) (get row "output_lens")) reject
  require
      (is_eight (λ v. text_is (some v) "") (get row "errors")
        && is_eight (λ v. some_text (some v)) (get row "generated_texts"))
      reject

abbrev pub eight_items : Option Value → Rated Items
eight_items (some (arr vs)) = if items_length vs == 8 then ok vs else err reject
eight_items _ = err reject

-- The loop over `ttfts`
unfoldable pub check_ttfts : Items → Rated (Unit {0})
unfolding require_finite_positive
check_ttfts nil = ok tt
check_ttfts (cons v vs) = do _ ← require_finite_positive (some v); check_ttfts vs

-- `divide n x` is `n / x`, and `disagrees a b` is `abs(a - b) > max(1e-6, 0.02 * b)`.
module _ (divide : ℕ → Float → Float) (disagrees : Float → Float → Bool) where
  -- `_upstream_rate`
  unfoldable pub upstream_rate : Value → String → Rated Float
  unfolding lane_lengths check_observed check_protocol check_ttfts require_finite_positive
  upstream_rate value lane = do
    (inp, out) ← lane_lengths lane
    row ← as_dict_row value
    require (has_all row upstream_keys) reject
    require (int_is (pos 8) (get row "completed")) reject
    _ ← check_observed inp out row
    _ ← check_protocol inp out row
    ttfts ← eight_items (get row "ttfts")
    _ ← check_ttfts ttfts
    duration ← require_finite_positive (get row "duration")
    stated ← require_finite_positive (get row "output_throughput")
    refuse (disagrees stated (divide (8 * out) duration)) reject
    ok (divide (8 * out) duration)
