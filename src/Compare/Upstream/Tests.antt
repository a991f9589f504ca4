-- ===== src/Compare/Upstream/Tests.antt =====
-- A run of the short lane, and the witness.
use qwen38_flash_next_nvidia.Json.{
  has_all, text_is, hex_at, is_finite, leb_float, Value, Fields, Items, str, int, float, arr, obj,
  nil, cons, end, field, get, Float, finite,
}
use qwen38_flash_next_nvidia.Prelude.{is_hex, ◌≡◌, refl, ℕ, zero, suc, String, Bool, false, ok, pos}
use qwen38_flash_next_nvidia.Compare.Upstream.{upstream_rate, require_finite_positive}
use qwen38_flash_next_nvidia.Compare.Upstream.Tokens.{IsObserved, upstream_rate-IsObserved}

-- `n / x` of a duration of 8 seconds
abbrev divide : ℕ → Float → Float
divide n x = finite (pos n) 3

abbrev disagrees : Float → Float → Bool
disagrees a b = false

abbrev times : ℕ → Value → Items
times zero v = nil
times (suc n) v = cons v (times n v)

abbrev usage : Value
usage = obj (
    field "prompt_tokens" (int (pos 512))
      (field "completion_tokens" (int (pos 256)) (field "total_tokens" (int (pos 768)) end)))

abbrev eight : Value → Value
eight v = arr (times 8 v)

abbrev hash : String
hash = "0123456789abcdef0123456789abcdef0123456789abcdef0123456789abcdef"

abbrev observed : Fields → Fields
observed rest = field "usage_source" (str "observed_oai_sse") (
    field "finish_source" (str "observed_oai_sse") (
      field "finish_reasons" (eight (str "length")) (
        field "observed_usage" (eight usage) (
          field "cached_tokens" (eight (int (pos 0)))
            (field "request_hashes" (eight (str hash)) rest)))))

abbrev protocol : Fields → Fields
protocol rest = field "random_input_len" (int (pos 512)) (
    field "random_output_len" (int (pos 256)) (
      field "max_concurrency" (int (pos 1)) (
        field "total_input_tokens" (int (pos 4096)) (
          field "total_output_tokens" (int (pos 2048)) (
            field "backend" (str "sglang-oai") (
              field "input_lens" (eight (int (pos 512))) (
                field "output_lens" (eight (int (pos 256))) (
                  field "errors" (eight (str ""))
                    (field "generated_texts" (eight (str "text")) rest)))))))))

abbrev row : Fields
row = observed (
    protocol (
      field "completed" (int (pos 8)) (
        field "ttfts" (eight (float (finite (pos 1) 2))) (
          field "duration" (float (finite (pos 8) 0))
            (field "output_throughput" (float (finite (pos 2048) 3)) end)))))

rated : upstream_rate divide disagrees (obj row) "short" ≡ ok (finite (pos 2048) 3)
unfolding upstream_rate has_all text_is hex_at is_hex is_finite leb_float
rated = refl

upstream_rate-IsObserved_example :
    (fields : Fields) × (obj row ≡ obj fields)
    × ((tokens : ℕ) × IsObserved fields tokens
        × ((duration stated : Float) × (require_finite_positive (get fields "duration")
              ≡ ok duration)
            × (finite (pos 2048) 3 ≡ divide tokens duration)
            × (require_finite_positive (get fields "output_throughput") ≡ ok stated)
            × (disagrees stated (finite (pos 2048) 3) ≡ false)))
upstream_rate-IsObserved_example =
    upstream_rate-IsObserved divide disagrees (obj row) "short" (finite (pos 2048) 3) rated
