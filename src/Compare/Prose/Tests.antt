-- ===== src/Compare/Prose/Tests.antt =====
-- A warm-up row and a measured one, and the witness.
use qwen38_flash_next_nvidia.Prelude.{true, false, Bool, List, [], ◌∷◌, ok, err, pos}
use qwen38_flash_next_nvidia.Json.{
  Value, Fields, str, int, float, bool, arr, obj, nil, cons, end, field, Float, finite,
}
use qwen38_flash_next_nvidia.Compare.Upstream.{Rated, reject}

-- The quotient of 40 tokens and 2 seconds
abbrev divide : Float → Float → Float
divide x y = finite (pos 20) 0

abbrev float_of : Value → Rated Float
float_of (float x) = ok x
float_of v = err reject

abbrev disagrees : Float → Float → Bool
disagrees x y = false

abbrev warmup : Fields
warmup = field "case" (str "city_heat_water") (field "repeat" (str "warmup") end)

abbrev row : Fields
row = field "case" (str "city_heat_water") (
    field "repeat" (int (pos 0)) (
      field "valid" (bool true) (
        field "model" (str "nvidia/Qwen3.8-Flash-Next-NVFP4") (
          field "finish_reason" (str "stop") (
            field "usage"
              (obj (
                field "prompt_tokens" (int (pos 12)) (
                  field "completion_tokens" (int (pos 40))
                    (field "total_tokens" (int (pos 52)) end))))
              (field "wall_s" (float (finite (pos 2) 0)) (
                field "ttft_s" (float (finite (pos 1) 2)) (
                  field "ok" (bool true) (
                    field "raw_events" (arr (cons (str "data") nil))
                      (field "e2erate" (float (finite (pos 20) 0)) end))))))))))

abbrev kept : List (Fields × Float)
kept = (row, finite (pos 20) 0) ∷ []

abbrev rows : List Fields
rows = warmup ∷ row ∷ []
