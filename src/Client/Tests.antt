-- ===== src/Client/Tests.antt =====
-- A stream of one event and the done sentinel, cut in two ways; `json.loads` knows the one event only.
use qwen38_flash_next_nvidia.Client.Delivered.{UntilDone, delivered}
use qwen38_flash_next_nvidia.Prelude.{
  ℕ, suc, ◌+◌, ◌≤◌, ◌≡◌, ◌↔◌, String, true, none, some, List, [], ◌∷◌, refl, pos, arith, Result, ok,
  err, if◌then◌else◌,
}
use qwen38_flash_next_nvidia.Json.{Value, int, str, arr, obj, nil, cons, end, field, get, truthy}
use qwen38_flash_next_nvidia.Sse.{Text, fresh, feed, find, decode}
use qwen38_flash_next_nvidia.Client.{LoadError, decode_error, consume_event, same_text}
use qwen38_flash_next_nvidia.Client.Stream.{Opening, opened, stream_request, Reads}
use qwen38_flash_next_nvidia.Client.Chunking.{reads_of, stream_request_chunking}
use qwen38_flash_next_nvidia.Client.Fragments.{Timing, stream_request-Timing}
use qwen38_flash_next_nvidia.Client.Outcome.{IsComplete, stream_request-IsComplete}
use qwen38_flash_next_nvidia.Client.Validity.{row_validity, IsValid, row_validity_iff}

abbrev event : Value
event = obj (
    field "usage"
      (obj (
        field "prompt_tokens" (int (pos 5))
          (field "completion_tokens" (int (pos 2)) (field "total_tokens" (int (pos 7)) end))))
      (field "choices"
        (arr (
          cons
            (obj (
              field "finish_reason" (str "stop")
                (field "delta" (obj (field "content" (str "ok") end)) end)))
            nil))
        end))

-- The payload "1" stands for the event.
loads : Text → Result LoadError Value
unfolding same_text
loads payload = if same_text payload (49 ∷ []) then ok event else err decode_error

abbrev shown : Value → String
shown v = ""

clock : ℕ → ℕ
clock n = 100 + n

clock_steady : (i : ℕ) → clock i ≤ clock (suc i)
unfolding clock
clock_steady i = omega arith

strip : Text → Text
strip s = s

abbrev first_part : List ℕ
first_part = 100 ∷ 97 ∷ 116 ∷ 97 ∷ 58 ∷ 49 ∷ 10 ∷ []

abbrev second_part : List ℕ
second_part = 10 ∷ 100 ∷ 97 ∷ 116 ∷ 97 ∷ 58 ∷ 91 ∷ 68 ∷ 79 ∷ 78 ∷ 69 ∷ 93 ∷ 10 ∷ 10 ∷ []

abbrev whole : List ℕ
whole =
    100 ∷ 97 ∷ 116 ∷ 97 ∷ 58 ∷ 49 ∷ 10 ∷ 10 ∷ 100 ∷ 97 ∷ 116 ∷ 97 ∷ 58 ∷ 91 ∷ 68 ∷ 79 ∷ 78 ∷ 69 ∷ 93
    ∷ 10 ∷ 10 ∷ []

abbrev served : Opening
served = opened 200 (reads_of (first_part ∷ second_part ∷ []))

decoded : feed fresh whole ≡ ok ((49 ∷ []) ∷ (91 ∷ 68 ∷ 79 ∷ 78 ∷ 69 ∷ 93 ∷ []) ∷ [], fresh)
unfolding feed find decode
decoded = refl

served-error : (stream_request loads shown clock true served).error ≡ none
unfolding stream_request loads reads_of feed find decode consume_event get truthy
served-error = refl

stream_request_chunking_example :
    stream_request loads shown clock true (opened 200 (reads_of (first_part ∷ second_part ∷ [])))
    ≡ stream_request loads shown clock true (opened 200 (reads_of (whole ∷ [])))
stream_request_chunking_example =
    stream_request_chunking loads shown clock true 200 (first_part ∷ second_part ∷ []) (whole ∷ [])
      ((49 ∷ []) ∷ (91 ∷ 68 ∷ 79 ∷ 78 ∷ 69 ∷ 93 ∷ []) ∷ []) fresh ((λ e. cc), ((λ e. cc), tt))
      ((λ e. cc), tt) refl decoded

stream_request-Timing_example :
    Timing
      (stream_request loads shown clock true served).wall
      (stream_request loads shown clock true served).ttft
      (stream_request loads shown clock true served).content
      (stream_request loads shown clock true served).reasoning
stream_request-Timing_example = stream_request-Timing loads shown clock true clock_steady served

stream_request-IsComplete_example :
    IsComplete (stream_request loads shown clock true served)
    × ((status : ℕ) × (reads : Reads) × (served ≡ opened status reads)
        × UntilDone loads (delivered fresh reads))
stream_request-IsComplete_example =
    stream_request-IsComplete loads shown clock true served served-error

row_validity_iff_example :
    (row_validity strip (some "stop") true 1 (stream_request loads shown clock true served) ≡ ok tt)
    ↔ IsValid strip (some "stop") true 1 (stream_request loads shown clock true served)
row_validity_iff_example =
    row_validity_iff strip (some "stop") true 1 (stream_request loads shown clock true served)
