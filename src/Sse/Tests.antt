-- ===== src/Sse/Tests.antt =====
-- Server-sent events as bytes: one event cut between its two newlines, and a multi-line one.
use qwen38_flash_next_nvidia.Prelude.{ℕ, ◌≡◌, refl, List, [], ◌∷◌, arith, ok, map, ◌++◌}
use qwen38_flash_next_nvidia.Sse.{Text, fresh, feed, join_lines}
use qwen38_flash_next_nvidia.Sse.Chunks.{and_then, feed-append}
use qwen38_flash_next_nvidia.Sse.Feeding.{feed_all, feed_all_chunking}
use qwen38_flash_next_nvidia.Sse.Framing.{crlf_end, encode, IsDataLine}
use qwen38_flash_next_nvidia.Sse.Format.{feed-encode}

-- `data: {}` with CRLF line ends, cut within each of them.
abbrev halves : List (List ℕ)
halves = (100 ∷ 97 ∷ 116 ∷ 97 ∷ 58 ∷ 32 ∷ 123 ∷ 125 ∷ 13 ∷ []) ∷ (10 ∷ 13 ∷ []) ∷ (10 ∷ []) ∷ []

abbrev whole : List (List ℕ)
whole = (100 ∷ 97 ∷ 116 ∷ 97 ∷ 58 ∷ 32 ∷ 123 ∷ 125 ∷ 13 ∷ 10 ∷ 13 ∷ 10 ∷ []) ∷ []

abbrev events : List (List Text)
events = ((65 ∷ []) ∷ (66 ∷ 67 ∷ []) ∷ []) ∷ ((91 ∷ 93 ∷ []) ∷ []) ∷ []

feed_all_chunking_example : feed_all fresh halves ≡ feed_all fresh whole
feed_all_chunking_example = feed_all_chunking halves whole refl

feed-append_example :
    feed fresh ((100 ∷ 13 ∷ []) ++ (10 ∷ []))
    ≡ and_then (feed fresh (100 ∷ 13 ∷ [])) (λ d. feed d (10 ∷ []))
feed-append_example = feed-append fresh (100 ∷ 13 ∷ []) (10 ∷ [])

line_a : IsDataLine (65 ∷ [])
line_a = record { plain = ground arith; start = ground arith }

line_bc : IsDataLine (66 ∷ 67 ∷ [])
line_bc = record { plain = ground arith; start = ground arith }

line_brackets : IsDataLine (91 ∷ 93 ∷ [])
line_brackets = record { plain = ground arith; start = ground arith }

feed-encode_example : feed fresh (encode crlf_end events) ≡ ok (map join_lines events, fresh)
feed-encode_example =
    feed-encode crlf_end events ((line_a, (line_bc, tt)), ((line_brackets, tt), tt))
