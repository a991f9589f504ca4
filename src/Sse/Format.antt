-- ===== src/Sse/Format.antt =====
-- What a server writes as events, and that SSEDecoder of scripts/http_client.py reads it back.
use mathlib.Core.List.{append_assoc, append-nil}
use qwen38_flash_next_nvidia.Prelude.{
  ◌+◌, ◌≡◌, refl, ap, ◌∙◌, List, [], ◌∷◌, ◌++◌, map, arith, ok, length, take, drop, All,
  length-append, drop-length, ◌-◌,
}
use qwen38_flash_next_nvidia.Sse.{
  Text, fresh, decode_ascii, accept_line, after_line, data_line, data_lines, dispatch, join_lines,
  lstrip, feed,
}
use qwen38_flash_next_nvidia.Sse.Chunks.{
  Outcome, behind, and_then, feed-append, feed_loop-some, feed_loop-none,
}
use qwen38_flash_next_nvidia.Sse.Feeding.{feed-nil, fresh-IsDrained}
use qwen38_flash_next_nvidia.Sse.Framing.{
  LineEnd, terminator, IsPlain, StartsPlain, IsDataLine, data_field, encode_lines, encode_event,
  encode, below, find_newline-line, length-suc, ready,
}

take-line : (line rest : Text) → take (length line) (line ++ rest) ≡ line
take-line [] rest = refl
take-line (c ∷ line) rest = ap (λ l. c ∷ l) (take-line line rest)

drop-line : (line rest : Text) → drop (length line + length rest) (line ++ rest) ≡ []
drop-line line rest = drop-length (line ++ rest) _ (omega (arith, length-append line rest))

accept_plain :
    (lines : List Text) (line : Text)
    → All IsPlain line
    → accept_line (ready lines) line ≡ ok (after_line (ready lines) line)
unfolding accept_line
accept_plain lines line h = rw (decode_ascii line (below line h))

buf-after_line : (lines : List Text) (line : Text) → (after_line (ready lines) line).1.buf ≡ []
buf-after_line lines [] = refl
buf-after_line lines (c ∷ line) = refl

-- One line, with its terminator, is taken whole.
feed_line :
    (nl : LineEnd) (lines : List Text) (line : Text)
    → All IsPlain line
    → feed (ready lines) (line ++ terminator nl) ≡ ok (after_line (ready lines) line)
unfolding feed
feed_line nl lines line h =
    rw
      (
        length-suc nl line,
        feed_loop-some (length line + length (terminator nl) - 1)
            (record (ready lines) { buf = line ++ terminator nl }) _ _
            (find_newline-line nl line h),
        take-line line (terminator nl),
        drop-line line (terminator nl),
        accept_plain lines line h,
        feed_loop-none _ (after_line (ready lines) line).1 (rw buf-after_line fresh-IsDrained),
      )
      (rw append-nil)

data_field-IsPlain : (line : Text) → All IsPlain line → All IsPlain (data_field line)
unfolding data_field
data_field-IsPlain line h =
    (omega arith, (omega arith, (omega arith, (omega arith, (omega arith, (omega arith, h))))))

after_data :
    (before : List Text) (line : Text)
    → after_line (ready before) (data_field line) ≡ ([], ready (before ++ data_field line ∷ []))
unfolding data_field
after_data before line = refl

-- The lines of an event are kept until the event ends.
feed_lines :
    (nl : LineEnd) (lines before : List Text)
    → All IsDataLine lines
    → feed (ready before) (encode_lines nl lines) ≡ ok ([], ready (before ++ map data_field lines))
unfolding encode_lines
feed_lines nl [] before h = rw append-nil (feed-nil (ready before) fresh-IsDrained)
feed_lines nl (line ∷ lines) before h =
    feed-append (ready before) (data_field line ++ terminator nl) (encode_lines nl lines)
    ∙ ap (λ r. and_then r (λ d. feed d (encode_lines nl lines)))
        (feed_line nl before (data_field line) (data_field-IsPlain line h.0.plain)
          ∙ ap ok (after_data before line))
    ∙ ap (behind []) (feed_lines nl lines (before ++ data_field line ∷ []) h.1)
    ∙ ap (λ (l : List Text). let r : Outcome = ok ([], ready l) in r)
        (append_assoc before (data_field line ∷ []) (map data_field lines))

lstrip-start : (line : Text) → StartsPlain line → lstrip line ≡ line
unfolding lstrip
lstrip-start [] h = refl
lstrip-start (c ∷ line) h = ground arith

data_lines-data_field :
    (lines : List Text)
    → All IsDataLine lines
    → data_lines (map data_field lines ++ [] ∷ []) ≡ lines
unfolding data_lines data_line data_field
data_lines-data_field [] h = refl
data_lines-data_field (line ∷ lines) h =
    ground (arith, lstrip-start line h.0.start, data_lines-data_field lines h.1)

dispatch-data :
    (lines : List Text) (d : Text) (ds : List Text)
    → data_lines lines ≡ d ∷ ds
    → dispatch lines ≡ join_lines (d ∷ ds) ∷ []
unfolding dispatch
dispatch-data lines d ds h = rw h

-- An event has at least one line.
abbrev pub IsEvent : List Text → Type 0
IsEvent [] = ⊥
IsEvent (line ∷ lines) = All IsDataLine (line ∷ lines)

feed_event :
    (nl : LineEnd) (event : List Text)
    → IsEvent event
    → feed fresh (encode_event nl event) ≡ ok (join_lines event ∷ [], fresh)
unfolding encode_event
feed_event nl [] h = absurd h
feed_event nl (line ∷ lines) h =
    feed-append fresh (encode_lines nl (line ∷ lines)) (terminator nl)
    ∙ ap (λ r. and_then r (λ d. feed d (terminator nl))) (feed_lines nl (line ∷ lines) [] h)
    ∙ ap (behind []) (feed_line nl (map data_field (line ∷ lines)) [] tt)
    ∙ ap (λ (events : List Text). let r : Outcome = ok (events, fresh) in r)
        (dispatch-data _ line lines (data_lines-data_field (line ∷ lines) h))

-- Events of at least one line each, whose lines are ASCII, hold no LF or CR and do not begin with a
-- space, written with either line end, are read back as the joined payloads, and leave the decoder as
-- new.
pub feed-encode :
    (nl : LineEnd) (events : List (List Text))
    → All IsEvent events
    → feed fresh (encode nl events) ≡ ok (map join_lines events, fresh)
unfolding encode
feed-encode nl [] h = feed-nil fresh fresh-IsDrained
feed-encode nl (event ∷ events) h =
    feed-append fresh (encode_event nl event) (encode nl events)
    ∙ ap (λ r. and_then r (λ d. feed d (encode nl events))) (feed_event nl event h.0)
    ∙ ap (behind (join_lines event ∷ [])) (feed-encode nl events h.1)
