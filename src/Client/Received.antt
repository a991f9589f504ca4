-- ===== src/Client/Received.antt =====
-- What a stream has received: StreamResult of scripts/http_client.py, its usage object, and the parts of
-- an event that `_consume_event` reads.
use qwen38_flash_next_nvidia.Prelude.{
  ℕ, String, Bool, true, false, ◌&&◌, Option, none, some, List, [], ◌∷◌, ◌++◌, ℤ, pos, ltb_ℤ,
  Result, ok, err, ◌>>=◌, codes, ◌==◌, if◌then◌else◌,
}
use qwen38_flash_next_nvidia.Json.{Value, null, int, str, arr, obj, cons, Fields, end, get, truthy}
use qwen38_flash_next_nvidia.Sse.{Text, lf}

pub record Usage : Type 0 where
  pub prompt_tokens : ℤ
  pub completion_tokens : ℤ
  pub total_tokens : ℤ

-- `error`
pub data Failure : Type 0 where
  http_error : ℕ → Failure
  transport timeout stream_format missing_done invalid_usage missing_usage : Failure

-- `error_detail`: the message, by the place that writes it. Where the message goes on with the text of
-- an exception of the decoder, of `json.loads` or of `validate_usage_object`, that text is left out.
pub data Detail : Type 0 where
  no_detail read_failed no_done no_usage not_json bad_usage : Detail
  open_failed : Text → Detail

pub data FragmentKind : Type 0 where
  content_fragment reasoning_fragment : FragmentKind

pub data RawEvent : Type 0 where
  parsed : Value → RawEvent
  unparseable : Text → RawEvent

-- `StreamResult`, and `readings`: how often the clock has been read.
pub record StreamResult : Type 0 where
  pub content : Text
  pub reasoning : Text
  pub finish_reason : Option String
  pub usage : Option Usage
  pub model_reported : Option String
  pub http_status : Option ℕ
  pub error : Option Failure
  pub error_detail : Detail
  pub ttft : Option ℕ
  pub first_fragment_kind : Option FragmentKind
  pub wall : ℕ
  pub sse_event_count : ℕ
  pub saw_done : Bool
  pub raw_events : List RawEvent
  pub raw_error_body : Text
  pub readings : ℕ

-- `StreamResult()`, and the reading t0 behind it.
abbrev pub started : StreamResult
started = record {
  content = [];
  reasoning = [];
  finish_reason = none;
  usage = none;
  model_reported = none;
  http_status = none;
  error = none;
  error_detail = no_detail;
  ttft = none;
  first_fragment_kind = none;
  wall = 0;
  sse_event_count = 0;
  saw_done = false;
  raw_events = [];
  raw_error_body = [];
  readings = 1;
}

-- One field of `validate_usage_object`; the error is that it is invalid.
unfoldable pub usage_field : Fields → String → Result Failure ℤ
usage_field usage key = elim (get usage key) [
  | some v ↦ elim v [
    | int n ↦ if ltb_ℤ n (pos 0) then err invalid_usage else ok n
    | _ ↦ err invalid_usage
  ]
  | none ↦ err invalid_usage
]

-- `validate_usage_object`
unfoldable pub validate_usage_object : Value → Result Failure Usage
unfolding usage_field
validate_usage_object (obj usage) = do
  prompt ← usage_field usage "prompt_tokens"
  completion ← usage_field usage "completion_tokens"
  total ← usage_field usage "total_tokens"
  ok (record { prompt_tokens = prompt; completion_tokens = completion; total_tokens = total })
validate_usage_object _ = err invalid_usage

-- `isinstance(evt.get("model"), str)`
abbrev pub take_model : Option Value → StreamResult → StreamResult
take_model (some (str s)) res = record res { model_reported = some s }
take_model _ res = res

unfoldable pub note_model : Fields → StreamResult → StreamResult
note_model evt res = take_model (get evt "model") res

abbrev pub checked_usage : Result Failure Usage → StreamResult → StreamResult
checked_usage (ok u) res = record res { usage = some u }
checked_usage (err e) res = record res { error = some invalid_usage; error_detail = bad_usage }

abbrev pub take_usage : Option Value → StreamResult → StreamResult
take_usage (some v) res = checked_usage (validate_usage_object v) res
take_usage none res = res

-- `evt.get("usage")` that is not None
abbrev pub not_null : Option Value → Option Value
not_null (some null) = none
not_null o = o

unfoldable pub usage_of : Fields → Option Value
usage_of evt = not_null (get evt "usage")

-- What is done with it.
unfoldable pub note_usage : Fields → StreamResult → StreamResult
unfolding validate_usage_object usage_of
note_usage evt res = take_usage (usage_of evt) res

-- `evt.get("choices") or []` and `choices[0]`: nothing, a dict ({} for an element that is not
-- one), or an exception for a value that has no element 0.
pub data Choice : Type 0 where
  no_choice unindexable : Choice
  choice : Fields → Choice

abbrev pub as_choice : Value → Choice
as_choice (obj c) = choice c
as_choice _ = choice end

abbrev pub index_zero : Value → Choice
index_zero (arr (cons v vs)) = as_choice v
index_zero (str s) = choice end
index_zero _ = unindexable

unfoldable pub first_choice : Fields → Choice
first_choice evt = elim (get evt "choices") [
  | some v ↦ if truthy v then index_zero v else no_choice
  | none ↦ no_choice
]

-- A str piece of the delta; no letters for everything that is passed over.
unfoldable pub text_at : Fields → String → Text
text_at delta key = elim (get delta key) [
  | some v ↦ elim v [ str s ↦ codes s | _ ↦ [] ]
  | none ↦ []
]

-- `choice.get("delta") or {}`, and {} for what is no dict.
unfoldable pub delta_of : Fields → Fields
delta_of c = elim (get c "delta") [ some v ↦ elim v [ obj d ↦ d | _ ↦ end ] | none ↦ end ]

-- The loop over REASONING_KEYS, which stops at the first piece.
abbrev pub or_else : Text → Text → Text
or_else [] q = q
or_else (c ∷ p) q = c ∷ p

unfoldable pub reasoning_of : Fields → Text
unfolding text_at
reasoning_of delta = or_else (text_at delta "reasoning_content") (text_at delta "reasoning")

-- `if res.ttft_s is None`, for a fragment that comes at `elapsed`.
abbrev pub first_fragment : ℕ → FragmentKind → StreamResult → StreamResult
first_fragment elapsed kind res = elim res.ttft [
  | none ↦ record res { ttft = some elapsed; first_fragment_kind = some kind }
  | some s ↦ res
]

abbrev pub add_content : ℕ → Text → StreamResult → StreamResult
add_content elapsed [] res = res
add_content elapsed (c ∷ piece) res =
    let timed = first_fragment elapsed content_fragment res in
    record timed { content = timed.content ++ (c ∷ piece) }

abbrev pub add_reasoning : ℕ → Text → StreamResult → StreamResult
add_reasoning elapsed [] res = res
add_reasoning elapsed (c ∷ piece) res =
    let timed = first_fragment elapsed reasoning_fragment res in
    record timed { reasoning = timed.reasoning ++ (c ∷ piece) }

-- `payload_str.split("\n")`
abbrev pub prepend : ℕ → List Text → List Text
prepend c [] = (c ∷ []) ∷ []
prepend c (line ∷ lines) = (c ∷ line) ∷ lines

unfoldable pub split_lines : Text → List Text
split_lines [] = [] ∷ []
split_lines (c ∷ s) = let rest = split_lines s in if c == lf then [] ∷ rest else prepend c rest

unfoldable pub same_text : Text → Text → Bool
same_text [] [] = true
same_text [] (d ∷ t) = false
same_text (c ∷ s) [] = false
same_text (c ∷ s) (d ∷ t) = (c == d) && same_text s t

unfoldable pub has_newline : Text → Bool
has_newline [] = false
has_newline (c ∷ s) = if c == lf then true else has_newline s

abbrev pub done_sentinel : Text
done_sentinel = codes "[DONE]"
