-- ===== src/Client/Outcome.antt =====
-- What a request without an error has received (`_stream_request` of scripts/http_client.py).
use mathlib.Core.Path.{subst}
use qwen38_flash_next_nvidia.Prelude.{
  ℕ, suc, ◌-◌, String, ◌≡◌, refl, inl, inr, Bool, true, false, Option, none, some, List, [], ◌∷◌,
  ◌++◌, ℤ, pos, ◌≤ℤ◌, ltb_ℤ, Result, ok, err, arith, All, Bool-cases, Result-cases, Option-cases,
  bound,
}
use qwen38_flash_next_nvidia.Json.{Value, int, str, obj, Fields, get, truthy}
use qwen38_flash_next_nvidia.Sse.{Text, fresh}
use qwen38_flash_next_nvidia.Client.Delivered.{delivered, UntilDone}
use qwen38_flash_next_nvidia.Client.Clean.{response-UntilDone}
use qwen38_flash_next_nvidia.Client.{
  StreamResult, Usage, Failure, RawEvent, parsed, unparseable, LoadError, take_model, usage_field,
  validate_usage_object, take_usage, note_finish, take_finish, consume_choice, add_content,
  add_reasoning, text_at, delta_of, reasoning_of, capture, started, unparsed,
}
use qwen38_flash_next_nvidia.Client.Keeps.{Holds, read_response-Holds}
use qwen38_flash_next_nvidia.Client.Steps.{consume_line-Holds}
use qwen38_flash_next_nvidia.Client.Stream.{
  stream_request, Reads, Opening, refused, unreachable, opened, conclude, has_invalid_usage,
  read_response,
}

abbrev pub IsParsed : RawEvent → Type 0
IsParsed (parsed v) = Unit
IsParsed (unparseable payload) = ⊥

-- Counts that are not negative.
abbrev pub IsCounted : Usage → Type 0
IsCounted u =
    (pos 0 ≤ℤ u.prompt_tokens) × (pos 0 ≤ℤ u.completion_tokens) × (pos 0 ≤ℤ u.total_tokens)

usage_field-nonnegative :
    (usage : Fields) (key : String) (n : ℤ) → usage_field usage key ≡ ok n → pos 0 ≤ℤ n
unfolding usage_field
usage_field-nonnegative usage key n h = elim (Option-cases (get usage key)) [
  | inl e ↦ ground arith
  | inr (v, e) ↦ by_value v e
]
  where
    by_value : (v : Value) → get usage key ≡ some v → pos 0 ≤ℤ n
    by_value (int m) e = elim (Bool-cases (ltb_ℤ m (pos 0))) [
      | inl f ↦ ground arith
      | inr f ↦ ground arith
    ]
    by_value _ e = ground arith

pub validate_usage_object-IsCounted :
    (v : Value) (u : Usage) → validate_usage_object v ≡ ok u → IsCounted u
unfolding validate_usage_object
validate_usage_object-IsCounted (obj usage) u h =
    bound (usage_field usage "prompt_tokens") _ h λ p e h₁.
      bound (usage_field usage "completion_tokens") _ h₁ λ c e' h₂.
        bound (usage_field usage "total_tokens") _ h₂ λ t e'' h₃.
          let same : record { prompt_tokens = p; completion_tokens = c; total_tokens = t } ≡ u =
            cc in
          subst (λ w. IsCounted w) same
            (
              usage_field-nonnegative usage _ p e,
              usage_field-nonnegative usage _ c e',
              usage_field-nonnegative usage _ t e'',
            )
validate_usage_object-IsCounted _ u h = cc

abbrev pub UsageIsCounted : Option Usage → Type 0
UsageIsCounted none = Unit
UsageIsCounted (some u) = IsCounted u

-- Without an error, every event has been parsed.
abbrev pub IsClean : Option Failure → List RawEvent → Type 0
IsClean none events = All IsParsed events
IsClean (some e) events = Unit

abbrev pub IsSound : StreamResult → Type 0
IsSound res = UsageIsCounted res.usage × IsClean res.error res.raw_events

All-snoc :
    (events : List RawEvent) (v : Value)
    → All IsParsed events
    → All IsParsed (events ++ parsed v ∷ [])
All-snoc [] v h = (tt, tt)
All-snoc (e ∷ events) v h = (h.0, All-snoc events v h.1)

take_model-IsSound :
    (o : Option Value) (res : StreamResult) → IsSound res → IsSound (take_model o res)
take_model-IsSound (some (str s)) res t = t
take_model-IsSound _ res t = t

take_usage-IsSound :
    (o : Option Value) (res : StreamResult) → IsSound res → IsSound (take_usage o res)
take_usage-IsSound none res t = t
take_usage-IsSound (some v) res t = elim (Result-cases (validate_usage_object v)) [
  | inl (u, e) ↦ rw e (validate_usage_object-IsCounted v u e, t.1)
  | inr (x, e) ↦ rw e (t.0, tt)
]

add_content-IsSound :
    (elapsed : ℕ) (piece : Text) (res : StreamResult)
    → IsSound res
    → IsSound (add_content elapsed piece res)
add_content-IsSound elapsed [] res t = t
add_content-IsSound elapsed (c ∷ piece) res t = elim (Option-cases res.ttft) [
  | inl e ↦ rw e t
  | inr (s, e) ↦ rw e t
]

add_reasoning-IsSound :
    (elapsed : ℕ) (piece : Text) (res : StreamResult)
    → IsSound res
    → IsSound (add_reasoning elapsed piece res)
add_reasoning-IsSound elapsed [] res t = t
add_reasoning-IsSound elapsed (c ∷ piece) res t = elim (Option-cases res.ttft) [
  | inl e ↦ rw e t
  | inr (s, e) ↦ rw e t
]

-- What a caller may rely on in a result without an error.
abbrev pub IsComplete : StreamResult → Type 0
IsComplete res =
    (res.saw_done ≡ true)
    × ((u : Usage) × (res.usage ≡ some u) × IsCounted u)
    × All IsParsed res.raw_events

module _ (loads : Text → Result LoadError Value) (shown : Value → String) (clock : ℕ → ℕ)
    (capture_raw : Bool) where
  take_finish-IsSound :
      (o : Option Value) (res : StreamResult)
      → IsSound res
      → IsSound (take_finish loads shown clock capture_raw o res)
  take_finish-IsSound none res t = t
  take_finish-IsSound (some v) res t = elim (Bool-cases (truthy v)) [
    | inl e ↦ rw e t
    | inr e ↦ rw e t
  ]

  capture-IsSound :
      (evt : Fields) (res : StreamResult)
      → IsSound res
      → IsSound (capture loads shown clock capture_raw evt res)
  capture-IsSound evt res t = elim (Bool-cases capture_raw) [
    | inl e ↦ rw e (t.0, still res.error res.raw_events t.1)
    | inr e ↦ rw e t
  ]
    where
      still :
          (e : Option Failure) (events : List RawEvent)
          → IsClean e events
          → IsClean e (events ++ parsed (obj evt) ∷ [])
      still none events h = All-snoc events (obj evt) h
      still (some e) events h = tt

  consume_choice-IsSound :
      (c : Fields) (res : StreamResult)
      → IsSound res
      → IsSound (consume_choice loads shown clock capture_raw c res)
  unfolding consume_choice note_finish
  consume_choice-IsSound c res t =
      let finished = take_finish loads shown clock capture_raw (get c "finish_reason") res in
      let read : StreamResult = record finished { readings = suc finished.readings } in
      let elapsed = clock finished.readings - clock 0 in
      let piece = text_at (delta_of c) "content" in
      add_reasoning-IsSound elapsed (reasoning_of (delta_of c)) (add_content elapsed piece read)
        (add_content-IsSound elapsed piece read (take_finish-IsSound (get c "finish_reason") res t))

  unparsed-IsSound :
      (payload : Text) (res : StreamResult)
      → IsSound res
      → IsSound (unparsed loads shown clock capture_raw payload res)
  unparsed-IsSound payload res t = elim (Option-cases res.error) [
    | inl e ↦ rw e (t.0, tt)
    | inr (x, e) ↦ rw e (t.0, tt)
  ]

  conclude-IsComplete :
      (m : Result StreamResult StreamResult)
      → Holds IsSound m
      → (conclude loads shown clock capture_raw m).error ≡ none
      → IsComplete (conclude loads shown clock capture_raw m)
  unfolding conclude
  conclude-IsComplete (err res) t = λ h. cc
  conclude-IsComplete (ok res) t = elim (Bool-cases res.saw_done) [
    | inr e ↦ rw e λ h. cc
    | inl e ↦ elim (Bool-cases (has_invalid_usage loads shown clock capture_raw res.error)) [
      | inl f ↦ rw (e, f) λ h. cc
      | inr f ↦ elim (Option-cases res.usage) [
        | inl g ↦ rw (e, f, g) λ h. cc
        | inr (u, g) ↦ rw (e, f, g) λ h. (e, (u, g, (rw g at t).0), (rw h at t).1)
      ]
    ]
  ]

  -- If the result of a request has no error, then a response was opened; the done sentinel is among
  -- the lines it delivered, and every line before it is valid JSON; and the result has seen the
  -- sentinel, has a usage object with three counts that are not negative, and has recorded no event
  -- that is not JSON.
  pub stream_request-IsComplete :
      (opening : Opening)
      → (stream_request loads shown clock capture_raw opening).error ≡ none
      → IsComplete (stream_request loads shown clock capture_raw opening)
        × ((status : ℕ) × (reads : Reads) × (opening ≡ opened status reads)
            × UntilDone loads (delivered fresh reads))
  unfolding stream_request
  stream_request-IsComplete (refused code body) h = cc
  stream_request-IsComplete (unreachable true text) h = cc
  stream_request-IsComplete (unreachable false text) h = cc
  stream_request-IsComplete (opened status reads) h =
      let begun : StreamResult = record started { http_status = some status } in
      (
        conclude-IsComplete (read_response loads shown clock capture_raw reads begun)
            (read_response-Holds loads shown clock capture_raw IsSound
              (consume_line-Holds loads shown clock capture_raw IsSound take_model-IsSound
                take_usage-IsSound capture-IsSound consume_choice-IsSound unparsed-IsSound
                λ res t. t)
              reads begun (tt, tt))
            h,
        (status, reads, refl, response-UntilDone loads shown clock capture_raw reads begun refl h),
      )
