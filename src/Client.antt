-- ===== src/Client.antt =====
-- _consume_event of scripts/http_client.py.
--
-- `json.loads` is a parameter, as a function of the code points of a payload: a value, or the
-- exception it raises. So are `str(v)` of a value and the readings of `time.perf_counter()`, the
-- n-th as `clock n`, in ticks; the first is t0.
mod Received
pub mod Stream
pub mod Keeps
pub mod Steps
pub mod Fragments
pub mod Chunking
pub mod Delivered
pub mod Progress
pub mod Parsed
pub mod Clean
pub mod Outcome
pub mod Validity
mod Tests
pub use Received.{
  started, take_model, checked_usage, take_usage, not_null, as_choice, index_zero, or_else,
  first_fragment, add_content, add_reasoning, prepend, done_sentinel, Usage, Failure, Detail,
  no_detail, read_failed, no_done, no_usage, not_json, bad_usage, open_failed, FragmentKind,
  RawEvent, StreamResult, Choice, http_error, transport, timeout, stream_format, missing_done,
  invalid_usage, missing_usage, content_fragment, reasoning_fragment, parsed, unparseable,
  no_choice, unindexable, choice,
}
unfoldable pub use Received.{
  usage_field, validate_usage_object, note_model, usage_of, note_usage, first_choice, text_at,
  delta_of, reasoning_of, split_lines, same_text, has_newline,
}
use qwen38_flash_next_nvidia.Prelude.{
  ℕ, suc, ◌+◌, ◌-◌, String, Bool, true, false, not, ◌&&◌, Option, none, some, List, [], ◌∷◌, ◌++◌,
  ℤ, pos, ltb_ℤ, Result, ok, err, ◌>>=◌, codes, ◌==◌, if◌then◌else◌,
}
use qwen38_flash_next_nvidia.Json.{
  Value, null, bool, int, float, str, arr, obj, Items, nil, cons, Fields, end, field, get, truthy,
}
use qwen38_flash_next_nvidia.Sse.{Text, lf}

-- What `json.loads` may raise: JSONDecodeError, or another exception.
pub data LoadError : Type 0 where
  decode_error other_error : LoadError

module _ (loads : Text → Result LoadError Value) (shown : Value → String) (clock : ℕ → ℕ)
    (capture_raw : Bool) where
  -- `str(choice["finish_reason"])`, if it is truthy
  abbrev pub shown_text : Value → String
  shown_text (str s) = s
  shown_text v = shown v

  abbrev pub take_finish : Option Value → StreamResult → StreamResult
  take_finish (some v) res =
      if truthy v then record res { finish_reason = some (shown_text v) } else res
  take_finish none res = res

  unfoldable pub note_finish : Fields → StreamResult → StreamResult
  note_finish c res = take_finish (get c "finish_reason") res

  -- From `choice.get("finish_reason")` on, with one reading of the clock.
  unfoldable pub consume_choice : Fields → StreamResult → StreamResult
  unfolding note_finish delta_of text_at reasoning_of
  consume_choice c res =
      let delta = delta_of c in
      let finished = note_finish c res in
      let elapsed = clock finished.readings - clock 0 in
      let read = record finished { readings = suc finished.readings } in
      add_reasoning elapsed (reasoning_of delta)
        (add_content elapsed (text_at delta "content") read)

  abbrev pub after_choice : Choice → StreamResult → Result StreamResult StreamResult
  after_choice no_choice res = ok res
  after_choice unindexable res = err res
  after_choice (choice c) res = ok (consume_choice c res)

  abbrev pub capture : Fields → StreamResult → StreamResult
  capture evt res =
      let counted = record res { sse_event_count = suc res.sse_event_count } in
      if capture_raw
      then record counted { raw_events = counted.raw_events ++ parsed (obj evt) ∷ [] }
      else counted

  -- From `res.sse_event_count += 1` on. The error carries the result at the exception.
  unfoldable pub consume_dict : Fields → StreamResult → Result StreamResult StreamResult
  unfolding first_choice note_model note_usage consume_choice
  consume_dict evt res =
      after_choice (first_choice evt) (note_usage evt (note_model evt (capture evt res)))

  abbrev pub unparsed : Text → StreamResult → StreamResult
  unparsed payload res =
      let kept = record res { raw_events = res.raw_events ++ unparseable payload ∷ [] } in
      elim kept.error [
        | none ↦ record kept { error = some stream_format; error_detail = not_json }
        | some e ↦ kept
      ]

  abbrev pub consume_loaded :
      Text → Result LoadError Value → StreamResult → Result StreamResult StreamResult
  consume_loaded payload (err decode_error) res = ok (unparsed payload res)
  consume_loaded payload (err other_error) res = err res
  consume_loaded payload (ok (obj evt)) res = consume_dict evt res
  consume_loaded payload (ok _) res = ok res

  -- `_consume_event` of a payload without a newline.
  unfoldable pub consume_line : Text → StreamResult → Result StreamResult StreamResult
  unfolding same_text consume_dict
  consume_line payload res =
      if same_text payload done_sentinel
      then ok (record res { saw_done = true })
      else consume_loaded payload (loads payload) res

  -- `for sub in payload_str.split("\n")`
  unfoldable pub consume_lines : List Text → StreamResult → Result StreamResult StreamResult
  unfolding consume_line
  consume_lines [] res = ok res
  consume_lines ([] ∷ subs) res = consume_lines subs res
  consume_lines ((c ∷ sub) ∷ subs) res = consume_line (c ∷ sub) res >>= consume_lines subs

  -- `_consume_event`
  unfoldable pub consume_event : Text → StreamResult → Result StreamResult StreamResult
  unfolding consume_line consume_lines split_lines has_newline
  consume_event payload res =
      if has_newline payload
      then consume_lines (split_lines payload) res
      else consume_line payload res
