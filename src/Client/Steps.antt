-- ===== src/Client/Steps.antt =====
-- An invariant of the parts of `_consume_event` is one of a line of it (scripts/http_client.py).
use qwen38_flash_next_nvidia.Prelude.{
  ℕ, String, inl, inr, Bool, true, Option, Result, ok, err, Bool-cases,
}
use qwen38_flash_next_nvidia.Json.{Value, obj, Fields, get}
use qwen38_flash_next_nvidia.Sse.{Text}
use qwen38_flash_next_nvidia.Client.{
  StreamResult, LoadError, decode_error, other_error, Choice, no_choice, unindexable, choice,
  note_model, take_model, note_usage, usage_of, take_usage, consume_choice, consume_dict,
  consume_loaded, consume_line, first_choice, same_text, done_sentinel, capture, after_choice,
  unparsed,
}
use qwen38_flash_next_nvidia.Client.Keeps.{Holds}

module _ (loads : Text → Result LoadError Value) (shown : Value → String) (clock : ℕ → ℕ)
    (capture_raw : Bool) (P : StreamResult → Type 0)
    (model : (o : Option Value) (res : StreamResult) → P res → P (take_model o res))
    (usage : (o : Option Value) (res : StreamResult) → P res → P (take_usage o res))
    (captured_too : (evt : Fields) (res : StreamResult)
      → P res
      → P (capture loads shown clock capture_raw evt res))
    (chosen : (c : Fields) (res : StreamResult)
      → P res
      → P (consume_choice loads shown clock capture_raw c res))
    (broken : (payload : Text) (res : StreamResult)
      → P res
      → P (unparsed loads shown clock capture_raw payload res)) where
  consume_dict-Holds :
      (evt : Fields) (res : StreamResult)
      → P res
      → Holds P (consume_dict loads shown clock capture_raw evt res)
  unfolding consume_dict note_model note_usage
  consume_dict-Holds evt res t =
      let captured = capture loads shown clock capture_raw evt res in
      let named = take_model (get evt "model") captured in
      by_choice (first_choice evt) (take_usage (usage_of evt) named)
        (usage (usage_of evt) named (model (get evt "model") captured (captured_too evt res t)))
    where
      by_choice :
          (c : Choice) (r : StreamResult)
          → P r
          → Holds P (after_choice loads shown clock capture_raw c r)
      by_choice no_choice r t = t
      by_choice unindexable r t = t
      by_choice (choice c) r t = chosen c r t

  pub consume_loaded-Holds :
      (payload : Text) (l : Result LoadError Value) (res : StreamResult)
      → P res
      → Holds P (consume_loaded loads shown clock capture_raw payload l res)
  consume_loaded-Holds payload (ok (obj evt)) res t = consume_dict-Holds evt res t
  consume_loaded-Holds payload (ok _) res t = t
  consume_loaded-Holds payload (err decode_error) res t = broken payload res t
  consume_loaded-Holds payload (err other_error) res t = t

  module _ (done : (res : StreamResult) → P res → P (record res { saw_done = true })) where
    pub consume_line-Holds :
        (payload : Text) (res : StreamResult)
        → P res
        → Holds P (consume_line loads shown clock capture_raw payload res)
    unfolding consume_line
    consume_line-Holds payload res t = elim (Bool-cases (same_text payload done_sentinel)) [
      | inl e ↦ rw e (done res t)
      | inr e ↦ rw e (consume_loaded-Holds payload (loads payload) res t)
    ]
