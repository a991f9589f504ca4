-- ===== src/Client/Fragments.antt =====
-- The time to the first fragment that `_consume_event` of scripts/http_client.py records.
use qwen38_flash_next_nvidia.Prelude.{
  ℕ, suc, ◌-◌, ◌≤◌, String, ◌≡◌, ◌≢◌, ◌⊎◌, refl, Bool, true, false, Option, none, some, [], ◌∷◌,
  ◌++◌, Result, ok, err, arith, Bool-cases, Result-cases, Option-cases, inl, inr,
}
use qwen38_flash_next_nvidia.Json.{Value, str, Fields, get, truthy}
use qwen38_flash_next_nvidia.Sse.{Text}
use qwen38_flash_next_nvidia.Client.{
  StreamResult, LoadError, take_model, validate_usage_object, take_usage, note_finish, take_finish,
  consume_choice, add_content, add_reasoning, text_at, delta_of, reasoning_of, capture, started,
  unparsed,
}
use qwen38_flash_next_nvidia.Client.Keeps.{Holds, read_response-Holds}
use qwen38_flash_next_nvidia.Client.Steps.{consume_line-Holds}
use qwen38_flash_next_nvidia.Client.Stream.{
  stream_request, Opening, refused, unreachable, opened, conclude, has_invalid_usage, read_response,
}

-- Nothing has been received, or the first fragment came at `s`, not after `now`.
abbrev pub Timing : ℕ → Option ℕ → Text → Text → Type 0
Timing now none content reasoning = (content ≡ []) × (reasoning ≡ [])
Timing now (some s) content reasoning = (s ≤ now) × ((content ≢ []) ⊎ (reasoning ≢ []))

Timing-later :
    (now later : ℕ) (ttft : Option ℕ) (content reasoning : Text)
    → now ≤ later
    → Timing now ttft content reasoning
    → Timing later ttft content reasoning
Timing-later now later none content reasoning h t = t
Timing-later now later (some s) content reasoning h (l, t) = (omega arith, t)

append-nonempty : (xs : Text) (c : ℕ) (ys : Text) → (xs ++ (c ∷ ys)) ≢ []
append-nonempty [] c ys e = cc
append-nonempty (x ∷ xs) c ys e = cc

module _ (loads : Text → Result LoadError Value) (shown : Value → String) (clock : ℕ → ℕ)
    (capture_raw : Bool) (steady : (i : ℕ) → clock i ≤ clock (suc i)) where
  abbrev pub IsTimed : StreamResult → Type 0
  IsTimed res = Timing (clock res.readings - clock 0) res.ttft res.content res.reasoning

  note_model-IsTimed :
      (o : Option Value) (res : StreamResult) → IsTimed res → IsTimed (take_model o res)
  note_model-IsTimed (some (str s)) res t = t
  note_model-IsTimed _ res t = t

  note_usage-IsTimed :
      (o : Option Value) (res : StreamResult) → IsTimed res → IsTimed (take_usage o res)
  note_usage-IsTimed none res t = t
  note_usage-IsTimed (some v) res t = elim (Result-cases (validate_usage_object v)) [
    | inl (u, e) ↦ rw e t
    | inr (x, e) ↦ rw e t
  ]

  note_finish-IsTimed :
      (o : Option Value) (res : StreamResult)
      → IsTimed res
      → IsTimed (take_finish loads shown clock capture_raw o res)
  note_finish-IsTimed none res t = t
  note_finish-IsTimed (some v) res t = elim (Bool-cases (truthy v)) [
    | inl e ↦ rw e t
    | inr e ↦ rw e t
  ]

  capture-IsTimed :
      (evt : Fields) (res : StreamResult)
      → IsTimed res
      → IsTimed (capture loads shown clock capture_raw evt res)
  capture-IsTimed evt res t = elim (Bool-cases capture_raw) [ inl e ↦ rw e t | inr e ↦ rw e t ]

  add_content-IsTimed :
      (elapsed : ℕ) (piece : Text) (res : StreamResult)
      → elapsed ≤ clock res.readings - clock 0
      → IsTimed res
      → IsTimed (add_content elapsed piece res)
  add_content-IsTimed elapsed [] res h t = t
  add_content-IsTimed elapsed (c ∷ piece) res h t = elim (Option-cases res.ttft) [
    | inl e ↦ rw e (h, inl (append-nonempty res.content c piece))
    | inr (s, e) ↦ rw e ((rw e at t).0, inl (append-nonempty res.content c piece))
  ]

  add_reasoning-IsTimed :
      (elapsed : ℕ) (piece : Text) (res : StreamResult)
      → elapsed ≤ clock res.readings - clock 0
      → IsTimed res
      → IsTimed (add_reasoning elapsed piece res)
  add_reasoning-IsTimed elapsed [] res h t = t
  add_reasoning-IsTimed elapsed (c ∷ piece) res h t = elim (Option-cases res.ttft) [
    | inl e ↦ rw e (h, inr (append-nonempty res.reasoning c piece))
    | inr (s, e) ↦ rw e ((rw e at t).0, inr (append-nonempty res.reasoning c piece))
  ]

  add_content-readings :
      (elapsed : ℕ) (piece : Text) (res : StreamResult)
      → (add_content elapsed piece res).readings ≡ res.readings
  add_content-readings elapsed [] res = refl
  add_content-readings elapsed (c ∷ piece) res = elim (Option-cases res.ttft) [
    | inl e ↦ rw e refl
    | inr (s, e) ↦ rw e refl
  ]

  consume_choice-IsTimed :
      (c : Fields) (res : StreamResult)
      → IsTimed res
      → IsTimed (consume_choice loads shown clock capture_raw c res)
  unfolding consume_choice note_finish
  consume_choice-IsTimed c res t =
      let finished = take_finish loads shown clock capture_raw (get c "finish_reason") res in
      let read : StreamResult = record finished { readings = suc finished.readings } in
      let elapsed = clock finished.readings - clock 0 in
      let piece = text_at (delta_of c) "content" in
      let in_time : elapsed ≤ clock (suc finished.readings) - clock 0 =
        omega (arith, steady finished.readings) in
      let later : IsTimed read =
        Timing-later elapsed _ finished.ttft finished.content finished.reasoning in_time
          (note_finish-IsTimed (get c "finish_reason") res t) in
      add_reasoning-IsTimed elapsed (reasoning_of (delta_of c)) (add_content elapsed piece read)
        (rw (add_content-readings elapsed piece read) in_time)
        (add_content-IsTimed elapsed piece read in_time later)

  unparsed-IsTimed :
      (payload : Text) (res : StreamResult)
      → IsTimed res
      → IsTimed (unparsed loads shown clock capture_raw payload res)
  unparsed-IsTimed payload res t = elim (Option-cases res.error) [
    | inl e ↦ rw e t
    | inr (x, e) ↦ rw e t
  ]

  conclude-Timing :
      (m : Result StreamResult StreamResult)
      → Holds IsTimed m
      → let res = conclude loads shown clock capture_raw m in
        Timing res.wall res.ttft res.content res.reasoning
  unfolding conclude
  conclude-Timing (err res) t = t
  conclude-Timing (ok res) t = elim (Bool-cases res.saw_done) [
    | inr e ↦ rw e after
    | inl e ↦ elim (Bool-cases (has_invalid_usage loads shown clock capture_raw res.error)) [
      | inl f ↦ rw (e, f) after
      | inr f ↦ elim (Option-cases res.usage) [
        | inl g ↦ rw (e, f, g) after
        | inr (u, g) ↦ rw (e, f, g) t
      ]
    ]
  ]
    where
      after : Timing (clock (suc res.readings) - clock 0) res.ttft res.content res.reasoning
      after =
          Timing-later _ _ res.ttft res.content res.reasoning (omega (arith, steady res.readings)) t

  -- With a clock that never goes back, the result of a request has a time to the first fragment
  -- exactly if some content or reasoning was received, and that time is within the wall time.
  pub stream_request-Timing :
      (opening : Opening)
      → let res = stream_request loads shown clock capture_raw opening in
        Timing res.wall res.ttft res.content res.reasoning
  unfolding stream_request
  stream_request-Timing (refused code body) = (refl, refl)
  stream_request-Timing (unreachable true text) = (refl, refl)
  stream_request-Timing (unreachable false text) = (refl, refl)
  stream_request-Timing (opened status reads) =
      let begun : StreamResult = record started { http_status = some status } in
      conclude-Timing (read_response loads shown clock capture_raw reads begun) (
        read_response-Holds loads shown clock capture_raw IsTimed
          (consume_line-Holds loads shown clock capture_raw IsTimed note_model-IsTimed
            note_usage-IsTimed capture-IsTimed consume_choice-IsTimed unparsed-IsTimed λ res t. t)
          reads begun (refl, refl))
