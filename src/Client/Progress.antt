-- ===== src/Client/Progress.antt =====
-- How far a request has read the lines it was delivered (`_stream_request` of scripts/http_client.py).
use qwen38_flash_next_nvidia.Prelude.{
  ℕ, suc, ◌-◌, String, ◌≡◌, refl, ◌∙◌, ◌⊎◌, inl, inr, Bool, true, false, Option, none, some, List,
  [], ◌∷◌, ◌++◌, Result, ok, err, All, Bool-cases, Result-cases, Option-cases, All-append,
}
use mathlib.Core.Path.{subst}
use qwen38_flash_next_nvidia.Json.{Value, str, Fields, get, truthy}
use qwen38_flash_next_nvidia.Sse.{Text}
use qwen38_flash_next_nvidia.Client.{
  LoadError, decode_error, other_error, StreamResult, same_text, done_sentinel, take_model,
  take_usage, validate_usage_object, take_finish, note_finish, capture, consume_choice, unparsed,
  add_content, add_reasoning, text_at, delta_of, reasoning_of, consume_loaded, consume_line,
}
use qwen38_flash_next_nvidia.Client.Delivered.{
  IsJson, UntilDone, UntilDone-ahead, UntilDone-behind, HasError, SawDone, same_text-eq-true,
}
use qwen38_flash_next_nvidia.Client.Keeps.{Holds}
use qwen38_flash_next_nvidia.Client.Steps.{consume_loaded-Holds, consume_line-Holds}

module _ (elapsed : ℕ) where
  add_content-same :
      (piece : Text) (res : StreamResult)
      → ((add_content elapsed piece res).saw_done ≡ res.saw_done)
        × ((add_content elapsed piece res).error ≡ res.error)
  add_content-same [] res = (refl, refl)
  add_content-same (c ∷ piece) res = elim (Option-cases res.ttft) [
    | inl e ↦ rw e (refl, refl)
    | inr (s, e) ↦ rw e (refl, refl)
  ]

  add_reasoning-same :
      (piece : Text) (res : StreamResult)
      → ((add_reasoning elapsed piece res).saw_done ≡ res.saw_done)
        × ((add_reasoning elapsed piece res).error ≡ res.error)
  add_reasoning-same [] res = (refl, refl)
  add_reasoning-same (c ∷ piece) res = elim (Option-cases res.ttft) [
    | inl e ↦ rw e (refl, refl)
    | inr (s, e) ↦ rw e (refl, refl)
  ]

take_model-same :
    (o : Option Value) (res : StreamResult)
    → ((take_model o res).saw_done ≡ res.saw_done) × ((take_model o res).error ≡ res.error)
take_model-same (some (str s)) res = (refl, refl)
take_model-same _ res = (refl, refl)

take_usage-same :
    (o : Option Value) (res : StreamResult) → (take_usage o res).saw_done ≡ res.saw_done
take_usage-same none res = refl
take_usage-same (some v) res = elim (Result-cases (validate_usage_object v)) [
  | inl (u, e) ↦ rw e refl
  | inr (x, e) ↦ rw e refl
]

take_usage-HasError :
    (o : Option Value) (res : StreamResult) → HasError res → HasError (take_usage o res)
take_usage-HasError none res h = h
take_usage-HasError (some v) res h = elim (Result-cases (validate_usage_object v)) [
  | inl (u, e) ↦ rw e h
  | inr (x, e) ↦ rw e (_, refl)
]

module _ (loads : Text → Result LoadError Value) (shown : Value → String) (clock : ℕ → ℕ)
    (capture_raw : Bool) where
  take_finish-same :
      (o : Option Value) (res : StreamResult)
      → ((take_finish loads shown clock capture_raw o res).saw_done ≡ res.saw_done)
        × ((take_finish loads shown clock capture_raw o res).error ≡ res.error)
  take_finish-same none res = (refl, refl)
  take_finish-same (some v) res = elim (Bool-cases (truthy v)) [
    | inl e ↦ rw e (refl, refl)
    | inr e ↦ rw e (refl, refl)
  ]

  capture-same :
      (evt : Fields) (res : StreamResult)
      → ((capture loads shown clock capture_raw evt res).saw_done ≡ res.saw_done)
        × ((capture loads shown clock capture_raw evt res).error ≡ res.error)
  capture-same evt res = elim (Bool-cases capture_raw) [
    | inl e ↦ rw e (refl, refl)
    | inr e ↦ rw e (refl, refl)
  ]

  consume_choice-same :
      (c : Fields) (res : StreamResult)
      → ((consume_choice loads shown clock capture_raw c res).saw_done ≡ res.saw_done)
        × ((consume_choice loads shown clock capture_raw c res).error ≡ res.error)
  unfolding consume_choice note_finish
  consume_choice-same c res =
      let finished = take_finish loads shown clock capture_raw (get c "finish_reason") res in
      let read : StreamResult = record finished { readings = suc finished.readings } in
      let elapsed = clock finished.readings - clock 0 in
      let piece = text_at (delta_of c) "content" in
      let (d, e) = take_finish-same (get c "finish_reason") res in
      let (d', e') = add_content-same elapsed piece read in
      let (d'', e'') =
        add_reasoning-same elapsed (reasoning_of (delta_of c)) (add_content elapsed piece read) in
      (d'' ∙ d' ∙ d, e'' ∙ e' ∙ e)

  unparsed-same :
      (payload : Text) (res : StreamResult)
      → (unparsed loads shown clock capture_raw payload res).saw_done ≡ res.saw_done
  unparsed-same payload res = elim (Option-cases res.error) [
    | inl e ↦ rw e refl
    | inr (x, e) ↦ rw e refl
  ]

  unparsed-HasError :
      (payload : Text) (res : StreamResult)
      → HasError (unparsed loads shown clock capture_raw payload res)
  unparsed-HasError payload res = elim (Option-cases res.error) [
    | inl e ↦ rw e (_, refl)
    | inr (x, e) ↦ rw e (x, refl)
  ]

  loaded-SawDone :
      (b : Bool) (payload : Text) (l : Result LoadError Value) (res : StreamResult)
      → SawDone b res
      → Holds (SawDone b) (consume_loaded loads shown clock capture_raw payload l res)
  loaded-SawDone b =
      consume_loaded-Holds loads shown clock capture_raw (SawDone b)
        (λ o res h. (take_model-same o res).0 ∙ h) (λ o res h. take_usage-same o res ∙ h)
        (λ evt res h. (capture-same evt res).0 ∙ h) (λ c res h. (consume_choice-same c res).0 ∙ h)
        λ payload res h. unparsed-same payload res ∙ h

  -- The done sentinel stays seen.
  pub line-SawDone :
      (payload : Text) (res : StreamResult)
      → SawDone true res
      → Holds (SawDone true) (consume_line loads shown clock capture_raw payload res)
  line-SawDone =
      consume_line-Holds loads shown clock capture_raw (SawDone true)
        (λ o res h. (take_model-same o res).0 ∙ h) (λ o res h. take_usage-same o res ∙ h)
        (λ evt res h. (capture-same evt res).0 ∙ h) (λ c res h. (consume_choice-same c res).0 ∙ h)
        (λ payload res h. unparsed-same payload res ∙ h) λ res h. refl

  -- An error stays one.
  pub line-HasError :
      (payload : Text) (res : StreamResult)
      → HasError res
      → Holds HasError (consume_line loads shown clock capture_raw payload res)
  line-HasError =
      consume_line-Holds loads shown clock capture_raw HasError
        (λ o res h. (h.0, (take_model-same o res).1 ∙ h.1)) take_usage-HasError
        (λ evt res h. (h.0, (capture-same evt res).1 ∙ h.1))
        (λ c res h. (h.0, (consume_choice-same c res).1 ∙ h.1))
        (λ payload res h. unparsed-HasError payload res) λ res h. h

  -- After these lines: an error, the done sentinel behind valid JSON, or valid JSON only.
  abbrev pub Progress : List Text → StreamResult → Type 0
  Progress lines res =
      HasError res
      ⊎ (SawDone true res × UntilDone loads lines)
      ⊎ (SawDone false res × All (IsJson loads) lines)

  pub Progress-join :
      (lines rest : List Text) (r₁ r₂ : StreamResult)
      → Progress lines r₁
      → (HasError r₁ → HasError r₂)
      → (SawDone true r₁ → SawDone true r₂)
      → (SawDone false r₁ → Progress rest r₂)
      → Progress (lines ++ rest) r₂
  Progress-join lines rest r₁ r₂ (inl e) error seen more = inl (error e)
  Progress-join lines rest r₁ r₂ (inr (inl (d, u))) error seen more =
      inr (inl (seen d, UntilDone-ahead loads lines rest u))
  Progress-join lines rest r₁ r₂ (inr (inr (f, a))) error seen more = elim (more f) [
    | inl e ↦ inl e
    | inr (inl (d, u)) ↦ inr (inl (d, UntilDone-behind loads lines rest a u))
    | inr (inr (g, b)) ↦ inr (inr (g, All-append (IsJson loads) lines rest a b))
  ]

  pub held :
      (P : StreamResult → Type 0) (m : Result StreamResult StreamResult) (r : StreamResult)
      → Holds P m
      → m ≡ ok r
      → P r
  held P m r h e = subst (λ x. Holds P x) e h

  loaded-Progress :
      (payload : Text) (l : Result LoadError Value) (res r : StreamResult)
      → loads payload ≡ l
      → SawDone false res
      → consume_loaded loads shown clock capture_raw payload l res ≡ ok r
      → Progress (payload ∷ []) r
  loaded-Progress payload (ok v) res r k f h =
      inr
        (inr (held (SawDone false) _ r (loaded-SawDone false payload (ok v) res f) h, ((v, k), tt)))
  loaded-Progress payload (err decode_error) res r k f h =
      inl (held HasError _ r (unparsed-HasError payload res) h)
  loaded-Progress payload (err other_error) res r k f h = cc

  pub line-Progress :
      (payload : Text) (res r : StreamResult)
      → SawDone false res
      → consume_line loads shown clock capture_raw payload res ≡ ok r
      → Progress (payload ∷ []) r
  unfolding consume_line
  line-Progress payload res r f = elim (Bool-cases (same_text payload done_sentinel)) [
    | inl e ↦ rw e λ h.
        inr (inl (held (SawDone true) _ r refl h, inl (same_text-eq-true payload done_sentinel e)))
    | inr e ↦ rw e λ h. loaded-Progress payload (loads payload) res r refl f h
  ]
