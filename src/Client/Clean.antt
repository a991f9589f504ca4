-- ===== src/Client/Clean.antt =====
-- The lines behind a result without an error (`_stream_request` of scripts/http_client.py).
use qwen38_flash_next_nvidia.Prelude.{
  ℕ, String, ◌≡◌, refl, inl, inr, Bool, true, false, none, Result, ok, err, Bool-cases,
  Option-cases,
}
use qwen38_flash_next_nvidia.Json.{Value}
use qwen38_flash_next_nvidia.Sse.{Text, fresh}
use qwen38_flash_next_nvidia.Client.{LoadError, StreamResult}
use qwen38_flash_next_nvidia.Client.Delivered.{delivered, UntilDone}
use qwen38_flash_next_nvidia.Client.Parsed.{reads-Progress}
use qwen38_flash_next_nvidia.Client.Stream.{Reads, conclude, has_invalid_usage, read_response}

module _ (loads : Text → Result LoadError Value) (shown : Value → String) (clock : ℕ → ℕ)
    (capture_raw : Bool) where
  conclude-clean :
      (m : Result StreamResult StreamResult)
      → (conclude loads shown clock capture_raw m).error ≡ none
      → (r : StreamResult) × (m ≡ ok r) × (r.error ≡ none) × (r.saw_done ≡ true)
  unfolding conclude
  conclude-clean (err res) = λ h. cc
  conclude-clean (ok res) = elim (Bool-cases res.saw_done) [
    | inr e ↦ rw e λ h. cc
    | inl e ↦ elim (Bool-cases (has_invalid_usage loads shown clock capture_raw res.error)) [
      | inl f ↦ simp (e, f) λ h. cc
      | inr f ↦ elim (Option-cases res.usage) [
        | inl g ↦ simp (e, f, g) λ h. cc
        | inr (u, g) ↦ simp (e, f, g) λ h. (res, refl, h, e)
      ]
    ]
  ]

  -- The lines that a response delivered up to the sentinel, if the request read it without an error.
  pub response-UntilDone :
      (reads : Reads) (res : StreamResult)
      → res.saw_done ≡ false
      → (conclude loads shown clock capture_raw
          (read_response loads shown clock capture_raw reads res)).error
        ≡ none
      → UntilDone loads (delivered fresh reads)
  unfolding read_response
  response-UntilDone reads res f h =
      let (r, e, clean, seen) = conclude-clean _ h in
      elim (reads-Progress loads shown clock capture_raw reads fresh res r f e) [
        | inl (x, k) ↦ cc
        | inr (inl (d, u)) ↦ u
        | inr (inr (g, a)) ↦ cc
      ]
