-- ===== src/Client/Chunking.antt =====
-- A response that decodes gives one result, however its bytes are cut (scripts/http_client.py).
use qwen38_flash_next_nvidia.Prelude.{
  ℕ, String, ◌≡◌, ◌≢◌, inl, inr, refl, sym, ap, ◌∙◌, Bool, true, false, some, List, [], ◌∷◌, ◌++◌,
  Result, ok, ◌>>=◌, arith, All, Bool-cases, Result-cases,
}
use qwen38_flash_next_nvidia.Json.{Value}
use qwen38_flash_next_nvidia.Sse.{Text, Decoder, fresh, feed}
use qwen38_flash_next_nvidia.Sse.Feeding.{feed_all, concat, feed_all-eq-feed, fresh-IsDrained}
use qwen38_flash_next_nvidia.Client.{StreamResult, LoadError, started}
use qwen38_flash_next_nvidia.Client.Stream.{
  Reads, eof, chunk, opened, consume, consume_until, read_loop, flush, read_response, conclude,
  stream_request,
}

-- The chunks, none of them empty, and then the end.
unfoldable pub reads_of : List (List ℕ) → Reads
reads_of [] = eof
reads_of (bytes ∷ chunks) = chunk bytes (reads_of chunks)

module _ (loads : Text → Result LoadError Value) (shown : Value → String) (clock : ℕ → ℕ)
    (capture_raw : Bool) where
  -- The events left over, if the done sentinel has not been seen.
  abbrev go_on : List Text → StreamResult → Result StreamResult StreamResult
  go_on events res = elim res.saw_done [
    | true ↦ ok res
    | false ↦ consume_until loads shown clock capture_raw events res
  ]

  go_on_done :
      (events : List Text) (res : StreamResult) → res.saw_done ≡ true → go_on events res ≡ ok res
  go_on_done events res h = rw h refl

  go_on_more :
      (events : List Text) (res : StreamResult)
      → res.saw_done ≡ false
      → go_on events res ≡ consume_until loads shown clock capture_raw events res
  go_on_more events res h = rw h refl

  consume_until-append :
      (before after : List Text) (res : StreamResult)
      → res.saw_done ≡ false
      → consume_until loads shown clock capture_raw (before ++ after) res
        ≡ (consume_until loads shown clock capture_raw before res >>= go_on after)
  unfolding consume_until
  consume_until-append [] after res h = sym (go_on_more after res h)
  consume_until-append (payload ∷ before) after res h =
      elim (Result-cases (consume loads shown clock capture_raw payload res)) [
        | inl (r, e) ↦ elim (Bool-cases r.saw_done) [
          | inl f ↦ rw (e, f) (sym (go_on_done after r f))
          | inr f ↦ rw (e, f) (consume_until-append before after r f)
        ]
        | inr (r, e) ↦ rw e refl
      ]

  flush_any :
      (res : StreamResult) (d d' : Decoder)
      → res.saw_done ≡ true
      → flush loads shown clock capture_raw (res, d) ≡ flush loads shown clock capture_raw (res, d')
  unfolding flush
  flush_any res d d' h = rw h refl

  -- One chunk and what follows it, with the events of both.
  two_parts :
      (res : StreamResult) (before : List Text) (d₁ : Decoder) (reads : Reads) (after : List Text)
      (d₂ : Decoder)
      → ((r : StreamResult)
          → r.saw_done ≡ false
          → (read_loop loads shown clock capture_raw d₁ reads r
              >>= flush loads shown clock capture_raw)
            ≡ (consume_until loads shown clock capture_raw after r >>= λ r.
                flush loads shown clock capture_raw (r, d₂)))
      → ((do
        res' ← consume_until loads shown clock capture_raw before res
        elim res'.saw_done [
          | true ↦ ok (res', d₁)
          | false ↦ read_loop loads shown clock capture_raw d₁ reads res'
        ])
          >>= flush loads shown clock capture_raw)
        ≡ (consume_until loads shown clock capture_raw before res >>= go_on after >>= λ r.
            flush loads shown clock capture_raw (r, d₂))
  two_parts res before d₁ reads after d₂ rest =
      elim (Result-cases (consume_until loads shown clock capture_raw before res)) [
        | inr (r, g) ↦ rw g refl
        | inl (r, g) ↦ elim (Bool-cases r.saw_done) [
          | inl done ↦ rw (g, go_on_done after r done) (simp done (flush_any r d₁ d₂ done))
          | inr more ↦ rw (g, go_on_more after r more) (simp more (rest r more))
        ]
      ]

  read_loop-consume_until :
      (chunks : List (List ℕ)) (d : Decoder) (res : StreamResult) (events : List Text)
      (d' : Decoder)
      → All (λ bytes. bytes ≢ []) chunks
      → feed_all d chunks ≡ ok (events, d')
      → res.saw_done ≡ false
      → (read_loop loads shown clock capture_raw d (reads_of chunks) res
          >>= flush loads shown clock capture_raw)
        ≡ (consume_until loads shown clock capture_raw events res >>= λ r.
            flush loads shown clock capture_raw (r, d'))
  unfolding read_loop reads_of feed_all
  read_loop-consume_until [] d res events d' n h k =
      let none_left : events ≡ [] = cc in let same : d' ≡ d = cc in rw (none_left, same) refl
  read_loop-consume_until ([] ∷ chunks) d res events d' n h k = absurd (n.0 refl)
  read_loop-consume_until ((b ∷ bytes) ∷ chunks) d res events d' n h k =
      elim (Result-cases (feed d (b ∷ bytes))) [
        | inr (x, e) ↦ ground arith
        | inl ((before, d₁), e) ↦ elim (Result-cases (feed_all d₁ chunks)) [
          | inr (x, f) ↦ ground arith
          | inl ((after, d₂), f) ↦
              let split : events ≡ before ++ after = ground arith in
              let same : d' ≡ d₂ = ground arith in
              rw (e, split, same, consume_until-append before after res k)
                (two_parts res before d₁ (reads_of chunks) after d₂
                  λ r more. read_loop-consume_until chunks d₁ r after d₂ n.1 f more)
        ]
      ]

  -- What is decoded of a response does not depend on the chunks.
  read_response_whole :
      (chunks : List (List ℕ)) (res : StreamResult) (events : List Text) (d : Decoder)
      → All (λ bytes. bytes ≢ []) chunks
      → feed fresh (concat chunks) ≡ ok (events, d)
      → res.saw_done ≡ false
      → read_response loads shown clock capture_raw (reads_of chunks) res ≡ (
          consume_until loads shown clock capture_raw events res >>= λ r.
          flush loads shown clock capture_raw (r, d))
  unfolding read_response
  read_response_whole chunks res events d n h k =
      read_loop-consume_until chunks fresh res events d n
        (feed_all-eq-feed fresh chunks fresh-IsDrained ∙ h) k

  -- A response whose bytes decode as far as whole lines go gives the same result, however they are
  -- cut into chunks that are not empty.
  pub stream_request_chunking :
      (status : ℕ) (chunks chunks' : List (List ℕ)) (events : List Text) (d : Decoder)
      → All (λ bytes. bytes ≢ []) chunks
      → All (λ bytes. bytes ≢ []) chunks'
      → concat chunks ≡ concat chunks'
      → feed fresh (concat chunks) ≡ ok (events, d)
      → stream_request loads shown clock capture_raw (opened status (reads_of chunks))
        ≡ stream_request loads shown clock capture_raw (opened status (reads_of chunks'))
  unfolding stream_request
  stream_request_chunking status chunks chunks' events d n n' same h =
      let begun : StreamResult = record started { http_status = some status } in
      ap (conclude loads shown clock capture_raw) (
        read_response_whole chunks begun events d n h refl
        ∙ sym (read_response_whole chunks' begun events d n' (ap (feed fresh) (sym same) ∙ h) refl))
