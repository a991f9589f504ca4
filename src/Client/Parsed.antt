-- ===== src/Client/Parsed.antt =====
-- The lines of a whole response that a request has read (`_stream_request` of scripts/http_client.py).
use qwen38_flash_next_nvidia.Prelude.{
  ℕ, String, ◌≡◌, sym, inl, inr, Bool, true, false, List, [], ◌∷◌, ◌++◌, Result, ok, err, ◌>>=◌,
  bound, Bool-cases, Result-cases,
}
use mathlib.Core.Path.{subst}
use qwen38_flash_next_nvidia.Json.{Value}
use qwen38_flash_next_nvidia.Sse.{Text, Decoder, close, feed}
use qwen38_flash_next_nvidia.Client.{
  LoadError, StreamResult, has_newline, split_lines, consume_line, consume_lines, consume_event,
}
use qwen38_flash_next_nvidia.Client.Stream.{
  Reads, eof, broken, chunk, consume_until, consume_all, read_loop, flush,
}
use qwen38_flash_next_nvidia.Client.Delivered.{
  filled, lines_of, lines_of_all, lines_at_end, delivered, HasError, SawDone,
}
use qwen38_flash_next_nvidia.Client.Progress.{
  Progress, Progress-join, line-Progress, line-SawDone, line-HasError, held,
}
use qwen38_flash_next_nvidia.Client.Keeps.{
  Holds, consume_lines-Holds, consume_until-Holds, consume_all-Holds, reads-Holds,
}

abbrev raised_at : StreamResult → Result StreamResult StreamResult
raised_at res = err res

raised_at-ok : (res r : StreamResult) → raised_at res ≡ ok r → ⊥
raised_at-ok res r h = cc

module _ (loads : Text → Result LoadError Value) (shown : Value → String) (clock : ℕ → ℕ)
    (capture_raw : Bool) where
  abbrev Went : List Text → StreamResult → Type 0
  Went = Progress loads shown clock capture_raw

  -- What follows the lines of an event, a list of events or a chunk, without an exception.
  go_on :
      (lines rest : List Text) (m : Result StreamResult StreamResult) (r₁ r₂ : StreamResult)
      → Went lines r₁
      → m ≡ ok r₂
      → (HasError r₁ → Holds HasError m)
      → (SawDone true r₁ → Holds (SawDone true) m)
      → (SawDone false r₁ → Went rest r₂)
      → Went (lines ++ rest) r₂
  go_on lines rest m r₁ r₂ went h error seen more =
      Progress-join loads shown clock capture_raw lines rest r₁ r₂ went
        (λ e. held loads shown clock capture_raw HasError m r₂ (error e) h)
        (λ d. held loads shown clock capture_raw (SawDone true) m r₂ (seen d) h) more

  not_both : (res : StreamResult) → SawDone true res → SawDone false res → ⊥
  not_both res d f = cc

  lines-Progress :
      (lines : List Text) (res r : StreamResult)
      → SawDone false res
      → consume_lines loads shown clock capture_raw lines res ≡ ok r
      → Went (filled lines) r
  unfolding consume_lines filled
  lines-Progress [] res r f h = inr (inr (subst (SawDone false) (ok-inj h) f, tt))
    where
      ok-inj : consume_lines loads shown clock capture_raw [] res ≡ ok r → res ≡ r
      ok-inj h = cc
  lines-Progress ([] ∷ lines) res r f h = lines-Progress lines res r f h
  lines-Progress ((c ∷ line) ∷ lines) res r f h =
      bound (consume_line loads shown clock capture_raw (c ∷ line) res) _ h λ r₁ a k.
        go_on ((c ∷ line) ∷ []) (filled lines)
          (consume_lines loads shown clock capture_raw lines r₁) r₁ r
          (line-Progress loads shown clock capture_raw (c ∷ line) res r₁ f a) k
          (consume_lines-Holds loads shown clock capture_raw HasError
            (line-HasError loads shown clock capture_raw) lines r₁)
          (consume_lines-Holds loads shown clock capture_raw (SawDone true)
            (line-SawDone loads shown clock capture_raw) lines r₁)
          λ g. lines-Progress lines r₁ r g k

  event-Progress :
      (payload : Text) (res r : StreamResult)
      → SawDone false res
      → consume_event loads shown clock capture_raw payload res ≡ ok r
      → Went (lines_of payload) r
  unfolding consume_event
  event-Progress payload res r f = elim (Bool-cases (has_newline payload)) [
    | inl e ↦ rw e λ h. lines-Progress (split_lines payload) res r f h
    | inr e ↦ rw e λ h. line-Progress loads shown clock capture_raw payload res r f h
  ]

  all-Progress :
      (payloads : List Text) (res r : StreamResult)
      → SawDone false res
      → consume_all loads shown clock capture_raw payloads res ≡ ok r
      → Went (lines_of_all payloads) r
  unfolding consume_all lines_of_all
  all-Progress [] res r f h = inr (inr (subst (SawDone false) (ok-inj h) f, tt))
    where
      ok-inj : consume_all loads shown clock capture_raw [] res ≡ ok r → res ≡ r
      ok-inj h = cc
  all-Progress (payload ∷ payloads) res r f h =
      bound (consume_event loads shown clock capture_raw payload res) _ h λ r₁ a k.
        go_on (lines_of payload) (lines_of_all payloads)
          (consume_all loads shown clock capture_raw payloads r₁) r₁ r
          (event-Progress payload res r₁ f a) k
          (consume_all-Holds loads shown clock capture_raw HasError
            (line-HasError loads shown clock capture_raw) payloads r₁)
          (consume_all-Holds loads shown clock capture_raw (SawDone true)
            (line-SawDone loads shown clock capture_raw) payloads r₁)
          λ g. all-Progress payloads r₁ r g k

  until-Progress :
      (payloads : List Text) (res r : StreamResult)
      → SawDone false res
      → consume_until loads shown clock capture_raw payloads res ≡ ok r
      → Went (lines_of_all payloads) r
  unfolding consume_until lines_of_all
  until-Progress [] res r f h = inr (inr (subst (SawDone false) (ok-inj h) f, tt))
    where
      ok-inj : consume_until loads shown clock capture_raw [] res ≡ ok r → res ≡ r
      ok-inj h = cc
  until-Progress (payload ∷ payloads) res r f h =
      bound (consume_event loads shown clock capture_raw payload res) _ h λ r₁ a k.
        let went = event-Progress payload res r₁ f a in
        elim (Bool-cases r₁.saw_done) [
          | inl d ↦
              go_on (lines_of payload) (lines_of_all payloads) (ok r₁) r₁ r went (rw d at k)
                (λ e. e) (λ s. s) λ g. absurd (not_both r₁ d g)
          | inr g ↦
              let rest = consume_until loads shown clock capture_raw payloads r₁ in
              let k' : rest ≡ ok r = rw g at k in
              go_on (lines_of payload) (lines_of_all payloads) rest r₁ r went k'
                (consume_until-Holds loads shown clock capture_raw HasError
                  (line-HasError loads shown clock capture_raw) payloads r₁)
                (consume_until-Holds loads shown clock capture_raw (SawDone true)
                  (line-SawDone loads shown clock capture_raw) payloads r₁)
                λ g. until-Progress payloads r₁ r g k'
        ]

  flush-Progress :
      (d : Decoder) (res r : StreamResult)
      → SawDone false res
      → flush loads shown clock capture_raw (res, d) ≡ ok r
      → Went (lines_at_end (close d)) r
  unfolding flush
  flush-Progress d res r f = rw f (elim (Result-cases (close d)) [
    | inl ((events, d'), e) ↦ rw e λ h. all-Progress events res r f h
    | inr (x, e) ↦ rw e λ h. absurd (raised_at-ok res r h)
  ])

  flush_seen :
      (res : StreamResult) (d : Decoder)
      → SawDone true res
      → flush loads shown clock capture_raw (res, d) ≡ ok res
  unfolding flush
  flush_seen res d s = simp s

  -- What a request without an exception has made of the lines that were delivered.
  pub reads-Progress :
      (reads : Reads) (d : Decoder) (res r : StreamResult)
      → SawDone false res
      → (read_loop loads shown clock capture_raw d reads res
          >>= flush loads shown clock capture_raw)
        ≡ ok r
      → Went (delivered d reads) r
  unfolding read_loop delivered
  reads-Progress eof d res r f = flush-Progress d res r f
  reads-Progress broken d res r f = λ h. absurd (raised_at-ok res r h)
  reads-Progress (chunk [] reads) d res r f = flush-Progress d res r f
  reads-Progress (chunk (b ∷ bytes) reads) d res r f = elim (Result-cases (feed d (b ∷ bytes))) [
    | inr (x, e) ↦ rw e λ h. absurd (raised_at-ok res r h)
    | inl ((events, d'), e) ↦
        elim (Result-cases (consume_until loads shown clock capture_raw events res)) [
          | inr (x, g) ↦ rw (e, g) λ h. absurd (raised_at-ok x r h)
          | inl (r₁, g) ↦
              let went = until-Progress events res r₁ f g in
              elim (Bool-cases r₁.saw_done) [
                | inl s ↦
                    rw (e, g)
                      (simp s λ h.
                        go_on (lines_of_all events) (delivered d' reads)
                          (flush loads shown clock capture_raw (r₁, d')) r₁ r went h
                          (λ k. subst (Holds HasError) (sym (flush_seen r₁ d' s)) k)
                          (λ k. subst (Holds (SawDone true)) (sym (flush_seen r₁ d' s)) k)
                          λ k. absurd (not_both r₁ s k))
                | inr s ↦
                    rw (e, g)
                      (simp s λ h.
                        go_on (lines_of_all events) (delivered d' reads)
                          (read_loop loads shown clock capture_raw d' reads r₁
                            >>= flush loads shown clock capture_raw)
                          r₁ r went h
                          (reads-Holds loads shown clock capture_raw HasError
                            (line-HasError loads shown clock capture_raw) reads d' r₁)
                          (reads-Holds loads shown clock capture_raw (SawDone true)
                            (line-SawDone loads shown clock capture_raw) reads d' r₁)
                          λ k. reads-Progress reads d' r₁ r k h)
              ]
        ]
  ]
