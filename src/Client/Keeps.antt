-- ===== src/Client/Keeps.antt =====
-- An invariant of `_consume_event` on one line is one of the whole request (scripts/http_client.py).
use qwen38_flash_next_nvidia.Prelude.{
  ℕ, String, Bool, List, [], ◌∷◌, Result, ok, err, ◌>>=◌, Bool-cases, Result-cases, inl, inr,
}
use qwen38_flash_next_nvidia.Json.{Value}
use qwen38_flash_next_nvidia.Sse.{Text, Decoder, fresh, feed, close}
use qwen38_flash_next_nvidia.Client.{
  StreamResult, LoadError, consume_line, consume_lines, consume_event, split_lines, has_newline,
}
use qwen38_flash_next_nvidia.Client.Stream.{
  Reads, eof, broken, chunk, consume_until, consume_all, read_loop, flush, read_response,
}

-- The property of the result, whether the code returned or raised.
abbrev pub Either :
    {A : Type 0} → (StreamResult → Type 0) → (A → StreamResult) → Result StreamResult A → Type 0
Either P get_result (ok a) = P (get_result a)
Either P get_result (err res) = P res

abbrev pub Holds : (StreamResult → Type 0) → Result StreamResult StreamResult → Type 0
Holds P = Either P λ res. res

module _ (loads : Text → Result LoadError Value) (shown : Value → String) (clock : ℕ → ℕ)
    (capture_raw : Bool) (P : StreamResult → Type 0)
    (line : (payload : Text) (res : StreamResult)
      → P res
      → Holds P (consume_line loads shown clock capture_raw payload res)) where
  bind_Holds :
      {A B : Type 0} (f : A → StreamResult) (g : B → StreamResult) (m : Result StreamResult A)
      (k : A → Result StreamResult B)
      → Either P f m
      → ((a : A) → P (f a) → Either P g (k a))
      → Either P g (m >>= k)
  bind_Holds f g (ok a) k h go = go a h
  bind_Holds f g (err e) k h go = h

  pub consume_lines-Holds :
      (lines : List Text) (res : StreamResult)
      → P res
      → Holds P (consume_lines loads shown clock capture_raw lines res)
  unfolding consume_lines
  consume_lines-Holds [] res p = p
  consume_lines-Holds ([] ∷ lines) res p = consume_lines-Holds lines res p
  consume_lines-Holds ((c ∷ l) ∷ lines) res p =
      bind_Holds (λ r. r) (λ r. r) _ _ (line (c ∷ l) res p) λ r q. consume_lines-Holds lines r q

  pub consume_event-Holds :
      (payload : Text) (res : StreamResult)
      → P res
      → Holds P (consume_event loads shown clock capture_raw payload res)
  unfolding consume_event
  consume_event-Holds payload res p = elim (Bool-cases (has_newline payload)) [
    | inl e ↦ rw e (consume_lines-Holds (split_lines payload) res p)
    | inr e ↦ rw e (line payload res p)
  ]

  pub consume_until-Holds :
      (payloads : List Text) (res : StreamResult)
      → P res
      → Holds P (consume_until loads shown clock capture_raw payloads res)
  unfolding consume_until
  consume_until-Holds [] res p = p
  consume_until-Holds (payload ∷ payloads) res p =
      bind_Holds (λ r. r) (λ r. r) _ _ (consume_event-Holds payload res p)
        λ r q. elim (Bool-cases r.saw_done) [
          | inl e ↦ rw e q
          | inr e ↦ rw e (consume_until-Holds payloads r q)
        ]

  pub consume_all-Holds :
      (payloads : List Text) (res : StreamResult)
      → P res
      → Holds P (consume_all loads shown clock capture_raw payloads res)
  unfolding consume_all
  consume_all-Holds [] res p = p
  consume_all-Holds (payload ∷ payloads) res p =
      bind_Holds (λ r. r) (λ r. r) _ _ (consume_event-Holds payload res p)
        λ r q. consume_all-Holds payloads r q

  flush-Holds :
      (res : StreamResult) (d : Decoder)
      → P res
      → Holds P (flush loads shown clock capture_raw (res, d))
  unfolding flush
  flush-Holds res d p = elim (Bool-cases res.saw_done) [
    | inl e ↦ rw e p
    | inr e ↦ elim (Result-cases (close d)) [
      | inl ((events, d'), f) ↦ rw (e, f) (consume_all-Holds events res p)
      | inr (x, f) ↦ rw (e, f) p
    ]
  ]

  read_loop-Holds :
      (reads : Reads) (d : Decoder) (res : StreamResult)
      → P res
      → Either P (λ (r, d'). r) (read_loop loads shown clock capture_raw d reads res)
  unfolding read_loop
  read_loop-Holds eof d res p = p
  read_loop-Holds broken d res p = p
  read_loop-Holds (chunk [] reads) d res p = p
  read_loop-Holds (chunk (b ∷ bytes) reads) d res p = elim (Result-cases (feed d (b ∷ bytes))) [
    | inl ((events, d'), e) ↦ rw e (
        bind_Holds (λ r. r) (λ (r, d). r) _ _ (consume_until-Holds events res p)
          λ r q. elim (Bool-cases r.saw_done) [
            | inl f ↦ rw f q
            | inr f ↦ rw f (read_loop-Holds reads d' r q)
          ])
    | inr (x, e) ↦ rw e p
  ]

  pub reads-Holds :
      (reads : Reads) (d : Decoder) (res : StreamResult)
      → P res
      → Holds P (
          read_loop loads shown clock capture_raw d reads res
          >>= flush loads shown clock capture_raw)
  reads-Holds reads d res p =
      bind_Holds (λ (r, d). r) (λ r. r) _ _ (read_loop-Holds reads d res p)
        λ (r, d) q. flush-Holds r d q

  pub read_response-Holds :
      (reads : Reads) (res : StreamResult)
      → P res
      → Holds P (read_response loads shown clock capture_raw reads res)
  unfolding read_response
  read_response-Holds reads res p = reads-Holds reads fresh res p
