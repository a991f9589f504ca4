-- ===== src/Sse/Codec.antt =====
-- `codecs.getincrementaldecoder("utf-8")`, which SSEDecoder of scripts/http_client.py drives: the
-- strict decoder as a state machine over bytes. An incomplete sequence stays pending.
use qwen38_flash_next_nvidia.Prelude.{
  ℕ, ◌+◌, ◌-◌, ◌*◌, ◌<◌, ◌≡◌, refl, Bool, ◌&&◌, List, [], ◌∷◌, ◌++◌, arith, ltb, leb, ◌==◌,
  if◌then◌else◌, Result, ok, err, ◌>>=◌, All,
}

-- A text is the list of its code points.
abbrev pub Text : Type 0
Text = List ℕ

pub data DecodeError : Type 0 where
  invalid_start_byte invalid_continuation_byte unexpected_end_of_data : DecodeError

-- `need` continuation bytes are awaited, the next one from `low` to `high`; `partial` is the code
-- point so far.
pub record Utf8 : Type 0 where
  pub need : ℕ
  pub partial : ℕ
  pub low : ℕ
  pub high : ℕ

abbrev pub utf8_start : Utf8
utf8_start = record { need = 0; partial = 0; low = 0x80; high = 0xbf }

abbrev between : ℕ → ℕ → ℕ → Bool
between low high b = leb low b && leb b high

-- The first byte of a sequence.
lead : ℕ → Result DecodeError (Text × Utf8)
lead b =
    if ltb b 0x80
    then ok (b ∷ [], utf8_start)
    else if between 0xc2 0xdf b
    then ok ([], record { need = 1; partial = b - 0xc0; low = 0x80; high = 0xbf })
    else if between 0xe0 0xef b
    then ok (
      [],
      record {
        need = 2;
        partial = b - 0xe0;
        low = if b == 0xe0 then 0xa0 else 0x80;
        high = if b == 0xed then 0x9f else 0xbf;
      },
    )
    else if between 0xf0 0xf4 b
    then ok (
      [],
      record {
        need = 3;
        partial = b - 0xf0;
        low = if b == 0xf0 then 0x90 else 0x80;
        high = if b == 0xf4 then 0x8f else 0xbf;
      },
    )
    else err invalid_start_byte

continuation : Utf8 → ℕ → Result DecodeError (Text × Utf8)
continuation u b =
    if between u.low u.high b
    then (let point = u.partial * 64 + (b - 0x80) in
        if u.need == 1
        then ok (point ∷ [], utf8_start)
        else ok ([], record { need = u.need - 1; partial = point; low = 0x80; high = 0xbf }))
    else err invalid_continuation_byte

unfoldable pub decode_byte : Utf8 → ℕ → Result DecodeError (Text × Utf8)
unfolding lead continuation
decode_byte u b = if u.need == 0 then lead b else continuation u b

-- `decoder.decode(raw)`
unfoldable pub decode : Utf8 → List ℕ → Result DecodeError (Text × Utf8)
unfolding decode_byte
decode u [] = ok ([], u)
decode u (b ∷ raw) = do
  (text, u') ← decode_byte u b
  (rest, u'') ← decode u' raw
  ok (text ++ rest, u'')

-- `decoder.decode(raw, final=True)`
unfoldable pub decode_final : Utf8 → List ℕ → Result DecodeError (Text × Utf8)
unfolding decode
decode_final u raw = do
  (text, u') ← decode u raw
  if u'.need == 0 then ok (text, utf8_start) else err unexpected_end_of_data

-- Bytes below 0x80 are decoded to themselves.
pub decode_ascii :
    (raw : List ℕ) → All (λ b. b < 0x80) raw → decode utf8_start raw ≡ ok (raw, utf8_start)
unfolding decode
decode_ascii [] h = refl
decode_ascii (b ∷ raw) h = ground (arith, decode_ascii raw h.1)
