-- ===== src/Client/Delivered.antt =====
-- The lines that a response delivers, decoded, up to the done sentinel (scripts/http_client.py).
use qwen38_flash_next_nvidia.Prelude.{
  ◌≡◌, refl, ◌⊎◌, inl, inr, Bool, true, some, List, [], ◌∷◌, ◌++◌, Result, ok, err, arith, All,
  if◌then◌else◌,
}
use qwen38_flash_next_nvidia.Json.{Value}
use qwen38_flash_next_nvidia.Sse.{Text, Decoder, DecodeError, close, feed}
use qwen38_flash_next_nvidia.Client.{
  LoadError, StreamResult, Failure, has_newline, split_lines, same_text, done_sentinel,
}
use qwen38_flash_next_nvidia.Client.Stream.{Reads, eof, broken, chunk}

-- The lines of a payload that has more than one; empty ones are passed over.
unfoldable pub filled : List Text → List Text
filled [] = []
filled ([] ∷ lines) = filled lines
filled ((c ∷ line) ∷ lines) = (c ∷ line) ∷ filled lines

abbrev pub lines_of : Text → List Text
lines_of payload = if has_newline payload then filled (split_lines payload) else payload ∷ []

unfoldable pub lines_of_all : List Text → List Text
unfolding filled has_newline split_lines
lines_of_all [] = []
lines_of_all (payload ∷ payloads) = lines_of payload ++ lines_of_all payloads

abbrev pub lines_at_end : Result DecodeError (List Text × Decoder) → List Text
lines_at_end (ok (events, d)) = lines_of_all events
lines_at_end (err e) = []

abbrev pub lines_then : (Decoder → List Text) → Result DecodeError (List Text × Decoder) → List Text
lines_then rest (ok (events, d)) = lines_of_all events ++ rest d
lines_then rest (err e) = []

-- The lines of a response up to its end or a decoding error.
unfoldable pub delivered : Decoder → Reads → List Text
unfolding lines_of_all
delivered d eof = lines_at_end (close d)
delivered d broken = []
delivered d (chunk [] reads) = lines_at_end (close d)
delivered d (chunk (b ∷ bytes) reads) = lines_then (λ d'. delivered d' reads) (feed d (b ∷ bytes))

module _ (loads : Text → Result LoadError Value) where
  abbrev pub IsJson : Text → Type 0
  IsJson line = (v : Value) × (loads line ≡ ok v)

  -- The done sentinel is among the lines, and every line before it is valid JSON.
  abbrev pub UntilDone : List Text → Type 0
  UntilDone [] = ⊥
  UntilDone (line ∷ lines) = (line ≡ done_sentinel) ⊎ (IsJson line × UntilDone lines)

  pub UntilDone-ahead : (lines rest : List Text) → UntilDone lines → UntilDone (lines ++ rest)
  UntilDone-ahead [] rest u = absurd u
  UntilDone-ahead (line ∷ lines) rest (inl e) = inl e
  UntilDone-ahead (line ∷ lines) rest (inr (j, u)) = inr (j, UntilDone-ahead lines rest u)

  pub UntilDone-behind :
      (lines rest : List Text) → All IsJson lines → UntilDone rest → UntilDone (lines ++ rest)
  UntilDone-behind [] rest a u = u
  UntilDone-behind (line ∷ lines) rest a u = inr (a.0, UntilDone-behind lines rest a.1 u)

abbrev pub HasError : StreamResult → Type 0
HasError res = (e : Failure) × (res.error ≡ some e)

abbrev pub SawDone : Bool → StreamResult → Type 0
SawDone b res = res.saw_done ≡ b

pub same_text-eq-true : (s t : Text) → same_text s t ≡ true → s ≡ t
unfolding same_text
same_text-eq-true [] [] h = refl
same_text-eq-true [] (d ∷ t) h = cc
same_text-eq-true (c ∷ s) [] h = cc
same_text-eq-true (c ∷ s) (d ∷ t) h =
    let same : s ≡ t = same_text-eq-true s t (ground arith) in
    let first : c ≡ d = ground arith in cc
