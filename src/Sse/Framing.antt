-- ===== src/Sse/Framing.antt =====
-- Where a line of an event ends, for the bytes that scripts/http_client.py reads.
use qwen38_flash_next_nvidia.Prelude.{
  ℕ, suc, ◌+◌, ◌<◌, ◌≡◌, ◌≢◌, refl, true, none, some, List, [], ◌∷◌, ◌++◌, arith, length, All,
  length-append, ◌-◌, All-append,
}
use qwen38_flash_next_nvidia.Sse.{Text, Decoder, utf8_start, find, byte_is, lf, cr, find_newline}

pub data LineEnd : Type 0 where
  lf_end crlf_end : LineEnd

abbrev pub terminator : LineEnd → List ℕ
terminator lf_end = lf ∷ []
terminator crlf_end = cr ∷ lf ∷ []

-- A byte of a line: ASCII, and no line terminator.
abbrev pub IsPlain : ℕ → Type 0
IsPlain c = (c < 0x80) × (c ≢ lf) × (c ≢ cr)

abbrev pub StartsPlain : Text → Type 0
StartsPlain [] = Unit
StartsPlain (c ∷ line) = c ≢ b' '

-- A line of data that survives the framing.
pub record IsDataLine (line : Text) : Type 0 where
  pub plain : All IsPlain line
  pub start : StartsPlain line

-- "data: " and the line
unfoldable pub data_field : Text → Text
data_field line = b'd' ∷ b'a' ∷ b't' ∷ b'a' ∷ b':' ∷ b' ' ∷ line

unfoldable pub encode_lines : LineEnd → List Text → List ℕ
encode_lines nl [] = []
encode_lines nl (line ∷ lines) = (data_field line ++ terminator nl) ++ encode_lines nl lines

-- The lines of one event, and the empty line behind them.
unfoldable pub encode_event : LineEnd → List Text → List ℕ
unfolding encode_lines data_field
encode_event nl lines = encode_lines nl lines ++ terminator nl

unfoldable pub encode : LineEnd → List (List Text) → List ℕ
unfolding encode_event
encode nl [] = []
encode nl (event ∷ events) = encode_event nl event ++ encode nl events

find-line :
    (c : ℕ) (line rest : List ℕ)
    → All (λ b. b ≢ c) line
    → find c (line ++ (c ∷ rest)) ≡ some (length line)
unfolding find
find-line c [] rest h = ground arith
find-line c (b ∷ line) rest h = ground (arith, find-line c line rest h.1)

not_lf : (line : Text) → All IsPlain line → All (λ b. b ≢ lf) line
not_lf [] h = tt
not_lf (c ∷ line) h = (h.0.1, not_lf line h.1)

not_cr : (line : Text) → All IsPlain line → All (λ b. b ≢ cr) line
not_cr [] h = tt
not_cr (c ∷ line) h = (h.0.2, not_cr line h.1)

pub below : (line : Text) → All IsPlain line → All (λ b. b < 0x80) line
below [] h = tt
below (c ∷ line) h = (h.0.0, below line h.1)

find-none : (c : ℕ) (line : List ℕ) → All (λ b. b ≢ c) line → find c line ≡ none
unfolding find
find-none c [] h = refl
find-none c (b ∷ line) h = ground (arith, find-none c line h.1)

byte_is-line :
    (line : List ℕ) (c : ℕ) (rest : List ℕ)
    → byte_is c (length line + 1) (line ++ (cr ∷ c ∷ rest)) ≡ true
unfolding byte_is
byte_is-line [] c rest = ground arith
byte_is-line (b ∷ line) c rest = ground (arith, byte_is-line line c rest)

lf_ne_cr : ◌≢◌ {A = ℕ} lf cr
lf_ne_cr = omega arith

cr_ne_lf : ◌≢◌ {A = ℕ} cr lf
cr_ne_lf = omega arith

find-lf_behind :
    (line : Text) → All IsPlain line → find lf (line ++ (cr ∷ lf ∷ [])) ≡ some (length line + 1)
unfolding find
find-lf_behind [] h = refl
find-lf_behind (b ∷ line) h = ground (arith, find-lf_behind line h.1)

-- The line is cut before its terminator.
pub find_newline-line :
    (nl : LineEnd) (line : Text)
    → All IsPlain line
    → find_newline (line ++ terminator nl)
      ≡ some (length line, length line + length (terminator nl))
unfolding find_newline
find_newline-line lf_end line h = ground (
  arith,
  find-line lf line [] (not_lf line h),
  find-none cr (line ++ lf ∷ [])
      (All-append (λ b. b ≢ cr) line (lf ∷ []) (not_cr line h) (lf_ne_cr, tt)),
)
find_newline-line crlf_end line h = ground (
  arith,
  find-line cr line (lf ∷ []) (not_cr line h),
  find-lf_behind line h,
  byte_is-line line lf [],
  length-append line (cr ∷ lf ∷ []),
)

pub length-suc :
    (nl : LineEnd) (line : Text)
    → length (line ++ terminator nl) ≡ suc (length line + length (terminator nl) - 1)
length-suc lf_end line = omega (arith, length-append line (lf ∷ []))
length-suc crlf_end line = omega (arith, length-append line (cr ∷ lf ∷ []))

-- A decoder between two lines.
abbrev pub ready : List Text → Decoder
ready lines = record { buf = []; utf8 = utf8_start; lines = lines }
