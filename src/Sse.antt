-- ===== src/Sse.antt =====
-- SSEDecoder of scripts/http_client.py: bytes in chunks of any size to event payloads.
mod Codec
mod Newline
pub mod Framing
pub mod Chunks
pub mod Feeding
pub mod Format
mod Tests
pub use Codec.{Text, DecodeError, Utf8, utf8_start, decode_ascii}
unfoldable pub use Codec.{decode, decode_final}
use qwen38_flash_next_nvidia.Prelude.{
  ℕ, zero, suc, ◌+◌, ltb, ◌==◌, if◌then◌else◌, Bool, true, false, ◌&&◌, Option, none, some, List,
  [], ◌∷◌, ◌++◌, Result, ok, err, ◌>>=◌, length, take, drop,
}

pub record Decoder : Type 0 where
  pub buf : List ℕ
  pub utf8 : Utf8
  pub lines : List Text

-- `SSEDecoder()`
abbrev pub fresh : Decoder
fresh = record { buf = []; utf8 = utf8_start; lines = [] }

-- `buf.find(byte)`
unfoldable pub find : ℕ → List ℕ → Option ℕ
find byte [] = none
find byte (b ∷ buf) =
    if b == byte then some 0 else elim (find byte buf) [ none ↦ none | some i ↦ some (i + 1) ]

-- The byte at an index, as the one-byte slice `buf[i : i + 1]` compares with it.
unfoldable pub byte_is : ℕ → ℕ → List ℕ → Bool
byte_is byte i [] = false
byte_is byte zero (b ∷ buf) = b == byte
byte_is byte (suc i) (b ∷ buf) = byte_is byte i buf

abbrev pub lf : ℕ
lf = 10

abbrev pub cr : ℕ
cr = 13

lf_candidate : List ℕ → Option (ℕ × ℕ)
lf_candidate buf = elim (find lf buf) [ none ↦ none | some i ↦ some (i, i + 1) ]

-- A CR that is the last buffered byte is held.
cr_candidate : List ℕ → Option (ℕ × ℕ)
cr_candidate buf = elim (find cr buf) [
  | none ↦ none
  | some i ↦
      if ltb (i + 1) (length buf)
      then some (i, (if byte_is lf (i + 1) buf then i + 2 else i + 1))
      else none
]

-- `min` of two pairs, the lexicographic order of tuples.
min_pair : ℕ × ℕ → ℕ × ℕ → ℕ × ℕ
min_pair (i, m) (j, n) =
    if ltb i j then (i, m) else if ltb j i then (j, n) else if ltb n m then (j, n) else (i, m)

least : Option (ℕ × ℕ) → Option (ℕ × ℕ) → Option (ℕ × ℕ)
least none none = none
least none (some q) = some q
least (some p) none = some p
least (some p) (some q) = some (min_pair p q)

-- `_find_newline`: where the next line ends, and where its terminator ends.
pub find_newline : List ℕ → Option (ℕ × ℕ)
unfolding lf_candidate cr_candidate min_pair least
find_newline buf = least (lf_candidate buf) (cr_candidate buf)

-- `s.lstrip(" ")`
unfoldable pub lstrip : Text → Text
lstrip [] = []
lstrip (c ∷ s) = if c == b' ' then lstrip s else c ∷ s

-- `ln[5:].lstrip(" ") if ln.startswith("data:") else None`
unfoldable pub data_line : Text → Option Text
unfolding lstrip
data_line (c₀ ∷ c₁ ∷ c₂ ∷ c₃ ∷ c₄ ∷ rest) =
    if c₀ == b'd' && (c₁ == b'a' && (c₂ == b't' && (c₃ == b'a' && c₄ == b':')))
    then some (lstrip rest)
    else none
data_line _ = none

-- The data of the lines of one event, those with no data left out.
unfoldable pub data_lines : List Text → List Text
unfolding data_line
data_lines [] = []
data_lines (ln ∷ lines) =
    let rest = data_lines lines in elim (data_line ln) [ none ↦ rest | some d ↦ d ∷ rest ]

-- `"\n".join(parts)`
unfoldable pub join_lines : List Text → Text
join_lines [] = []
join_lines (part ∷ []) = part
join_lines (part ∷ next ∷ parts) = part ++ (lf ∷ join_lines (next ∷ parts))

payload_of : List Text → List Text
payload_of [] = []
payload_of (d ∷ ds) = join_lines (d ∷ ds) ∷ []

-- The events that a finished group of lines makes: none for comments and keepalives.
unfoldable pub dispatch : List Text → List Text
unfolding data_lines join_lines payload_of
dispatch lines = payload_of (data_lines lines)

-- One line of `feed`, already cut from the buffer.
abbrev pub after_line : Decoder → Text → List Text × Decoder
after_line d [] = (dispatch (d.lines ++ [] ∷ []), record d { lines = [] })
after_line d (c ∷ line) = ([], record d { lines = d.lines ++ (c ∷ line) ∷ [] })

pub accept_line : Decoder → List ℕ → Result DecodeError (List Text × Decoder)
unfolding dispatch
accept_line d raw = do (line, u) ← decode d.utf8 raw; ok (after_line (record d { utf8 = u }) line)

-- The `while` loop of `feed`. A round cuts at least one byte, so the length of the buffer is
-- enough fuel.
pub feed_loop : ℕ → Decoder → Result DecodeError (List Text × Decoder)
unfolding accept_line find_newline
feed_loop zero d = ok ([], d)
feed_loop (suc fuel) d = elim (find_newline d.buf) [
  | none ↦ ok ([], d)
  | some (end, next) ↦ do
    (events, d') ← accept_line (record d { buf = drop next d.buf }) (take end d.buf)
    (more, d'') ← feed_loop fuel d'
    ok (events ++ more, d'')
]

-- `feed`
unfoldable pub feed : Decoder → List ℕ → Result DecodeError (List Text × Decoder)
unfolding feed_loop
feed d chunk = feed_loop (length (d.buf ++ chunk)) (record d { buf = d.buf ++ chunk })

-- `line[:-1] if line.endswith("\r") else line`
unfoldable pub drop_last_cr : Text → Text
drop_last_cr [] = []
drop_last_cr (c ∷ []) = if c == cr then [] else c ∷ []
drop_last_cr (c ∷ c' ∷ s) = c ∷ drop_last_cr (c' ∷ s)

abbrev pending_line : List Text → Text → List Text
pending_line lines [] = lines
pending_line lines (c ∷ line) = lines ++ drop_last_cr (c ∷ line) ∷ []

-- `close`
unfoldable pub close : Decoder → Result DecodeError (List Text × Decoder)
unfolding dispatch drop_last_cr decode_final
close d = do
  (pending, u) ← elim d.buf [ [] ↦ ok ([], d.utf8) | b ∷ buf ↦ decode_final d.utf8 (b ∷ buf) ]
  (tail, u') ← decode_final u []
  ok (dispatch (pending_line d.lines (pending ++ tail)), record { buf = []; utf8 = u'; lines = [] })
