-- ===== src/Sse/Feeding.antt =====
-- Chunk after chunk, `feed` of scripts/http_client.py gives what it gives for all bytes at once.
use mathlib.Core.List.{append-nil}
use qwen38_flash_next_nvidia.Prelude.{
  ℕ, zero, suc, ◌≤◌, ◌≡◌, refl, sym, ap, inl, inr, none, List, [], ◌∷◌, ◌++◌, arith, ok, length,
  Option-cases, Result-cases,
}
use qwen38_flash_next_nvidia.Sse.Newline.{find_newline_bounds}
use qwen38_flash_next_nvidia.Sse.{Text, Decoder, fresh, find, find_newline, feed_loop, feed}
use qwen38_flash_next_nvidia.Sse.Chunks.{
  Outcome, and_then, behind, cut_line, extend, feed-append, feed_loop-none, feed_loop-some,
  length-cut_line,
}

-- Every chunk in turn.
unfoldable pub feed_all : Decoder → List (List ℕ) → Outcome
feed_all d [] = ok ([], d)
feed_all d (chunk ∷ chunks) = and_then (feed d chunk) (λ d'. feed_all d' chunks)

abbrev pub concat : List (List ℕ) → List ℕ
concat [] = []
concat (chunk ∷ chunks) = chunk ++ concat chunks

-- No whole line waits in the buffer.
abbrev pub IsDrained : Decoder → Type 0
IsDrained d = find_newline d.buf ≡ none

feed_loop-IsDrained :
    (n : ℕ) (d : Decoder) (events : List Text) (d' : Decoder)
    → length d.buf ≤ n
    → feed_loop n d ≡ ok (events, d')
    → IsDrained d'
feed_loop-IsDrained zero d events d' h k = elim (Option-cases (find_newline d.buf)) [
  | inl e ↦ ground (arith, feed_loop-none zero d e)
  | inr ((i, j), e) ↦ absurd (omega (arith, find_newline_bounds d.buf i j e))
]
feed_loop-IsDrained (suc n) d events d' h k = elim (Option-cases (find_newline d.buf)) [
  | inl e ↦ ground (arith, feed_loop-none (suc n) d e)
  | inr ((i, j), e) ↦ elim (Result-cases (cut_line d (i, j))) [
    | inl ((before, d₁), c) ↦ elim (Result-cases (feed_loop n d₁)) [
      | inl ((after, d₂), l) ↦ ground (
        arith,
        feed_loop-some n d i j e,
        length-cut_line d i j before d₁ e c,
        feed_loop-IsDrained n d₁ after d₂,
      )
      | inr (x, l) ↦ ground (arith, feed_loop-some n d i j e)
    ]
    | inr (x, c) ↦ ground (arith, feed_loop-some n d i j e)
  ]
]

pub feed-IsDrained :
    (d : Decoder) (chunk : List ℕ) (events : List Text) (d' : Decoder)
    → feed d chunk ≡ ok (events, d')
    → IsDrained d'
unfolding feed
feed-IsDrained d chunk events d' =
    feed_loop-IsDrained (length (d.buf ++ chunk)) (extend d chunk) events d' (omega arith)

pub fresh-IsDrained : IsDrained fresh
unfolding find_newline find
fresh-IsDrained = refl

pub feed-nil : (d : Decoder) → IsDrained d → feed d [] ≡ ok ([], d)
unfolding feed
feed-nil d h = rw append-nil (feed_loop-none _ d h)

pub feed_all-eq-feed :
    (d : Decoder) (chunks : List (List ℕ))
    → IsDrained d
    → feed_all d chunks ≡ feed d (concat chunks)
unfolding feed_all
feed_all-eq-feed d [] h = sym (feed-nil d h)
feed_all-eq-feed d (chunk ∷ chunks) h = elim (Result-cases (feed d chunk)) [
  | inl ((events, d'), e) ↦
      rw (feed-append, e)
        (ap (behind events) (feed_all-eq-feed d' chunks (feed-IsDrained d chunk events d' e)))
  | inr (x, e) ↦ rw (feed-append, e)
]

-- However the bytes of a stream are cut into chunks, the decoder returns the same events and the
-- same state, or the same decoding error.
pub feed_all_chunking :
    (chunks chunks' : List (List ℕ))
    → concat chunks ≡ concat chunks'
    → feed_all fresh chunks ≡ feed_all fresh chunks'
feed_all_chunking chunks chunks' h = rw (
  feed_all-eq-feed fresh chunks fresh-IsDrained,
  feed_all-eq-feed fresh chunks' fresh-IsDrained,
  h,
)
