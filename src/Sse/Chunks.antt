-- ===== src/Sse/Chunks.antt =====
-- `feed` of scripts/http_client.py does not see how the bytes are cut into chunks.
use mathlib.Core.List.{append_assoc}
use qwen38_flash_next_nvidia.Prelude.{
  ℕ, zero, suc, ◌+◌, ◌≤◌, ◌<◌, ◌≡◌, refl, sym, ap, ◌∙◌, inl, inr, none, some, List, [], ◌∷◌, ◌++◌,
  arith, Result, ok, err, length, take, drop, length-append, length-drop, take-append, drop-append,
  Option-cases, Result-cases,
}
use qwen38_flash_next_nvidia.Sse.Newline.{find_newline_bounds, find_newline-append}
use qwen38_flash_next_nvidia.Sse.{
  Text, Decoder, DecodeError, decode, find_newline, accept_line, feed_loop, feed,
}

-- The same decoder with more bytes at the end of its buffer.
abbrev pub extend : Decoder → List ℕ → Decoder
extend d more = record d { buf = d.buf ++ more }

abbrev pub Outcome : Type 0
Outcome = Result DecodeError (List Text × Decoder)

-- An outcome behind events that came before it.
abbrev pub behind : List Text → Outcome → Outcome
behind before (err e) = err e
behind before (ok (events, d)) = ok (before ++ events, d)

-- One step after another, with the events of both.
abbrev pub and_then : Outcome → (Decoder → Outcome) → Outcome
and_then (err e) f = err e
and_then (ok (events, d)) f = behind events (f d)

behind-nil : (r : Outcome) → behind [] r ≡ r
behind-nil (err e) = refl
behind-nil (ok r) = refl

behind-behind : (xs ys : List Text) (r : Outcome) → behind xs (behind ys r) ≡ behind (xs ++ ys) r
behind-behind xs ys (err e) = refl
behind-behind xs ys (ok (events, d)) = rw append_assoc

and_then-behind :
    (xs : List Text) (r : Outcome) (f : Decoder → Outcome)
    → and_then (behind xs r) f ≡ behind xs (and_then r f)
and_then-behind xs (err e) f = refl
and_then-behind xs (ok (events, d)) f = sym (behind-behind xs events (f d))

-- A line is read from what was cut, and leaves the rest of the buffer alone.
accept_line-extend :
    (d : Decoder) (raw more : List ℕ) (events : List Text) (d' : Decoder)
    → accept_line d raw ≡ ok (events, d')
    → (accept_line (extend d more) raw ≡ ok (events, extend d' more)) × (d'.buf ≡ d.buf)
unfolding accept_line
accept_line-extend d raw more events d' h = elim (Result-cases (decode d.utf8 raw)) [
  | inl (([], u), e) ↦ ground arith
  | inl ((c ∷ line, u), e) ↦ ground arith
  | inr (x, e) ↦ ground arith
]

accept_line-extend_err :
    (d : Decoder) (raw more : List ℕ) (x : DecodeError)
    → accept_line d raw ≡ err x
    → accept_line (extend d more) raw ≡ err x
unfolding accept_line
accept_line-extend_err d raw more x h = elim (Result-cases (decode d.utf8 raw)) [
  | inl (([], u), e) ↦ ground arith
  | inl ((c ∷ line, u), e) ↦ ground arith
  | inr (x, e) ↦ ground arith
]

-- A round of the loop, by what it finds.
pub feed_loop-none : (n : ℕ) (d : Decoder) → find_newline d.buf ≡ none → feed_loop n d ≡ ok ([], d)
unfolding feed_loop
feed_loop-none zero d h = refl
feed_loop-none (suc n) d h = rw (h, feed_loop)

abbrev pub cut_line : Decoder → ℕ × ℕ → Outcome
cut_line d (i, j) = accept_line (record d { buf = drop j d.buf }) (take i d.buf)

pub feed_loop-some :
    (n : ℕ) (d : Decoder) (i j : ℕ)
    → find_newline d.buf ≡ some (i, j)
    → feed_loop (suc n) d ≡ and_then (cut_line d (i, j)) (feed_loop n)
unfolding feed_loop
feed_loop-some n d i j h = ground arith

pub length-cut_line :
    (d : Decoder) (i j : ℕ) (events : List Text) (d' : Decoder)
    → find_newline d.buf ≡ some (i, j)
    → cut_line d (i, j) ≡ ok (events, d')
    → length d'.buf < length d.buf
length-cut_line d i j events d' h k =
    let same : d'.buf ≡ drop j d.buf = (accept_line-extend _ _ [] events d' k).1 in
    omega (arith, ap (λ b. length b) same, length-drop j d.buf, find_newline_bounds d.buf i j h)

cut_line-extend :
    (d : Decoder) (i j : ℕ) (more : List ℕ)
    → find_newline d.buf ≡ some (i, j)
    → cut_line (extend d more) (i, j)
      ≡ accept_line (extend (record d { buf = drop j d.buf }) more) (take i d.buf)
cut_line-extend d i j more e =
    let within = find_newline_bounds d.buf i j e in
    rw (take-append i d.buf more (omega arith), drop-append j d.buf more (omega arith))

-- Any fuel from the length of the buffer on gives the same result.
feed_loop_fuel :
    (n m : ℕ) (d : Decoder) → length d.buf ≤ n → length d.buf ≤ m → feed_loop n d ≡ feed_loop m d
feed_loop_fuel zero m d h k = elim (Option-cases (find_newline d.buf)) [
  | inl e ↦ feed_loop-none zero d e ∙ sym (feed_loop-none m d e)
  | inr ((i, j), e) ↦ absurd (omega (arith, find_newline_bounds d.buf i j e))
]
feed_loop_fuel (suc n) zero d h k = elim (Option-cases (find_newline d.buf)) [
  | inl e ↦ feed_loop-none (suc n) d e ∙ sym (feed_loop-none zero d e)
  | inr ((i, j), e) ↦ absurd (omega (arith, find_newline_bounds d.buf i j e))
]
feed_loop_fuel (suc n) (suc m) d h k = elim (Option-cases (find_newline d.buf)) [
  | inl e ↦ feed_loop-none (suc n) d e ∙ sym (feed_loop-none (suc m) d e)
  | inr ((i, j), e) ↦ elim (Result-cases (cut_line d (i, j))) [
    | inl ((events, d'), c) ↦
        rw (feed_loop-some n d i j e, feed_loop-some m d i j e, c)
          (ap (behind events) (
            feed_loop_fuel n m d' (omega (arith, length-cut_line d i j events d' e c))
              (omega (arith, length-cut_line d i j events d' e c))))
    | inr (x, c) ↦ rw (feed_loop-some n d i j e, feed_loop-some m d i j e, c)
  ]
]

-- The loop over a longer buffer is the loop over the shorter one, and then over what is left.
feed_loop-extend :
    (n m : ℕ) (d : Decoder) (more : List ℕ)
    → length d.buf ≤ n
    → length d.buf + length more ≤ m
    → feed_loop m (extend d more)
      ≡ and_then (feed_loop n d) (λ d'. feed_loop (length (d'.buf ++ more)) (extend d' more))
feed_loop-extend zero m d more h k = elim (Option-cases (find_newline d.buf)) [
  | inl e ↦
      rw (feed_loop-none zero d e, behind-nil)
        (feed_loop_fuel m _ (extend d more) (omega (arith, length-append d.buf more))
          (omega (arith, length-append d.buf more)))
  | inr ((i, j), e) ↦ absurd (omega (arith, find_newline_bounds d.buf i j e))
]
feed_loop-extend (suc n) zero d more h k = elim (Option-cases (find_newline d.buf)) [
  | inl e ↦
      rw (feed_loop-none (suc n) d e, behind-nil)
        (feed_loop_fuel zero _ (extend d more) (omega (arith, length-append d.buf more))
          (omega (arith, length-append d.buf more)))
  | inr ((i, j), e) ↦ absurd (omega (arith, find_newline_bounds d.buf i j e))
]
feed_loop-extend (suc n) (suc m) d more h k = elim (Option-cases (find_newline d.buf)) [
  | inl e ↦
      rw (feed_loop-none (suc n) d e, behind-nil)
        (feed_loop_fuel (suc m) _ (extend d more) (omega (arith, length-append d.buf more))
          (omega (arith, length-append d.buf more)))
  | inr ((i, j), e) ↦ elim (Result-cases (cut_line d (i, j))) [
    | inl ((events, d'), c) ↦
        let shorter = length-cut_line d i j events d' e c in
        rw
          (
            feed_loop-some m (extend d more) i j (find_newline-append d.buf i j e more),
            feed_loop-some n d i j e,
            c,
            cut_line-extend d i j more e,
            (accept_line-extend _ _ more events d' c).0,
            and_then-behind,
          )
          (ap (behind events) (feed_loop-extend n m d' more (omega arith) (omega arith)))
    | inr (x, c) ↦ rw (
      feed_loop-some m (extend d more) i j (find_newline-append d.buf i j e more),
      feed_loop-some n d i j e,
      c,
      cut_line-extend d i j more e,
      accept_line-extend_err _ _ more x c,
    )
  ]
]

-- A chunk in two parts is fed in two steps: the events are those of the parts, in order, and a
-- decoding error comes exactly when one of the parts raises it.
pub feed-append :
    (d : Decoder) (a b : List ℕ) → feed d (a ++ b) ≡ and_then (feed d a) (λ d'. feed d' b)
unfolding feed
feed-append d a b = rw (← append_assoc) (
    feed_loop-extend (length (d.buf ++ a)) _ (extend d a) b (omega arith)
      (omega (arith, length-append (d.buf ++ a) b)))
