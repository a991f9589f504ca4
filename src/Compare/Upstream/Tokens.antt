-- ===== src/Compare/Upstream/Tokens.antt =====
-- The tokens behind a rate that `_upstream_rate` of scripts/compare.py returns.
use mathlib.Core.Path.{subst}
use qwen38_flash_next_nvidia.Prelude.{
  ◌≡◌, refl, sym, ap, ◌∙◌, ℕ, ◌+◌, ◌*◌, String, Bool, true, false, Option, none, some, ℤ, pos,
  eqb_ℤ_iff, ◌==◌, ok, bound, passed, not_refused, both, arith, ◌&&◌,
}
use qwen38_flash_next_nvidia.Json.{
  Value, int, arr, obj, Items, nil, cons, Fields, get, Float, has_all, text_is,
}
use qwen38_flash_next_nvidia.Entrypoint.Plan.{int_is}
use qwen38_flash_next_nvidia.Compare.Upstream.{
  upstream_rate, items_length, items_all, is_eight, is_usage, lane_lengths, as_dict_row,
  check_observed, check_protocol, check_ttfts, eight_items, require_finite_positive, has_all,
  text_is, upstream_keys,
}

-- The sum of a count over the usage objects of the requests, if each of them has it.
abbrev pub plus_count : Option Value → Option ℕ → Option ℕ
plus_count (some (int (pos n))) (some m) = some (n + m)
plus_count _ _ = none

abbrev pub token_sum : String → Items → Option ℕ
token_sum key nil = some 0
token_sum key (cons (obj item) vs) = plus_count (get item key) (token_sum key vs)
token_sum key (cons _ vs) = none

int_is-eq-true : (n : ℤ) (o : Option Value) → int_is n o ≡ true → o ≡ some (int n)
int_is-eq-true n (some (int m)) h = ap (λ k. some (int k)) ((eqb_ℤ_iff m n).0 h)
int_is-eq-true n _ h = cc

plus_count-some :
    (o : Option Value) (r : Option ℕ) (n m : ℕ)
    → o ≡ some (int (pos n))
    → r ≡ some m
    → plus_count o r ≡ some (n + m)
plus_count-some o r n m e f = rw (e, f) refl

module _ (inp out : ℕ) where
  usage-counts :
      (item : Fields)
      → is_usage inp out (obj item) ≡ true
      → (get item "prompt_tokens" ≡ some (int (pos inp)))
        × (get item "completion_tokens" ≡ some (int (pos out)))
  usage-counts item h =
      let (counts, total) =
        both
          (int_is (pos inp) (get item "prompt_tokens")
            && int_is (pos out) (get item "completion_tokens"))
          _ h in
      let (a, b) = both (int_is (pos inp) (get item "prompt_tokens")) _ counts in
      (
        int_is-eq-true (pos inp) (get item "prompt_tokens") a,
        int_is-eq-true (pos out) (get item "completion_tokens") b,
      )

  token_sum-usage :
      (vs : Items)
      → items_all (is_usage inp out) vs ≡ true
      → (token_sum "prompt_tokens" vs ≡ some (items_length vs * inp))
        × (token_sum "completion_tokens" vs ≡ some (items_length vs * out))
  unfolding items_all items_length
  token_sum-usage nil h = (ap some (grind arith), ap some (grind arith))
  token_sum-usage (cons (obj item) vs) h =
      let (a, b) = both (is_usage inp out (obj item)) (items_all (is_usage inp out) vs) h in
      let (p, c) = usage-counts item a in
      let (ps, cs) = token_sum-usage vs b in
      (
        plus_count-some (get item "prompt_tokens") (token_sum "prompt_tokens" vs) inp
              (items_length vs * inp) p ps
            ∙ ap some (step inp (items_length vs)),
        plus_count-some (get item "completion_tokens") (token_sum "completion_tokens" vs) out
              (items_length vs * out) c cs
            ∙ ap some (step out (items_length vs)),
      )
    where
      step : (k n : ℕ) → k + n * k ≡ (n + 1) * k
      step k n = grind arith
  token_sum-usage (cons _ vs) h = cc

-- The observed usage of 8 requests, whose tokens add up to the totals of the row.
pub record IsObserved (row : Fields) (output_tokens : ℕ) : Type 0 where
  pub usage : Items
  pub usage_eq : get row "observed_usage" ≡ some (arr usage)
  pub requests : items_length usage ≡ 8
  pub output_eq : get row "total_output_tokens" ≡ some (int (pos output_tokens))
  pub output_sum : token_sum "completion_tokens" usage ≡ some output_tokens
  pub input_tokens : ℕ
  pub input_eq : get row "total_input_tokens" ≡ some (int (pos input_tokens))
  pub input_sum : token_sum "prompt_tokens" usage ≡ some input_tokens

eight-usage :
    (inp out : ℕ) (o : Option Value)
    → is_eight (is_usage inp out) o ≡ true
    → (vs : Items) × (o ≡ some (arr vs))
      × (items_length vs ≡ 8)
      × (items_all (is_usage inp out) vs ≡ true)
unfolding is_eight
eight-usage inp out (some (arr vs)) h =
    let (a, b) = both (items_length vs == 8) _ h in (vs, refl, ground arith, b)
eight-usage inp out _ h = cc

checks-IsObserved :
    (inp out : ℕ) (row : Fields)
    → check_observed inp out row ≡ ok tt
    → check_protocol inp out row ≡ ok tt
    → IsObserved row (8 * out)
unfolding check_observed check_protocol
checks-IsObserved inp out row h k =
    passed
      (text_is (get row "usage_source") "observed_oai_sse"
        && text_is (get row "finish_source") "observed_oai_sse")
      _ _ h
      λ a h₁.
        passed (is_eight (λ v. text_is (some v) "length") (get row "finish_reasons")) _ _ h₁ λ b h₂.
          passed (is_eight (is_usage inp out) (get row "observed_usage")) _ _ h₂ λ c h₃.
            passed (int_is (pos inp) (get row "random_input_len")) _ _ k λ d k₁.
              passed (int_is (pos out) (get row "random_output_len")) _ _ k₁ λ e k₂.
                passed (int_is (pos 1) (get row "max_concurrency")) _ _ k₂ λ f k₃.
                  passed (int_is (pos (8 * inp)) (get row "total_input_tokens")) _ _ k₃ λ g k₄.
                    passed (int_is (pos (8 * out)) (get row "total_output_tokens")) _ _ k₄ λ i k₅.
                      let (usage, u, n, every) = eight-usage inp out (get row "observed_usage") c in
                      let (prompts, completions) = token_sum-usage inp out usage every in
                      record {
                        usage = usage;
                        usage_eq = u;
                        requests = n;
                        output_eq =
                            int_is-eq-true (pos (8 * out)) (get row "total_output_tokens") i;
                        output_sum = completions ∙ ap (λ m. some (m * out)) n;
                        input_tokens = 8 * inp;
                        input_eq = int_is-eq-true (pos (8 * inp)) (get row "total_input_tokens") g;
                        input_sum = prompts ∙ ap (λ m. some (m * inp)) n;
                      }

module _ (divide : ℕ → Float → Float) (disagrees : Float → Float → Bool) where
  -- A rate that is returned is the quotient of the completion tokens that were observed on the wire,
  -- summed over the 8 requests, and the duration, and the rate that the row states agrees with it.
  pub upstream_rate-IsObserved :
      (value : Value) (lane : String) (rate : Float)
      → upstream_rate divide disagrees value lane ≡ ok rate
      → (row : Fields) × (value ≡ obj row)
        × ((tokens : ℕ) × IsObserved row tokens
            × ((duration stated : Float) × (require_finite_positive (get row "duration")
                  ≡ ok duration)
                × (rate ≡ divide tokens duration)
                × (require_finite_positive (get row "output_throughput") ≡ ok stated)
                × (disagrees stated rate ≡ false)))
  unfolding upstream_rate
  upstream_rate-IsObserved value lane rate h = bound (lane_lengths lane) _ h λ (inp, out) a h₁.
      bound (as_dict_row value) _ h₁ λ row b h₂. passed (has_all row upstream_keys) _ _ h₂ λ c h₃.
        passed (int_is (pos 8) (get row "completed")) _ _ h₃ λ d h₄.
          bound (check_observed inp out row) _ h₄ λ u e h₅.
            bound (check_protocol inp out row) _ h₅ λ w f h₆.
              bound (eight_items (get row "ttfts")) _ h₆ λ ttfts g h₇.
                bound (check_ttfts ttfts) _ h₇ λ x i h₈.
                  bound (require_finite_positive (get row "duration")) _ h₈ λ duration j h₉.
                    bound (require_finite_positive (get row "output_throughput")) _ h₉
                      λ stated k hₐ.
                        not_refused (disagrees stated (divide (8 * out) duration)) _ _ hₐ λ l hᵦ.
                          let same : divide (8 * out) duration ≡ rate = cc in
                          (
                            row,
                            as_dict_row-eq-ok value row b,
                            (
                              8 * out,
                              checks-IsObserved inp out row e f,
                              (
                                duration,
                                stated,
                                j,
                                sym same,
                                k,
                                subst (λ r. disagrees stated r ≡ false) same l,
                              ),
                            ),
                          )
    where
      as_dict_row-eq-ok : (v : Value) (fs : Fields) → as_dict_row v ≡ ok fs → v ≡ obj fs
      as_dict_row-eq-ok (obj gs) fs q = cc
      as_dict_row-eq-ok _ fs q = cc
