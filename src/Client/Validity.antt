-- ===== src/Client/Validity.antt =====
-- row_validity of scripts/http_client.py: which measured rows count. `str.strip` is a parameter.
use qwen38_flash_next_nvidia.Prelude.{
  ℕ, ◌≤◌, String, ◌≡◌, ◌≢◌, ◌↔◌, inl, inr, refl, Bool, true, false, Option, none, some, [], ◌∷◌,
  Result, ok, err, ◌>>◌, arith, ltb, length, ◌=ₛ◌, =ₛ_iff, require, refuse, Option-cases, bound,
  passed, not_refused, if◌then◌else◌,
}
use qwen38_flash_next_nvidia.Sse.{Text}
use qwen38_flash_next_nvidia.Client.{StreamResult, Failure}

-- The second component of the answer. Each error of a StreamResult begins with one of the error
-- class prefixes, so that it is returned as it is.
pub data RowReason : Type 0 where
  row_error : Failure → RowReason
  finish : Option String → RowReason
  row_missing_usage empty_final_content content_too_short : RowReason

abbrev is_none : {A : Type 0} → Option A → Bool
is_none none = true
is_none (some a) = false

abbrev pub no_error : Option Failure → Result RowReason (Unit {0})
no_error none = ok tt
no_error (some e) = err (row_error e)

-- `result.finish_reason != require_finish`, unless the latter is None
abbrev pub finish_matches : Option String → Option String → Bool
finish_matches none actual = true
finish_matches (some wanted) none = false
finish_matches (some wanted) (some actual) = actual =ₛ wanted

abbrev is_empty : Text → Bool
is_empty [] = true
is_empty (c ∷ s) = false

module _ (strip : Text → Text) (require_finish : Option String) (require_content : Bool)
    (min_content_chars : ℕ) where
  abbrev pub check_content : Text → Result RowReason (Unit {0})
  check_content final = do
    refuse (is_empty final) empty_final_content
    refuse (ltb (length final) min_content_chars) content_too_short

  -- `row_validity`
  unfoldable pub row_validity : StreamResult → Result RowReason (Unit {0})
  row_validity result = do
    no_error result.error
    require (finish_matches require_finish result.finish_reason) (finish result.finish_reason)
    refuse (is_none result.usage) row_missing_usage
    if require_content then check_content (strip result.content) else ok tt

  abbrev pub HasFinish : Option String → Option String → Type 0
  HasFinish none actual = Unit
  HasFinish (some wanted) actual = actual ≡ some wanted

  abbrev pub HasContent : Bool → Text → Type 0
  HasContent false final = Unit
  HasContent true final = (final ≢ []) × (min_content_chars ≤ length final)

  -- The conditions on a row that counts.
  pub record IsValid (result : StreamResult) : Type 0 where
    pub clean : result.error ≡ none
    pub finished : HasFinish require_finish result.finish_reason
    pub measured : result.usage ≢ none
    pub answered : HasContent require_content (strip result.content)

  finish_matches_iff :
      (wanted actual : Option String)
      → (finish_matches wanted actual ≡ true) ↔ HasFinish wanted actual
  finish_matches_iff none actual = (λ h. tt, λ h. refl)
  finish_matches_iff (some wanted) none = (λ h. cc, λ h. cc)
  finish_matches_iff (some wanted) (some actual) =
      (λ h. ground (arith, =ₛ_iff actual wanted), λ h. ground (arith, =ₛ_iff actual wanted))

  content_iff :
      (required : Bool) (final : Text)
      → ((if required then check_content final else ok tt) ≡ ok tt) ↔ HasContent required final
  content_iff false final = (λ h. tt, λ h. refl)
  content_iff true [] = (λ h. cc, λ h. absurd (h.0 refl))
  content_iff true (c ∷ final) = (λ h. (λ e. cc, ground arith), λ h. ground arith)

  no_error-eq-ok : (e : Option Failure) → no_error e ≡ ok tt → e ≡ none
  no_error-eq-ok none h = refl
  no_error-eq-ok (some e) h = cc

  row_validity_sound : (result : StreamResult) → row_validity result ≡ ok tt → IsValid result
  unfolding row_validity
  row_validity_sound result h = bound (no_error result.error) _ h λ _ a h₁.
      passed (finish_matches require_finish result.finish_reason) _ _ h₁ λ b h₂.
        not_refused (is_none result.usage) _ _ h₂ λ c h₃. record {
          clean = no_error-eq-ok result.error a;
          finished = (finish_matches_iff require_finish result.finish_reason).0 b;
          measured = is_none-eq-false result.usage c;
          answered = (content_iff require_content (strip result.content)).0 h₃;
        }
    where
      is_none-eq-false : {A : Type 0} (o : Option A) → is_none o ≡ false → o ≢ none
      is_none-eq-false none h e = cc
      is_none-eq-false (some a) h e = cc

  row_validity_complete : (result : StreamResult) → IsValid result → row_validity result ≡ ok tt
  unfolding row_validity
  row_validity_complete result v = elim (Option-cases result.usage) [
    | inl e ↦ absurd (v.measured e)
    | inr (u, e) ↦ rw (
      v.clean,
      (finish_matches_iff require_finish result.finish_reason).1 v.finished,
      e,
      (content_iff require_content (strip result.content)).1 v.answered,
    )
  ]

  -- A row counts exactly if the stream had no error, its finish reason is the one required, it has
  -- a usage object, and, where content is required, the stripped content is not empty and has at
  -- least the letters asked for.
  pub row_validity_iff : (result : StreamResult) → (row_validity result ≡ ok tt) ↔ IsValid result
  row_validity_iff result = (row_validity_sound result, row_validity_complete result)
