-- ===== src/Guard/Exit.antt =====
-- When the watchdog loop of scripts/guard.py reports success.
use qwen38_flash_next_nvidia.Prelude.{
  ℕ, zero, suc, ◌≡◌, inl, inr, refl, Bool, true, false, Option, some, List, [], ◌∷◌, ℤ, pos, Result,
  ok, err, arith, leb, sym, Bool-cases, Option-cases, bound,
}
use qwen38_flash_next_nvidia.Json.{Value, int, Fields, get}
use qwen38_flash_next_nvidia.Profile.CheckLaws.{Among}
use qwen38_flash_next_nvidia.Guard.{
  GuardError, Owner, Round, Watched, returned, raised, watching, exited, is_false, is_true,
  is_truthy, sampled, take_sample, unless_signal, on_state, on_owned, owned_state, verify_ownership,
  as_dict_or_empty, turn, unless_over, watch, after_log,
}
use qwen38_flash_next_nvidia.Guard.Ownership.{IsOwned, verify_ownership-IsOwned}

-- A container of this launch that has ended with exit code 0 and not for lack of memory.
pub record CleanExit (expected : Owner) (round : Round) : Type 0 where
  pub doc : Fields
  pub state : Fields
  pub inspected_at : round.inspected ≡ ok doc
  pub owned : IsOwned expected doc
  pub state_at : as_dict_or_empty (get doc "State") ≡ ok state
  pub not_running : is_false (get state "Running") ≡ true
  pub code_at : get state "ExitCode" ≡ some (int (pos 0))
  pub not_killed : is_truthy (get state "OOMKilled") ≡ false

exited-eq-zero :
    (code : Option Value) (oom_killed : Bool)
    → exited code oom_killed ≡ returned 0
    → (code ≡ some (int (pos 0))) × (oom_killed ≡ false)
exited-eq-zero (some (int (pos zero))) false h = (refl, refl)
exited-eq-zero (some (int (pos zero))) true h = cc
exited-eq-zero (some (int (pos (suc n)))) oom_killed h = elim (Bool-cases (leb (suc n) 255)) [
  | inl e ↦ ground arith
  | inr e ↦ ground arith
]
exited-eq-zero _ oom_killed h = cc

module _ (expected : Owner) (floor max_watch : ℕ) where
  sampled-zero :
      (low n elapsed : ℕ) → sampled expected floor max_watch low n elapsed ≡ returned 0 → ⊥
  unfolding sampled
  sampled-zero low n elapsed h = ground arith

  take_sample-zero :
      (low : ℕ) (available : Option ℤ) (elapsed : ℕ)
      → take_sample expected floor max_watch low available elapsed ≡ returned 0
      → ⊥
  take_sample-zero low (some (pos n)) elapsed h = sampled-zero low n elapsed h
  take_sample-zero low _ elapsed h = cc

  after_log-zero :
      (low : ℕ) (round : Round) (r : Result GuardError (Unit {0}))
      → after_log expected floor max_watch low round r ≡ returned 0
      → ⊥
  after_log-zero low round (err e) h = cc
  after_log-zero low round (ok u) h = take_sample-zero low round.available round.elapsed h

  unless_signal-zero :
      (low : ℕ) (round : Round) → unless_signal expected floor max_watch low round ≡ returned 0 → ⊥
  unless_signal-zero low round h = elim (Option-cases round.signal) [
    | inl e ↦ after_log-zero low round round.logged (rw e at h)
    | inr (number, e) ↦ ground arith
  ]

  on_state-zero :
      (low : ℕ) (round : Round) (state : Fields)
      → on_state expected floor max_watch low round state ≡ returned 0
      → (is_false (get state "Running") ≡ true)
        × (exited (get state "ExitCode") (is_truthy (get state "OOMKilled")) ≡ returned 0)
  on_state-zero low round state h = elim (Bool-cases (is_false (get state "Running"))) [
    | inl e ↦ (e, rw e at h)
    | inr e ↦ elim (Bool-cases (is_true (get state "Running"))) [
      | inl f ↦ absurd (unless_signal-zero low round (rw (e, f) at h))
      | inr f ↦ absurd (raised-zero (rw (e, f) at h))
    ]
  ]
    where
      raised-zero : {x : GuardError} → raised x ≡ returned 0 → ⊥
      raised-zero h = cc

  owned_state-IsOwned :
      (inspected : Result GuardError Fields) (state : Fields)
      → owned_state expected floor max_watch inspected ≡ ok state
      → (doc : Fields) × (inspected ≡ ok doc)
        × IsOwned expected doc
        × (as_dict_or_empty (get doc "State") ≡ ok state)
  unfolding owned_state
  owned_state-IsOwned inspected state h = bound inspected _ h λ doc a h₁.
      bound (verify_ownership doc expected) _ h₁ λ same b h₂.
        let (owned, e) = verify_ownership-IsOwned doc same expected b in
        (doc, a, owned, rw (sym e) at h₂)

  turn-CleanExit :
      (low : ℕ) (round : Round)
      → turn expected floor max_watch low round ≡ returned 0
      → CleanExit expected round
  unfolding turn
  turn-CleanExit low round = by_state (owned_state expected floor max_watch round.inspected) refl
    where
      by_state :
          (r : Result GuardError Fields)
          → owned_state expected floor max_watch round.inspected ≡ r
          → on_owned expected floor max_watch low round r ≡ returned 0
          → CleanExit expected round
      by_state (err x) e k = cc
      by_state (ok state) e k =
          let (doc, a, owned, at) = owned_state-IsOwned round.inspected state e in
          let (ended, code) = on_state-zero low round state k in
          let (zero_code, alive) = exited-eq-zero _ _ code in
          record {
            doc = doc;
            state = state;
            inspected_at = a;
            owned = owned;
            state_at = at;
            not_running = ended;
            code_at = zero_code;
            not_killed = alive;
          }

  -- The loop returns 0 only if, at some turn, the container of this launch had ended with exit code
  -- 0 and not for lack of memory.
  pub watch-CleanExit :
      (low : ℕ) (rounds : List Round)
      → watch expected floor max_watch low rounds ≡ returned 0
      → (round : Round) × Among round rounds × CleanExit expected round
  unfolding watch
  watch-CleanExit low [] h = cc
  watch-CleanExit low (round ∷ rounds) h =
      by_turn (turn expected floor max_watch low round) refl h (λ l. watch-CleanExit l rounds)
    where
      by_turn :
          (w : Watched)
          → turn expected floor max_watch low round ≡ w
          → unless_over expected floor max_watch w (λ l. watch expected floor max_watch l rounds)
            ≡ returned 0
          → ((l : ℕ)
              → watch expected floor max_watch l rounds ≡ returned 0
              → (r : Round) × Among r rounds × CleanExit expected r)
          → (r : Round) × Among r (round ∷ rounds) × CleanExit expected r
      by_turn (returned zero) e k rest = (round, inl refl, turn-CleanExit low round e)
      by_turn (returned (suc rc)) e k rest = cc
      by_turn (raised x) e k rest = cc
      by_turn (watching l) e k rest = let (r, a, c) = rest l k in (r, inr a, c)
