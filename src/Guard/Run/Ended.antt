-- ===== src/Guard/Run/Ended.antt =====
-- A session of `run` of scripts/guard.py that leaves the exit code 0, and the cleanup that follows it.
use qwen38_flash_next_nvidia.Guard.Run.{session, clean_container, Session}
use mathlib.Core.Path.{subst}
use qwen38_flash_next_nvidia.Prelude.{
  ◌≡◌, refl, ap, ℕ, String, true, false, Option, none, some, List, [], ok, err, inl, inr, passed,
  arith, if◌then◌else◌, is_hex, ◌=ₛ◌, Bool-cases, ◌∙◌, =ₛ_iff,
}
use qwen38_flash_next_nvidia.Json.{Fields, str, hex_at, Value}
use qwen38_flash_next_nvidia.Guard.{
  Owner, Call, stop_owned, watch, Watched, returned, raised, watching, Value,
}
use qwen38_flash_next_nvidia.Guard.Inventory.{Guarded, require_hex}
use qwen38_flash_next_nvidia.Guard.Session.{
  Answers, session, clean_container, Session, after_stop, stop_valid, after_created, accept_created,
  after_receipt, after_telemetry, watched, after_start, after_accepted, unless_interrupted,
}
use qwen38_flash_next_nvidia.Guard.Ownership.{IsStopped, stop_owned-IsStopped, stop_owned-second}

-- A full ID is not the empty text.
pub hex-not_empty : (cid : String) → hex_at 64 (some (str cid)) ≡ true → (cid =ₛ "") ≡ false
unfolding hex_at is_hex
hex-not_empty cid h = elim (Bool-cases (cid =ₛ "")) [
  | inl e ↦
      absurd (empty_hex (subst (λ c. hex_at 64 (some (str c)) ≡ true) ((=ₛ_iff cid "").0 e) h))
  | inr e ↦ e
]
  where
    empty_hex : hex_at 64 (some (str "")) ≡ true → ⊥
    empty_hex h = cc

require_hex-true :
    (o : Option Value) (n : ℕ) (id : String) → require_hex o n ≡ ok id → hex_at n o ≡ true
unfolding require_hex
require_hex-true o n id h = passed (hex_at n o) _ _ h λ a k. a

module _ (owner : String → Owner) (floor max_watch : ℕ) (argv : List String)
    (receipt_again : Guarded Fields) (answers : Answers) where
  -- A session with exit code 0: the container of the given ID was accepted, and it was watched to
  -- its end.
  pub record Ended (s : Session) : Type 0 where
    pub cid : String
    pub cid_eq : s.cid ≡ some cid
    pub created_eq : answers.created ≡ ok cid
    pub doc : Fields
    pub accepted_eq : accept_created owner floor max_watch argv receipt_again answers cid ≡ ok doc
    pub watched_eq : watch (owner cid) floor max_watch 0 answers.rounds ≡ returned 0

  watched-Ended :
      (cid : String) (made : answers.created ≡ ok cid) (doc : Fields) (w : Watched)
      → accept_created owner floor max_watch argv receipt_again answers cid ≡ ok doc
      → watch (owner cid) floor max_watch 0 answers.rounds ≡ w
      → (watched owner floor max_watch argv receipt_again answers cid w).rc ≡ 0
      → Ended (watched owner floor max_watch argv receipt_again answers cid w)
  watched-Ended cid made doc (returned rc) a w h = record {
    cid = cid;
    cid_eq = refl;
    created_eq = made;
    doc = doc;
    accepted_eq = a;
    watched_eq = w ∙ ap returned h;
  }
  watched-Ended cid made doc (raised e) a w h = absurd (omega (arith, h))
  watched-Ended cid made doc (watching low) a w h = absurd (omega (arith, h))

  after_telemetry-Ended :
      (cid : String) (made : answers.created ≡ ok cid) (doc : Fields) (r : Guarded (Unit {0}))
      → accept_created owner floor max_watch argv receipt_again answers cid ≡ ok doc
      → (after_telemetry owner floor max_watch argv receipt_again answers cid r).rc ≡ 0
      → Ended (after_telemetry owner floor max_watch argv receipt_again answers cid r)
  after_telemetry-Ended cid made doc (err e) a h = absurd (omega (arith, h))
  after_telemetry-Ended cid made doc (ok u) a h =
      watched-Ended cid made doc (watch (owner cid) floor max_watch 0 answers.rounds) a refl h

  after_start-Ended :
      (cid : String) (made : answers.created ≡ ok cid) (doc : Fields) (r : Guarded (Unit {0}))
      → accept_created owner floor max_watch argv receipt_again answers cid ≡ ok doc
      → (after_start owner floor max_watch argv receipt_again answers cid r).rc ≡ 0
      → Ended (after_start owner floor max_watch argv receipt_again answers cid r)
  after_start-Ended cid made doc (err e) a h = absurd (omega (arith, h))
  after_start-Ended cid made doc (ok u) a h =
      after_telemetry-Ended cid made doc answers.telemetry_opened a h

  after_receipt-Ended :
      (cid : String) (made : answers.created ≡ ok cid) (doc : Fields) (r : Guarded Fields)
      → accept_created owner floor max_watch argv receipt_again answers cid ≡ ok doc
      → (after_receipt owner floor max_watch argv receipt_again answers cid r).rc ≡ 0
      → Ended (after_receipt owner floor max_watch argv receipt_again answers cid r)
  after_receipt-Ended cid made doc (err e) a h = absurd (omega (arith, h))
  after_receipt-Ended cid made doc (ok u) a h = after_start-Ended cid made doc answers.started a h

  unless_interrupted-Ended :
      (cid : String) (made : answers.created ≡ ok cid) (doc : Fields) (signal : Option ℕ)
      → accept_created owner floor max_watch argv receipt_again answers cid ≡ ok doc
      → (unless_interrupted owner floor max_watch argv receipt_again answers cid signal).rc ≡ 0
      → Ended (unless_interrupted owner floor max_watch argv receipt_again answers cid signal)
  unless_interrupted-Ended cid made doc (some number) a h = absurd (omega (arith, h))
  unless_interrupted-Ended cid made doc none a h =
      after_receipt-Ended cid made doc receipt_again a h

  after_accepted-Ended :
      (cid : String) (made : answers.created ≡ ok cid) (r : Guarded Fields)
      → accept_created owner floor max_watch argv receipt_again answers cid ≡ r
      → (after_accepted owner floor max_watch argv receipt_again answers cid r).rc ≡ 0
      → Ended (after_accepted owner floor max_watch argv receipt_again answers cid r)
  after_accepted-Ended cid made (err e) a h = absurd (omega (arith, h))
  after_accepted-Ended cid made (ok doc) a h =
      unless_interrupted-Ended cid made doc answers.signal_after a h

  after_created-Ended :
      (r : Guarded String)
      → answers.created ≡ r
      → (after_created owner floor max_watch argv receipt_again answers r).rc ≡ 0
      → Ended (after_created owner floor max_watch argv receipt_again answers r)
  after_created-Ended (err e) m h = absurd (omega (arith, h))
  after_created-Ended (ok cid) m h =
      after_accepted-Ended cid m
        (accept_created owner floor max_watch argv receipt_again answers cid) refl h

  pub session-Ended :
      (signal : Option ℕ)
      → (session owner floor max_watch argv receipt_again answers signal).rc ≡ 0
      → Ended (session owner floor max_watch argv receipt_again answers signal)
  unfolding session
  session-Ended (some number) h = absurd (omega (arith, h))
  session-Ended none h = after_created-Ended answers.created refl h

  -- A cleanup that went well: the document of the second inspection, which shows the container
  -- stopped, was written.
  pub record CleanEnd (cid : String) : Type 0 where
    pub final : Fields
    pub second_eq : answers.stop_second ≡ ok final
    pub saved_eq : answers.final_saved ≡ ok tt
    pub stopped : IsStopped (owner cid) final

  after_stop-Cleaned :
      (cid : String) (calls : List Call) (r : Guarded Fields)
      → (stop_owned (owner cid) answers.stop_first answers.stopped answers.stop_second).1 ≡ r
      → (after_stop owner floor max_watch argv receipt_again answers (calls, r)).1 ≡ ok tt
      → CleanEnd cid
  after_stop-Cleaned cid calls (err e) s h = cc
  after_stop-Cleaned cid calls (ok final) s h = record {
    final = final;
    second_eq =
        stop_owned-second (owner cid) answers.stop_first answers.stopped answers.stop_second final
          s;
    saved_eq = h;
    stopped =
        stop_owned-IsStopped (owner cid) answers.stop_first answers.stopped answers.stop_second
          final s;
  }

  stop_valid-Cleaned :
      (cid : String) (r : Guarded String)
      → (stop_valid owner floor max_watch argv receipt_again answers cid r).1 ≡ ok tt
      → CleanEnd cid
  stop_valid-Cleaned cid (err e) h = cc
  stop_valid-Cleaned cid (ok id) h =
      let stopped = stop_owned (owner cid) answers.stop_first answers.stopped answers.stop_second in
      after_stop-Cleaned cid stopped.0 stopped.1 refl h

  pub clean_container-Cleaned :
      (cid id : String)
      → require_hex (some (str cid)) 64 ≡ ok id
      → (clean_container owner floor max_watch argv receipt_again answers (some cid)).1 ≡ ok tt
      → CleanEnd cid
  unfolding clean_container
  clean_container-Cleaned cid id v h = stop_valid-Cleaned cid (require_hex (some (str cid)) 64) (
      subst
        (λ b.
          (if b
            then ([], ok tt)
            else stop_valid owner floor max_watch argv receipt_again answers cid
                (require_hex (some (str cid)) 64)).1
          ≡ ok tt)
        (hex-not_empty cid (require_hex-true (some (str cid)) 64 id v)) h)
