-- ===== src/Guard/Run/Cleared.antt =====
-- What `run` of scripts/guard.py has checked when it starts a container.
use qwen38_flash_next_nvidia.Json.Lookup.{text_is-eq-true}
use qwen38_flash_next_nvidia.Json.Lookup.{text_is-eq-true}
use qwen38_flash_next_nvidia.Guard.Receipt.{check_receipt}
use qwen38_flash_next_nvidia.Guard.Plan.{Args, Inputs, Planned, plan_launch}
use qwen38_flash_next_nvidia.Guard.Run.{
  launch_session, at_rc, Float, Args, Host, run, check_launch, owner_of, check_receipt, docker_argv,
  after_checks, receipt_again, is_platform, exit_usage, after_plan, exit_preflight, exit_verify,
  ran_to,
}
use mathlib.Core.Path.{subst}
use qwen38_flash_next_nvidia.Prelude.{
  ◌≡◌, refl, ℕ, String, true, false, some, [], ok, err, inl, inr, bound, Bool, ℤ, require, Result,
  Bool-cases, if◌then◌else◌,
}
use qwen38_flash_next_nvidia.Json.{Fields, get, str, Float, text_is}
use qwen38_flash_next_nvidia.Guard.{GuardError, Bool, ℤ, require, launch_error, Result, text_is}
use qwen38_flash_next_nvidia.Guard.Inventory.{Guarded, require_hex}
use qwen38_flash_next_nvidia.Guard.Session.{start_act, Answers, accept_created, exit_verify}
use qwen38_flash_next_nvidia.Guard.Run.Acts.{
  acts_of, finish-acts, start-before_stop, acts_of-caught_by_run,
}
use qwen38_flash_next_nvidia.Guard.Ownership.{IsOwned, verify_ownership-IsOwned}
use qwen38_flash_next_nvidia.Profile.CheckLaws.{Among}
use qwen38_flash_next_nvidia.Guard.Run.Started.{Started, session-Started}

-- All that `run` checks before it starts a container.
pub record Cleared (shown : ℤ → String) (shown_float : Float → String) (args : Args)
    (inputs : Inputs) (host : Host) (answers : Answers) (cid : String) : Type 0 where
  pub planned : Planned
  pub planned_eq : plan_launch shown shown_float args inputs ≡ ok planned
  pub launched : args.print_only ≡ false
  pub findings : Fields
  pub findings_eq : host.findings ≡ ok findings
  pub passed_preflight : get findings "status" ≡ some (str "PASS")
  pub first_receipt : Fields
  pub first_receipt_eq :
      check_receipt host.view args.receipt_sha256 args.model_root.text host.receipt_file
        planned.sources
      ≡ ok first_receipt
  pub second_receipt : Fields
  pub second_receipt_eq :
      check_receipt host.view_again args.receipt_sha256 args.model_root.text host.receipt_file_again
        planned.sources
      ≡ ok second_receipt
  pub image : Fields
  pub image_eq : host.image_document ≡ ok image
  pub image_platform : is_platform image args.image ≡ true
  pub created_eq : answers.created ≡ ok cid
  pub document : Fields
  pub document_eq : answers.first_inspected ≡ ok document
  pub owned : IsOwned (owner_of args planned host cid) document

at_rc-eq-ok : {A : Type 0} (rc : ℕ) (r : Guarded A) (a : A) → at_rc rc r ≡ ok a → r ≡ ok a
at_rc-eq-ok rc (ok b) a h = cc
at_rc-eq-ok rc (err e) a h = cc

require-true : (b : Bool) → require b launch_error ≡ ok tt → b ≡ true
require-true true h = refl
require-true false h = cc

launch_session-Started :
    (args : Args) (planned : Planned) (host : Host) (answers : Answers) (cid : String)
    → Among (start_act cid) (launch_session args planned host answers).acts
    → Started
        (owner_of args planned host)
        args.floor
        planned.max_watch
        (docker_argv args planned host)
        (receipt_again args planned host answers)
        answers
        cid
unfolding launch_session
launch_session-Started args planned host answers cid h =
    session-Started (owner_of args planned host) args.floor planned.max_watch
      (docker_argv args planned host) (receipt_again args planned host answers) answers cid
      answers.signal_before h

module _ (shown : ℤ → String) (shown_float : Float → String) (args : Args) (inputs : Inputs)
    (host : Host) (answers : Answers) (cid : String) where
  accepted-IsOwned :
      (planned : Planned) (doc : Fields)
      → accept_created
          (owner_of args planned host)
          args.floor
          planned.max_watch
          (docker_argv args planned host)
          (receipt_again args planned host answers)
          answers
          cid
        ≡ ok doc
      → (document : Fields) × (answers.first_inspected ≡ ok document)
        × IsOwned (owner_of args planned host cid) document
  unfolding accept_created
  accepted-IsOwned planned doc h = bound (require_hex (some (str cid)) 64) _ h λ a b h₁.
      bound answers.cid_saved _ h₁ λ c d h₂. bound answers.first_inspected _ h₂ λ document e h₃.
        (document, e, (verify_ownership-IsOwned document doc (owner_of args planned host cid) h₃).0)

  check_launch-Cleared :
      (planned : Planned)
      → plan_launch shown shown_float args inputs ≡ ok planned
      → args.print_only ≡ false
      → check_launch args planned host ≡ ok tt
      → Started
          (owner_of args planned host)
          args.floor
          planned.max_watch
          (docker_argv args planned host)
          (receipt_again args planned host answers)
          answers
          cid
      → Cleared shown shown_float args inputs host answers cid
  unfolding check_launch
  check_launch-Cleared planned p l h started =
      bound (at_rc exit_usage (require host.directories launch_error)) _ h λ a b h₁.
        bound (at_rc exit_usage host.state_made) _ h₁ λ c d h₂.
          bound (at_rc exit_usage host.locked) _ h₂ λ e f h₃.
            bound (at_rc exit_preflight host.findings) _ h₃ λ findings g h₄.
              bound
                (at_rc exit_preflight
                  (require (text_is (get findings "status") "PASS") launch_error))
                _ h₄
                λ i j h₅.
                  bound
                    (at_rc exit_verify (
                      check_receipt host.view args.receipt_sha256 args.model_root.text
                        host.receipt_file planned.sources))
                    _ h₅
                    λ receipt k h₆. bound (at_rc exit_verify host.image_document) _ h₆ λ image m h₇.
                      bound
                        (at_rc exit_verify (require (is_platform image args.image) launch_error)) _
                        h₇
                        λ n o h₈.
                          let (document, q, r) =
                            accepted-IsOwned planned started.doc started.accepted_eq in
                          record {
                            planned = planned;
                            planned_eq = p;
                            launched = l;
                            findings = findings;
                            findings_eq = at_rc-eq-ok exit_preflight host.findings findings g;
                            passed_preflight =
                                text_is-eq-true (get findings "status") "PASS"
                                  (require-true _ (at_rc-eq-ok exit_preflight _ i j));
                            first_receipt = receipt;
                            first_receipt_eq = at_rc-eq-ok exit_verify _ receipt k;
                            second_receipt = started.receipt;
                            second_receipt_eq = started.receipt_eq;
                            image = image;
                            image_eq = at_rc-eq-ok exit_verify host.image_document image m;
                            image_platform = require-true _ (at_rc-eq-ok exit_verify _ n o);
                            created_eq = started.created_eq;
                            document = document;
                            document_eq = q;
                            owned = r;
                          }

  -- `run` starts only a container that it created and that carries this launch's labels, for a valid
  -- plan, after the host passed the preflight, the image is the one named, and the receipt covered
  -- the model's files twice, before the creation and before the start.
  pub run-Cleared :
      Among (start_act cid) (acts_of (run shown shown_float args inputs host answers))
      → Cleared shown shown_float args inputs host answers cid
  unfolding run
  run-Cleared = by_plan (plan_launch shown shown_float args inputs) refl
    where
      by_checks :
          (planned : Planned) (r : Result (ℕ × GuardError) (Unit {0}))
          → check_launch args planned host ≡ r
          → plan_launch shown shown_float args inputs ≡ ok planned
          → args.print_only ≡ false
          → Among (start_act cid) (acts_of (after_checks args planned host answers r))
          → Cleared shown shown_float args inputs host answers cid
      by_checks planned (err (rc, e)) c p l h =
          absurd (subst (λ acts. Among (start_act cid) acts) (acts_of-caught_by_run rc [] e) h)
      by_checks planned (ok u) c p l h =
          let s = launch_session args planned host answers in
          let (calls, e) = finish-acts args planned host answers s s.left in
          check_launch-Cleared planned p l c (
            launch_session-Started args planned host answers cid
              (start-before_stop cid s.acts calls (subst (λ acts. Among (start_act cid) acts) e h)))

      by_plan :
          (r : Guarded Planned)
          → plan_launch shown shown_float args inputs ≡ r
          → Among (start_act cid) (acts_of (after_plan args host answers r))
          → Cleared shown shown_float args inputs host answers cid
      by_plan (err e) p h =
          absurd
            (subst (λ acts. Among (start_act cid) acts) (acts_of-caught_by_run exit_usage [] e) h)
      by_plan (ok planned) p h = elim (Bool-cases args.print_only) [
        | inl l ↦ absurd (
            subst
              (λ b. Among (start_act cid) (
                acts_of (
                  if b
                  then ran_to 0 []
                  else after_checks args planned host answers (check_launch args planned host))))
              l h)
        | inr l ↦ by_checks planned (check_launch args planned host) refl p l (
            subst
              (λ b. Among (start_act cid) (
                acts_of (
                  if b
                  then ran_to 0 []
                  else after_checks args planned host answers (check_launch args planned host))))
              l h)
      ]
