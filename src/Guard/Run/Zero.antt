-- ===== src/Guard/Run/Zero.antt =====
-- What an exit code 0 of `run` of scripts/guard.py stands for.
use qwen38_flash_next_nvidia.Guard.Run.Ended.{Ended, session-Ended, clean_container-Cleaned}
use qwen38_flash_next_nvidia.Guard.Plan.{Args, Planned, Inputs, plan_launch}
use qwen38_flash_next_nvidia.Guard.Run.{
  caught_by_run, close_record, or_cleanup, after_cleanup, clean_container, ran_to, Session,
  ran_into, is_handled, Args, Float, Host, run, owner_of, Left, resolve_cid, launch_session,
  after_checks, docker_argv, after_plan, receipt_again, exit_usage, finish, cleaned, raises,
  check_launch, pending,
}
use mathlib.Core.Path.{subst}
use qwen38_flash_next_nvidia.Prelude.{
  ◌≡◌, refl, sym, ap, ℕ, zero, suc, String, true, Option, none, some, List, [], ◌++◌, ok, err, inl,
  inr, ◌⊎◌, bound, arith, if◌then◌else◌, Bool-cases, ◌∙◌, ℤ, Result,
}
use qwen38_flash_next_nvidia.Json.{Fields, str, Float}
use qwen38_flash_next_nvidia.Guard.{
  GuardError, Round, blocking_error, launch_error, os_error, transport_error, attribute_error,
  type_error, value_error, overflowed, ℤ, Result,
}
use qwen38_flash_next_nvidia.Guard.Inventory.{Guarded, require_hex}
use qwen38_flash_next_nvidia.Guard.Session.{
  Act, Answers, clean_container, Session, accept_created, is_handled, resolve_cid, Left, stays,
  leaves,
}
use qwen38_flash_next_nvidia.Guard.Ownership.{IsStopped}
use qwen38_flash_next_nvidia.Guard.Exit.{CleanExit, watch-CleanExit}
use qwen38_flash_next_nvidia.Profile.CheckLaws.{Among}

or_cleanup-pos : (rc : ℕ) → or_cleanup rc ≡ 0 → ⊥
or_cleanup-pos zero h = absurd (omega (arith, h))
or_cleanup-pos (suc n) h = ground arith

caught_by_run-zero :
    (rc : ℕ) (acts all_acts : List Act) (e : GuardError)
    → caught_by_run rc acts e ≡ ran_to 0 all_acts
    → ⊥
caught_by_run-zero rc acts all_acts blocking_error h = cc
caught_by_run-zero rc acts all_acts launch_error h = or_cleanup-pos rc cc
caught_by_run-zero rc acts all_acts value_error h = or_cleanup-pos rc cc
caught_by_run-zero rc acts all_acts os_error h = or_cleanup-pos rc cc
caught_by_run-zero rc acts all_acts transport_error h = or_cleanup-pos rc cc
caught_by_run-zero rc acts all_acts attribute_error h = cc
caught_by_run-zero rc acts all_acts type_error h = cc
caught_by_run-zero rc acts all_acts overflowed h = cc

close_record-zero :
    (saved : Guarded (Unit {0})) (went_on : Option GuardError) (rc : ℕ) (acts all_acts : List Act)
    → close_record saved went_on rc acts ≡ ran_to 0 all_acts
    → rc ≡ 0
close_record-zero (ok u) none rc acts all_acts h = cc
close_record-zero (ok u) (some e) rc acts all_acts h = cc
close_record-zero (err e) went_on rc acts all_acts h =
    absurd (caught_by_run-zero rc acts all_acts e h)

after_cleanup-zero :
    (saved : Guarded (Unit {0})) (went_on : Option GuardError) (rc : ℕ)
    (acts more all_acts : List Act) (r : Guarded (Unit {0}))
    → after_cleanup saved went_on rc acts (more, r) ≡ ran_to 0 all_acts
    → (rc ≡ 0) × (r ≡ ok tt)
after_cleanup-zero saved went_on rc acts more all_acts (ok u) h =
    (close_record-zero saved went_on rc (acts ++ more) all_acts h, refl)
after_cleanup-zero saved went_on rc acts more all_acts (err e) h =
    elim (Bool-cases (is_handled e)) [
      | inl k ↦ absurd (
          or_cleanup-pos rc (
            close_record-zero saved went_on (or_cleanup rc) (acts ++ more) all_acts (
              subst
                (λ b.
                  (if b
                    then close_record saved went_on (or_cleanup rc) (acts ++ more)
                    else ran_into e (acts ++ more))
                  ≡ ran_to 0 all_acts)
                k h)))
      | inr k ↦ absurd (
          into_zero e (acts ++ more) all_acts (
            subst
              (λ b.
                (if b
                  then close_record saved went_on (or_cleanup rc) (acts ++ more)
                  else ran_into e (acts ++ more))
                ≡ ran_to 0 all_acts)
              k h))
    ]
  where
    into_zero : (e : GuardError) (a b : List Act) → ran_into e a ≡ ran_to 0 b → ⊥
    into_zero e a b h = cc

abbrev ok_text : Option String → Guarded (Option String)
ok_text o = ok o

-- An exit code 0 without `--print`: a watched turn found the container that was created ended with
-- code 0, and the second inspection of the cleanup answered with the document of a stopped container
-- of this launch, which was saved.
pub record EndedWell (args : Args) (planned : Planned) (host : Host) (answers : Answers)
    : Type 0 where
  pub cid : String
  pub created_eq : answers.created ≡ ok cid
  pub round : Round
  pub in_rounds : Among round answers.rounds
  pub clean : CleanExit (owner_of args planned host cid) round
  pub final : Fields
  pub second_eq : answers.stop_second ≡ ok final
  pub saved_eq : answers.final_saved ≡ ok tt
  pub stopped : IsStopped (owner_of args planned host cid) final

module _ (args : Args) (planned : Planned) (host : Host) (answers : Answers) where
  accepted-hex :
      (cid : String) (doc : Fields)
      → accept_created
          (owner_of args planned host)
          args.floor
          planned.max_watch
          (docker_argv args planned host)
          (receipt_again args planned host answers)
          answers
          cid
        ≡ ok doc
      → (id : String) × (require_hex (some (str cid)) 64 ≡ ok id)
  unfolding accept_created
  accepted-hex cid doc h = bound (require_hex (some (str cid)) 64) _ h λ id e k. (id, e)

  cleaned-EndedWell :
      (s : Session) (acts : List Act)
      → (s.rc ≡ 0
          → Ended
              (owner_of args planned host)
              args.floor
              planned.max_watch
              (docker_argv args planned host)
              (receipt_again args planned host answers)
              answers
              s)
      → (r : Guarded (Option String))
      → resolve_cid
          (owner_of args planned host)
          args.floor
          planned.max_watch
          (docker_argv args planned host)
          (receipt_again args planned host answers)
          answers
          s.cid
          s.acts
        ≡ r
      → cleaned args planned host answers s r ≡ ran_to 0 acts
      → EndedWell args planned host answers
  unfolding resolve_cid
  cleaned-EndedWell s acts ended (err e) k h = absurd (caught_by_run-zero s.rc s.acts acts e h)
  cleaned-EndedWell s acts ended (ok o) k h =
      let owner = owner_of args planned host in
      let cleanup =
        clean_container owner args.floor planned.max_watch (docker_argv args planned host)
          (receipt_again args planned host answers) answers o in
      let (zero_rc, well) =
        after_cleanup-zero answers.record_saved (pending s.left) s.rc s.acts cleanup.0 acts
          cleanup.1 h in
      let e = ended zero_rc in
      let same : o ≡ some e.cid = ok-inj o (some e.cid) (
        sym k
        ∙ ap
            (λ c.
              resolve_cid owner args.floor planned.max_watch (docker_argv args planned host)
                (receipt_again args planned host answers) answers c s.acts)
            e.cid_eq) in
      let (id, hex) = accepted-hex e.cid e.doc e.accepted_eq in
      let clean_end =
        clean_container-Cleaned owner args.floor planned.max_watch (docker_argv args planned host)
          (receipt_again args planned host answers) answers e.cid id hex
          (subst
            (λ c.
              (clean_container owner args.floor planned.max_watch (docker_argv args planned host)
                (receipt_again args planned host answers) answers c).1
              ≡ ok tt)
            same well) in
      let (round, among, clean) =
        watch-CleanExit (owner e.cid) args.floor planned.max_watch 0 answers.rounds e.watched_eq in
      record {
        cid = e.cid;
        created_eq = e.created_eq;
        round = round;
        in_rounds = among;
        clean = clean;
        final = clean_end.final;
        second_eq = clean_end.second_eq;
        saved_eq = clean_end.saved_eq;
        stopped = clean_end.stopped;
      }
    where
      ok-inj : (x y : Option String) → ok_text x ≡ ok_text y → x ≡ y
      ok-inj x y h = cc

  finish-EndedWell :
      (s : Session) (left : Left) (acts : List Act)
      → (s.rc ≡ 0
          → Ended
              (owner_of args planned host)
              args.floor
              planned.max_watch
              (docker_argv args planned host)
              (receipt_again args planned host answers)
              answers
              s)
      → finish args planned host answers s left ≡ ran_to 0 acts
      → EndedWell args planned host answers
  finish-EndedWell s stays acts ended h = cc
  finish-EndedWell s leaves acts ended h = cleaned-EndedWell s acts ended _ refl h
  finish-EndedWell s (raises e) acts ended h = cleaned-EndedWell s acts ended _ refl h

  launch_session-Ended :
      (launch_session args planned host answers).rc ≡ 0
      → Ended
          (owner_of args planned host)
          args.floor
          planned.max_watch
          (docker_argv args planned host)
          (receipt_again args planned host answers)
          answers
          (launch_session args planned host answers)
  unfolding launch_session
  launch_session-Ended =
      session-Ended (owner_of args planned host) args.floor planned.max_watch
        (docker_argv args planned host) (receipt_again args planned host answers) answers
        answers.signal_before

  after_checks-EndedWell :
      (r : Result (ℕ × GuardError) (Unit {0})) (acts : List Act)
      → after_checks args planned host answers r ≡ ran_to 0 acts
      → EndedWell args planned host answers
  after_checks-EndedWell (err (rc, e)) acts h = absurd (caught_by_run-zero rc [] acts e h)
  after_checks-EndedWell (ok u) acts h =
      let s = launch_session args planned host answers in
      finish-EndedWell s s.left acts launch_session-Ended h

module _ (shown : ℤ → String) (shown_float : Float → String) (args : Args) (inputs : Inputs)
    (host : Host) (answers : Answers) (acts : List Act) where
  -- `run` returns 0 only for a valid plan, and only with `--print` or after a watched turn found the
  -- container created for this launch ended with code 0 and not for lack of memory, and the second
  -- inspection of the cleanup found it stopped, with a document that was saved.
  pub run-EndedWell :
      run shown shown_float args inputs host answers ≡ ran_to 0 acts
      → (planned : Planned) × (plan_launch shown shown_float args inputs ≡ ok planned)
        × ((args.print_only ≡ true) ⊎ EndedWell args planned host answers)
  unfolding run
  run-EndedWell = by_plan (plan_launch shown shown_float args inputs) refl
    where
      by_plan :
          (r : Guarded Planned)
          → plan_launch shown shown_float args inputs ≡ r
          → after_plan args host answers r ≡ ran_to 0 acts
          → (planned : Planned) × (plan_launch shown shown_float args inputs ≡ ok planned)
            × ((args.print_only ≡ true) ⊎ EndedWell args planned host answers)
      by_plan (err e) p h = absurd (caught_by_run-zero exit_usage [] acts e h)
      by_plan (ok planned) p h = elim (Bool-cases args.print_only) [
        | inl l ↦ (planned, p, inl l)
        | inr l ↦ (
          planned,
          p,
          inr (
              after_checks-EndedWell args planned host answers (check_launch args planned host) acts
                (subst
                  (λ b.
                    (if b
                      then ran_to 0 []
                      else after_checks args planned host answers (check_launch args planned host))
                    ≡ ran_to 0 acts)
                  l h)),
        )
      ]
