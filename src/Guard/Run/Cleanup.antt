-- ===== src/Guard/Run/Cleanup.antt =====
-- The cleanup of `run` of scripts/guard.py, when the creation gave a full container ID.
use qwen38_flash_next_nvidia.Guard.Run.{
  Host, resolve_cid, launch_session, finish, cleaned, run, owner_of, still_running, docker_argv,
  check_launch, receipt_again, pending,
}
use qwen38_flash_next_nvidia.Guard.Run.Ended.{hex-not_empty}
use qwen38_flash_next_nvidia.Guard.Plan.{Args, Planned, Inputs, plan_launch}
use mathlib.Core.Path.{subst}
use qwen38_flash_next_nvidia.Prelude.{
  ◌≡◌, refl, sym, ℕ, String, true, false, Option, none, some, List, [], ◌∷◌, ◌++◌, map, ok, err,
  inl, inr, ◌⊎◌, ◌=ₛ◌, ℤ, Result, Bool,
}
use qwen38_flash_next_nvidia.Json.{Fields, str, hex_at, Float}
use qwen38_flash_next_nvidia.Guard.{
  GuardError, Owner, Call, inspect_call, stop_owned, stop_after, owned_running, watch, ℤ, Result,
  Bool, Watched, returned, raised, watching,
}
use qwen38_flash_next_nvidia.Guard.Inventory.{Guarded, require_hex}
use qwen38_flash_next_nvidia.Guard.Session.{
  Act, stop_act, Session, Left, leaves, stays, raises, Answers, unless_interrupted, after_accepted,
  after_receipt, clean_container, after_telemetry, after_start, after_stop, session, watched,
  accept_created, resolve_cid,
}
use qwen38_flash_next_nvidia.Guard.Run.Acts.{acts_of, acts_of-after_cleanup}
use qwen38_flash_next_nvidia.Profile.CheckLaws.{Among}

among-right : {A : Type 0} (a : A) (xs ys : List A) → Among a ys → Among a (xs ++ ys)
among-right a [] ys h = h
among-right a (x ∷ xs) ys h = inr (among-right a xs ys h)

stop_after-inspects :
    (expected : Owner) (r : Result GuardError Bool) (stopped : Result GuardError (Unit {0}))
    (second : Result GuardError Fields)
    → Among
        (stop_act (inspect_call expected.cid))
        (map stop_act (stop_after expected r stopped second).0)
stop_after-inspects expected (err e) stopped second = inl refl
stop_after-inspects expected (ok false) stopped second = inl refl
stop_after-inspects expected (ok true) (err e) second = inl refl
stop_after-inspects expected (ok true) (ok u) second = inl refl

-- The command that begins the stop of a container.
abbrev pub Cleaned : String → List Act → Type 0
Cleaned cid acts = Among (stop_act (inspect_call cid)) acts

module _ (owner : String → Owner) (floor max_watch : ℕ) (argv : List String)
    (receipt_again : Guarded Fields) (answers : Answers) (cid : String) where
  after_stop-Cleaned :
      (calls : List Call) (r : Guarded Fields)
      → Cleaned cid (map stop_act calls)
      → Cleaned cid (after_stop owner floor max_watch argv receipt_again answers (calls, r)).0
  after_stop-Cleaned calls (err e) h = h
  after_stop-Cleaned calls (ok final) h = h

  clean_container-Cleaned :
      ((owner cid).cid ≡ cid)
      → hex_at 64 (some (str cid)) ≡ true
      → Cleaned cid (clean_container owner floor max_watch argv receipt_again answers (some cid)).0
  unfolding clean_container require_hex stop_owned
  clean_container-Cleaned same hex =
      let stopped = stop_owned (owner cid) answers.stop_first answers.stopped answers.stop_second in
      let calls : Cleaned cid (map stop_act stopped.0) =
        subst (λ c. Among (stop_act (inspect_call c)) (map stop_act stopped.0)) same
          (stop_after-inspects (owner cid) (owned_running (owner cid) answers.stop_first)
            answers.stopped answers.stop_second) in
      rw (not_empty, hex) (after_stop-Cleaned stopped.0 stopped.1 calls)
    where
      not_empty : (cid =ₛ "") ≡ false
      not_empty = hex-not_empty cid hex

  watched-cid :
      (w : Watched)
      → (watched owner floor max_watch argv receipt_again answers cid w).cid ≡ some cid
  watched-cid (returned rc) = refl
  watched-cid (raised e) = refl
  watched-cid (watching low) = refl

  after_telemetry-cid :
      (r : Guarded (Unit {0}))
      → (after_telemetry owner floor max_watch argv receipt_again answers cid r).cid ≡ some cid
  after_telemetry-cid (err e) = refl
  after_telemetry-cid (ok u) = watched-cid (watch (owner cid) floor max_watch 0 answers.rounds)

  after_start-cid :
      (r : Guarded (Unit {0}))
      → (after_start owner floor max_watch argv receipt_again answers cid r).cid ≡ some cid
  after_start-cid (err e) = refl
  after_start-cid (ok u) = after_telemetry-cid answers.telemetry_opened

  after_receipt-cid :
      (r : Guarded Fields)
      → (after_receipt owner floor max_watch argv receipt_again answers cid r).cid ≡ some cid
  after_receipt-cid (err e) = refl
  after_receipt-cid (ok receipt) = after_start-cid answers.started

  unless_interrupted-cid :
      (s : Option ℕ)
      → (unless_interrupted owner floor max_watch argv receipt_again answers cid s).cid ≡ some cid
  unless_interrupted-cid (some number) = refl
  unless_interrupted-cid none = after_receipt-cid receipt_again

  after_accepted-cid :
      (r : Guarded Fields)
      → (after_accepted owner floor max_watch argv receipt_again answers cid r).cid ≡ some cid
  after_accepted-cid (err e) = refl
  after_accepted-cid (ok doc) = unless_interrupted-cid answers.signal_after

  pub session-cid :
      answers.created ≡ ok cid
      → answers.signal_before ≡ none
      → (session owner floor max_watch argv receipt_again answers answers.signal_before).cid
        ≡ some cid
  unfolding session
  session-cid created free =
      rw (free, created)
        (after_accepted-cid (accept_created owner floor max_watch argv receipt_again answers cid))

module _ (args : Args) (planned : Planned) (host : Host) (answers : Answers) (cid : String)
    (hex : hex_at 64 (some (str cid)) ≡ true) where
  cleaned-Cleaned :
      (s : Session) (o : Option String)
      → o ≡ some cid
      → Cleaned cid (acts_of (cleaned args planned host answers s (ok o)))
  cleaned-Cleaned s o e =
      let cleanup =
        clean_container (owner_of args planned host) args.floor planned.max_watch
          (docker_argv args planned host) (receipt_again args planned host answers) answers o in
      subst (λ acts. Cleaned cid acts)
        (sym (
          acts_of-after_cleanup answers.record_saved (pending s.left) s.rc s.acts cleanup.0
            cleanup.1))
        (among-right (stop_act (inspect_call cid)) s.acts cleanup.0 (
          subst
            (λ c.
              Cleaned cid
                (clean_container (owner_of args planned host) args.floor planned.max_watch
                  (docker_argv args planned host) (receipt_again args planned host answers) answers
                  c).0)
            (sym e)
            (clean_container-Cleaned (owner_of args planned host) args.floor planned.max_watch
              (docker_argv args planned host) (receipt_again args planned host answers) answers cid
              refl hex)))

  resolved-Cleaned :
      (s : Session)
      → s.cid ≡ some cid
      → Cleaned cid (
          acts_of (
            cleaned args planned host answers s (
              resolve_cid
                (owner_of args planned host)
                args.floor
                planned.max_watch
                (docker_argv args planned host)
                (receipt_again args planned host answers)
                answers
                s.cid
                s.acts)))
  unfolding resolve_cid
  resolved-Cleaned s e =
      subst
        (λ c. Cleaned cid (
          acts_of (
            cleaned args planned host answers s (
              resolve_cid (owner_of args planned host) args.floor planned.max_watch
                (docker_argv args planned host) (receipt_again args planned host answers) answers c
                s.acts))))
        (sym e) (cleaned-Cleaned s (some cid) refl)

  finish-Cleaned :
      (s : Session) (left : Left)
      → s.cid ≡ some cid
      → (finish args planned host answers s left ≡ still_running s.acts)
        ⊎ Cleaned cid (acts_of (finish args planned host answers s left))
  finish-Cleaned s stays e = inl refl
  finish-Cleaned s leaves e = inr (resolved-Cleaned s e)
  finish-Cleaned s (raises x) e = inr (resolved-Cleaned s e)

  launch_session-cid :
      answers.created ≡ ok cid
      → answers.signal_before ≡ none
      → (launch_session args planned host answers).cid ≡ some cid
  unfolding launch_session
  launch_session-cid =
      session-cid (owner_of args planned host) args.floor planned.max_watch
        (docker_argv args planned host) (receipt_again args planned host answers) answers cid

module _ (shown : ℤ → String) (shown_float : Float → String) (args : Args) (inputs : Inputs)
    (host : Host) (answers : Answers) (cid : String) (planned : Planned) where
  -- For a valid plan without `--print`, past the checks and not interrupted before the creation: a
  -- container that the engine created and named by a full ID is cleaned up however the session ends.
  -- `stop_owned` is called with its ID, unless the watch is still going on.
  pub run-Cleaned :
      plan_launch shown shown_float args inputs ≡ ok planned
      → args.print_only ≡ false
      → check_launch args planned host ≡ ok tt
      → answers.signal_before ≡ none
      → answers.created ≡ ok cid
      → hex_at 64 (some (str cid)) ≡ true
      → ((acts : List Act) × (run shown shown_float args inputs host answers ≡ still_running acts))
        ⊎ Cleaned cid (acts_of (run shown shown_float args inputs host answers))
  unfolding run
  run-Cleaned p l c free created hex =
      let s = launch_session args planned host answers in
      rw (p, l, c)
        (weaker (
          finish-Cleaned args planned host answers cid hex s s.left
            (launch_session-cid args planned host answers cid hex created free)))
    where
      weaker :
          (finish args planned host answers
                (launch_session args planned host answers)
                (launch_session args planned host answers).left
              ≡ still_running (launch_session args planned host answers).acts)
            ⊎ Cleaned cid (
                acts_of (
                  finish args planned host answers
                    (launch_session args planned host answers)
                    (launch_session args planned host answers).left))
          → ((acts : List Act) × (finish args planned host answers
                  (launch_session args planned host answers)
                  (launch_session args planned host answers).left
                ≡ still_running acts))
            ⊎ Cleaned cid (
                acts_of (
                  finish args planned host answers
                    (launch_session args planned host answers)
                    (launch_session args planned host answers).left))
      weaker (inl e) = inl (_, e)
      weaker (inr h) = inr h
