-- ===== src/Guard/Run/Acts.antt =====
-- The commands of the container engine that `run` of scripts/guard.py gives.
use mathlib.Core.List.{append-nil}
use qwen38_flash_next_nvidia.Guard.Plan.{Args, Planned}
use qwen38_flash_next_nvidia.Guard.Run.{
  after_cleanup, caught_by_run, close_record, Ran, ran_to, clean_container, is_handled, ran_into,
  Host, or_cleanup, still_running, Session, cleaned, Left, finish, raises, owner_of, docker_argv,
  receipt_again, pending,
}
use qwen38_flash_next_nvidia.Prelude.{
  ◌≡◌, refl, sym, ap, ℕ, String, Option, none, some, List, [], ◌∷◌, ◌++◌, map, ok, err, inl, inr,
  Bool-cases, ◌=ₛ◌, ◌∙◌,
}
use qwen38_flash_next_nvidia.Json.{Fields, str}
use qwen38_flash_next_nvidia.Guard.{
  GuardError, Owner, Call, stop_owned, launch_error, os_error, blocking_error, str, transport_error,
  attribute_error, type_error, value_error, overflowed,
}
use qwen38_flash_next_nvidia.Guard.Inventory.{Guarded, require_hex}
use qwen38_flash_next_nvidia.Guard.Session.{
  Act, stop_act, start_act, Answers, stop_valid, after_stop, clean_container, is_handled, Session,
  Left, stays, leaves,
}
use qwen38_flash_next_nvidia.Profile.CheckLaws.{Among}

abbrev pub acts_of : Ran → List Act
acts_of (ran_to rc acts) = acts
acts_of (ran_into e acts) = acts
acts_of (still_running acts) = acts

pub acts_of-caught_by_run :
    (rc : ℕ) (acts : List Act) (e : GuardError) → acts_of (caught_by_run rc acts e) ≡ acts
acts_of-caught_by_run rc acts launch_error = refl
acts_of-caught_by_run rc acts os_error = refl
acts_of-caught_by_run rc acts blocking_error = refl
acts_of-caught_by_run rc acts transport_error = refl
acts_of-caught_by_run rc acts attribute_error = refl
acts_of-caught_by_run rc acts type_error = refl
acts_of-caught_by_run rc acts value_error = refl
acts_of-caught_by_run rc acts overflowed = refl

acts_of-close_record :
    (saved : Guarded (Unit {0})) (went_on : Option GuardError) (rc : ℕ) (acts : List Act)
    → acts_of (close_record saved went_on rc acts) ≡ acts
acts_of-close_record (ok u) none rc acts = refl
acts_of-close_record (ok u) (some e) rc acts = refl
acts_of-close_record (err e) went_on rc acts = acts_of-caught_by_run rc acts e

pub acts_of-after_cleanup :
    (saved : Guarded (Unit {0})) (went_on : Option GuardError) (rc : ℕ) (acts more : List Act)
    (r : Guarded (Unit {0}))
    → acts_of (after_cleanup saved went_on rc acts (more, r)) ≡ acts ++ more
acts_of-after_cleanup saved went_on rc acts more (ok u) =
    acts_of-close_record saved went_on rc (acts ++ more)
acts_of-after_cleanup saved went_on rc acts more (err e) = elim (Bool-cases (is_handled e)) [
  | inl h ↦ rw h (acts_of-close_record saved went_on (or_cleanup rc) (acts ++ more))
  | inr h ↦ rw h refl
]

module _ (owner : String → Owner) (floor max_watch : ℕ) (argv : List String)
    (receipt_again : Guarded Fields) (answers : Answers) where
  after_stop-calls :
      (calls : List Call) (r : Guarded Fields)
      → (after_stop owner floor max_watch argv receipt_again answers (calls, r)).0
        ≡ map stop_act calls
  after_stop-calls calls (ok final) = refl
  after_stop-calls calls (err e) = refl

  stop_valid-calls :
      (cid : String) (r : Guarded String)
      → (calls : List Call) × ((stop_valid owner floor max_watch argv receipt_again answers cid r).0
          ≡ map stop_act calls)
  stop_valid-calls cid (ok id) =
      let stopped = stop_owned (owner cid) answers.stop_first answers.stopped answers.stop_second in
      (stopped.0, after_stop-calls stopped.0 stopped.1)
  stop_valid-calls cid (err e) = ([], refl)

  -- The cleanup gives the commands of `stop_owned`, or none.
  pub clean_container-calls :
      (cid : Option String)
      → (calls : List Call) × ((clean_container owner floor max_watch argv receipt_again answers
            cid).0
          ≡ map stop_act calls)
  unfolding clean_container
  clean_container-calls none = ([], refl)
  clean_container-calls (some cid) = elim (Bool-cases (cid =ₛ "")) [
    | inl h ↦ ([], rw h refl)
    | inr h ↦
        let (calls, e) = stop_valid-calls cid (require_hex (some (str cid)) 64) in (calls, rw h e)
  ]

module _ (args : Args) (planned : Planned) (host : Host) (answers : Answers) where
  cleaned-acts :
      (s : Session) (r : Guarded (Option String))
      → (calls : List Call) × (acts_of (cleaned args planned host answers s r)
          ≡ s.acts ++ map stop_act calls)
  cleaned-acts s (err e) = ([], acts_of-caught_by_run s.rc s.acts e ∙ sym (append-nil s.acts))
  cleaned-acts s (ok cid) =
      let cleanup =
        clean_container (owner_of args planned host) args.floor planned.max_watch
          (docker_argv args planned host) (receipt_again args planned host answers) answers cid in
      let (calls, e) =
        clean_container-calls (owner_of args planned host) args.floor planned.max_watch
          (docker_argv args planned host) (receipt_again args planned host answers) answers cid in
      (
        calls,
        acts_of-after_cleanup answers.record_saved (pending s.left) s.rc s.acts cleanup.0 cleanup.1
            ∙ ap (λ more. s.acts ++ more) e,
      )

  -- Behind the session come the commands of `stop_owned` only.
  pub finish-acts :
      (s : Session) (left : Left)
      → (calls : List Call) × (acts_of (finish args planned host answers s left)
          ≡ s.acts ++ map stop_act calls)
  finish-acts s stays = ([], sym (append-nil s.acts))
  finish-acts s leaves = cleaned-acts s _
  finish-acts s (raises e) = cleaned-acts s _

-- A start among the commands is one of the session.
pub start-before_stop :
    (cid : String) (acts : List Act) (calls : List Call)
    → Among (start_act cid) (acts ++ map stop_act calls)
    → Among (start_act cid) acts
start-before_stop cid [] [] h = h
start-before_stop cid [] (call ∷ calls) (inl e) = cc
start-before_stop cid [] (call ∷ calls) (inr h) = absurd (start-before_stop cid [] calls h)
start-before_stop cid (act ∷ acts) calls (inl e) = inl e
start-before_stop cid (act ∷ acts) calls (inr h) = inr (start-before_stop cid acts calls h)
