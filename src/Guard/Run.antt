-- ===== src/Guard/Run.antt =====
-- `run` of scripts/guard.py: the checks, the launch record, the container's session, the cleanup, and
-- the exit code.
mod Tests
pub mod Acts
pub mod Cleared
pub mod Started
pub mod Zero
pub mod Ended
pub mod Cleanup
use qwen38_flash_next_nvidia.Guard.Docker.{build_docker_argv}
use qwen38_flash_next_nvidia.Guard.Plan.{Args, plan_launch, Planned, Inputs}
use qwen38_flash_next_nvidia.Guard.Receipt.{check_receipt, FileView}
use qwen38_flash_next_nvidia.Guard.Session.{
  Left, Act, exit_cleanup, Answers, resolve_cid, raises, is_handled, Session, exit_verify,
  clean_container, session, stays,
}
use qwen38_flash_next_nvidia.Prelude.{
  ℕ, String, Bool, true, false, ◌&&◌, Option, none, some, List, [], ◌∷◌, ◌++◌, ◌==◌, Result, ok,
  err, ◌>>=◌, ◌>>◌, require, if◌then◌else◌, ℤ, ◌+ₛ◌,
}
use qwen38_flash_next_nvidia.Json.{Value, Fields, get, text_is, Float}
use qwen38_flash_next_nvidia.Guard.{GuardError, Owner, launch_error, blocking_error, ℤ}
use qwen38_flash_next_nvidia.Guard.Inventory.{Guarded, Raw}

-- The answers before the creation: whether the directories exist, the making of the state
-- directory, the lock of the cache, the saved findings of the preflight, the receipt's file, the
-- files of the model, the image's document, the writing of the two inputs, the nonce, and the
-- writing of the launch record; then the receipt and the files as the second check finds them.
pub record Host : Type 0 where
  pub directories : Bool
  pub state_made : Guarded (Unit {0})
  pub locked : Guarded (Unit {0})
  pub findings : Guarded Fields
  pub receipt_file : Guarded Raw
  pub view : String → Guarded FileView
  pub image_document : Guarded Fields
  pub inputs_written : Guarded (Unit {0})
  pub nonce : String
  pub record_written : Guarded (Unit {0})
  pub receipt_file_again : Guarded Raw
  pub view_again : String → Guarded FileView

-- How `run` ends: with an exit code, with an exception that it does not catch, or not within the
-- given rounds; and the commands of the container engine.
pub data Ran : Type 0 where
  ran_to : ℕ → List Act → Ran
  ran_into : GuardError → List Act → Ran
  still_running : List Act → Ran

abbrev pub exit_usage : ℕ
exit_usage = 2

abbrev pub exit_preflight : ℕ
exit_preflight = 3

abbrev pub exit_locked : ℕ
exit_locked = 9

-- `rc or EXIT_CLEANUP`
abbrev pub or_cleanup : ℕ → ℕ
or_cleanup rc = if rc == 0 then exit_cleanup else rc

-- The outer handlers.
abbrev pub caught_by_run : ℕ → List Act → GuardError → Ran
caught_by_run rc acts blocking_error = ran_to exit_locked acts
caught_by_run rc acts e = if is_handled e then ran_to (or_cleanup rc) acts else ran_into e acts

-- An error, with `rc` as it is at that point.
abbrev pub at_rc : {A : Type 0} → ℕ → Guarded A → Result (ℕ × GuardError) A
at_rc rc (ok a) = ok a
at_rc rc (err e) = err (rc, e)

abbrev pub is_platform : Fields → String → Bool
is_platform document image =
    text_is (get document "Id") image
    && text_is (get document "Architecture") "arm64"
    && text_is (get document "Os") "linux"

-- From the test of the directories to the launch record.
unfoldable pub check_launch : Args → Planned → Host → Result (ℕ × GuardError) (Unit {0})
unfolding check_receipt
check_launch args planned host = do
  _ ← at_rc exit_usage (require host.directories launch_error)
  _ ← at_rc exit_usage host.state_made
  _ ← at_rc exit_usage host.locked
  findings ← at_rc exit_preflight host.findings
  _ ← at_rc exit_preflight (require (text_is (get findings "status") "PASS") launch_error)
  _ ← at_rc exit_verify (
      check_receipt host.view args.receipt_sha256 args.model_root.text host.receipt_file
        planned.sources)
  document ← at_rc exit_verify host.image_document
  _ ← at_rc exit_verify (require (is_platform document args.image) launch_error)
  _ ← at_rc exit_verify host.inputs_written
  at_rc exit_verify host.record_written

-- `expect`, with the container's ID
abbrev pub owner_of : Args → Planned → Host → String → Owner
owner_of args planned host cid = record {
  cid = cid;
  image = args.image;
  nonce = host.nonce;
  profile_sha256 = planned.profile_sha256;
}

abbrev pub docker_argv : Args → Planned → Host → List String
docker_argv args planned host =
    build_docker_argv args.image (args.state_dir.text +ₛ "/profile.json")
      (args.state_dir.text +ₛ "/sources.json") args.model_root.text args.cache_dir.text
      args.state_dir.text (owner_of args planned host "")

-- The end of `finally`: the record is saved, and what was raised and not handled goes on.
abbrev pub pending : Left → Option GuardError
pending (raises e) = if is_handled e then none else some e
pending _ = none

abbrev pub resumed : Option GuardError → ℕ → List Act → Ran
resumed none rc acts = ran_to rc acts
resumed (some e) rc acts = ran_into e acts

abbrev pub close_record : Guarded (Unit {0}) → Option GuardError → ℕ → List Act → Ran
close_record (ok u) went_on rc acts = resumed went_on rc acts
close_record (err e) went_on rc acts = caught_by_run rc acts e

abbrev pub after_cleanup :
    Guarded (Unit {0}) → Option GuardError → ℕ → List Act → List Act × Guarded (Unit {0}) → Ran
after_cleanup saved went_on rc acts (more, ok u) = close_record saved went_on rc (acts ++ more)
after_cleanup saved went_on rc acts (more, err e) =
    if is_handled e
    then close_record saved went_on (or_cleanup rc) (acts ++ more)
    else ran_into e (acts ++ more)

module _ (args : Args) (planned : Planned) (host : Host) (answers : Answers) where
  -- The second `check_receipt`
  abbrev pub receipt_again : Guarded Fields
  receipt_again =
      check_receipt host.view_again args.receipt_sha256 args.model_root.text host.receipt_file_again
        planned.sources

  abbrev pub cleaned : Session → Guarded (Option String) → Ran
  cleaned s (err e) = caught_by_run s.rc s.acts e
  cleaned s (ok cid) = after_cleanup answers.record_saved (pending s.left) s.rc s.acts (
      clean_container (owner_of args planned host) args.floor planned.max_watch
        (docker_argv args planned host) receipt_again answers cid)

  -- `finally`
  abbrev pub finish : Session → Left → Ran
  finish s stays = still_running s.acts
  finish s left = cleaned s (
      resolve_cid (owner_of args planned host) args.floor planned.max_watch
        (docker_argv args planned host) receipt_again answers s.cid s.acts)

  unfoldable pub launch_session : Session
  unfolding session
  launch_session =
      session (owner_of args planned host) args.floor planned.max_watch
        (docker_argv args planned host) receipt_again answers answers.signal_before

  abbrev pub after_checks : Result (ℕ × GuardError) (Unit {0}) → Ran
  after_checks (err (rc, e)) = caught_by_run rc [] e
  after_checks (ok u) = finish launch_session launch_session.left

module _ (args : Args) (host : Host) (answers : Answers) where
  abbrev pub after_plan : Guarded Planned → Ran
  after_plan (err e) = caught_by_run exit_usage [] e
  after_plan (ok planned) =
      if args.print_only
      then ran_to 0 []
      else after_checks args planned host answers (check_launch args planned host)

-- `run`
unfoldable pub run : (ℤ → String) → (Float → String) → Args → Inputs → Host → Answers → Ran
unfolding plan_launch check_launch launch_session resolve_cid clean_container
run shown shown_float args inputs host answers =
    after_plan args host answers (plan_launch shown shown_float args inputs)
