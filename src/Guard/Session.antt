-- ===== src/Guard/Session.antt =====
-- The `try` of `run` of scripts/guard.py that creates, starts and watches the container, and the
-- `finally` that cleans up. What the container engine and the system answer is input.
use qwen38_flash_next_nvidia.Prelude.{
  ℕ, String, Bool, true, false, Option, none, some, List, [], ◌∷◌, map, ◌=ₛ◌, ok, err, ◌>>=◌,
  if◌then◌else◌, ◌+◌,
}
use qwen38_flash_next_nvidia.Json.{Fields, str, get}
use qwen38_flash_next_nvidia.Guard.{
  GuardError, Owner, Call, Round, Watched, watch, stop_owned, verify_ownership, returned,
  attribute_error, launch_error, exit_watchdog, type_error, transport_error, raised, overflowed,
  watching,
}
use qwen38_flash_next_nvidia.Guard.Inventory.{Guarded, require_hex}

-- The commands that touch a container, in order: `create`, `start`, and those of `stop_owned`.
pub data Act : Type 0 where
  create_act : List String → Act
  start_act : String → Act
  stop_act : Call → Act

-- The answers from the creation on.
pub record Answers : Type 0 where
  -- the signal, if the event is set before the creation
  pub signal_before : Option ℕ
  pub created : Guarded String
  pub cid_saved : Guarded (Unit {0})
  pub first_inspected : Guarded Fields
  -- the signal, if the event is set before the start
  pub signal_after : Option ℕ
  pub started : Guarded (Unit {0})
  pub telemetry_opened : Guarded (Unit {0})
  pub rounds : List Round
  -- the text of the cidfile, `none` if it is no file
  pub cidfile : Option (Guarded String)
  -- the inspection by the container's name
  pub by_name : Guarded Fields
  pub stop_first : Guarded Fields
  pub stopped : Guarded (Unit {0})
  pub stop_second : Guarded Fields
  pub final_saved : Guarded (Unit {0})
  pub record_saved : Guarded (Unit {0})

-- How the `try` is left: normally, by an exception, or not within the given rounds.
pub data Left : Type 0 where
  leaves : Left
  raises : GuardError → Left
  stays : Left

-- `rc` and `cid` at that point, and the commands so far.
pub record Session : Type 0 where
  pub rc : ℕ
  pub cid : Option String
  pub acts : List Act
  pub left : Left

abbrev pub exit_spawn : ℕ
exit_spawn = 5

abbrev pub exit_verify : ℕ
exit_verify = 4

abbrev pub exit_cleanup : ℕ
exit_cleanup = 7

-- `except (OSError, ValueError, TransportError)`
abbrev pub is_handled : GuardError → Bool
is_handled attribute_error = false
is_handled type_error = false
is_handled overflowed = false
is_handled _ = true

-- `receipt_again` is what `check_receipt` returns the second time.
module _ (owner : String → Owner) (floor max_watch : ℕ) (argv : List String)
    (receipt_again : Guarded Fields) (answers : Answers) where
  abbrev pub acts_started : String → List Act
  acts_started cid = create_act argv ∷ start_act cid ∷ []

  abbrev pub watched : String → Watched → Session
  watched cid (returned rc) = record {
    rc = rc;
    cid = some cid;
    acts = acts_started cid;
    left = leaves;
  }
  watched cid (raised e) = record {
    rc = exit_watchdog;
    cid = some cid;
    acts = acts_started cid;
    left = raises e;
  }
  watched cid (watching low) = record {
    rc = exit_watchdog;
    cid = some cid;
    acts = acts_started cid;
    left = stays;
  }

  abbrev pub after_telemetry : String → Guarded (Unit {0}) → Session
  after_telemetry cid (err e) = record {
    rc = exit_watchdog;
    cid = some cid;
    acts = acts_started cid;
    left = raises e;
  }
  after_telemetry cid (ok u) = watched cid (watch (owner cid) floor max_watch 0 answers.rounds)

  abbrev pub after_start : String → Guarded (Unit {0}) → Session
  after_start cid (err e) = record {
    rc = exit_spawn;
    cid = some cid;
    acts = acts_started cid;
    left = raises e;
  }
  after_start cid (ok u) = after_telemetry cid answers.telemetry_opened

  abbrev pub after_receipt : String → Guarded Fields → Session
  after_receipt cid (err e) = record {
    rc = exit_verify;
    cid = some cid;
    acts = create_act argv ∷ [];
    left = raises e;
  }
  after_receipt cid (ok receipt) = after_start cid answers.started

  abbrev pub unless_interrupted : String → Option ℕ → Session
  unless_interrupted cid (some number) = record {
    rc = 128 + number;
    cid = some cid;
    acts = create_act argv ∷ [];
    left = leaves;
  }
  unless_interrupted cid none = after_receipt cid receipt_again

  -- `require_hex`, the record, and the ownership of a container just created
  unfoldable pub accept_created : String → Guarded Fields
  unfolding require_hex verify_ownership
  accept_created cid = do
    _ ← require_hex (some (str cid)) 64
    _ ← answers.cid_saved
    doc ← answers.first_inspected
    verify_ownership doc (owner cid)

  abbrev pub after_accepted : String → Guarded Fields → Session
  after_accepted cid (err e) = record {
    rc = exit_spawn;
    cid = some cid;
    acts = create_act argv ∷ [];
    left = raises e;
  }
  after_accepted cid (ok doc) = unless_interrupted cid answers.signal_after

  abbrev pub after_created : Guarded String → Session
  after_created (err e) = record {
    rc = exit_spawn;
    cid = none;
    acts = create_act argv ∷ [];
    left = raises e;
  }
  after_created (ok cid) = after_accepted cid (accept_created cid)

  -- The `try`
  unfoldable pub session : Option ℕ → Session
  unfolding accept_created
  session (some number) = record { rc = 128 + number; cid = none; acts = []; left = leaves }
  session none = after_created answers.created

  -- The container of the launch's name, if it is this launch's
  unfoldable pub recovered : Guarded (Option String)
  unfolding require_hex verify_ownership
  recovered = do
    doc ← answers.by_name
    candidate ← require_hex (get doc "Id") 64
    _ ← verify_ownership doc (owner candidate)
    ok (some candidate)

  -- `except (LaunchError, TransportError)`
  abbrev pub unless_unknown : Guarded (Option String) → Guarded (Option String)
  unless_unknown (err launch_error) = ok none
  unless_unknown (err transport_error) = ok none
  unless_unknown r = r

  -- The container to clean up, when `create` was called and gave no ID
  abbrev pub found_cid : Option (Guarded String) → Guarded (Option String)
  found_cid (some (ok cid)) = ok (some cid)
  found_cid (some (err e)) = err e
  found_cid none = unless_unknown recovered

  unfoldable pub resolve_cid : Option String → List Act → Guarded (Option String)
  unfolding recovered
  resolve_cid (some cid) acts = ok (some cid)
  resolve_cid none [] = ok none
  resolve_cid none (act ∷ acts) = found_cid answers.cidfile

  -- `stop_owned` of the container, and the two files written after it
  abbrev pub after_stop : List Call × Guarded Fields → List Act × Guarded (Unit {0})
  after_stop (calls, err e) = (map stop_act calls, err e)
  after_stop (calls, ok final) = (map stop_act calls, answers.final_saved)

  abbrev pub stop_valid : String → Guarded String → List Act × Guarded (Unit {0})
  stop_valid cid (err e) = ([], err e)
  stop_valid cid (ok id) =
      after_stop (stop_owned (owner cid) answers.stop_first answers.stopped answers.stop_second)

  unfoldable pub clean_container : Option String → List Act × Guarded (Unit {0})
  unfolding require_hex stop_owned
  clean_container none = ([], ok tt)
  clean_container (some cid) =
      if cid =ₛ "" then ([], ok tt) else stop_valid cid (require_hex (some (str cid)) 64)
