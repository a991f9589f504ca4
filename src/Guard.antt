-- ===== src/Guard.antt =====
-- verify_ownership, stop_owned and the watchdog loop of scripts/guard.py. What `docker inspect` and
-- `docker stop` answer is input; the number of kB that _mem_floor_kb gives is a parameter.
pub mod Ownership
pub mod Watch
pub mod Exit
mod Tests
pub mod Inventory
pub mod Receipt
pub mod Docker
pub mod Plan
pub mod Session
pub mod Run
pub mod Stop
use qwen38_flash_next_nvidia.Prelude.{
  ℕ, zero, suc, ◌+◌, ◌/◌, String, Bool, true, false, not, ◌&&◌, ◌||◌, Option, none, some, List, [],
  ◌∷◌, ℤ, pos, ltb, leb, ◌==◌, ◌=ₛ◌, Result, ok, err, ◌>>=◌, ◌>>◌, require, refuse, if◌then◌else◌,
}
use qwen38_flash_next_nvidia.Json.{text_is, Value, bool, int, str, obj, Fields, end, get, truthy}

-- LaunchError, another ValueError, an OSError, its BlockingIOError, TransportError, and what no
-- handler of the guard catches: AttributeError, TypeError and OverflowError.
pub data GuardError : Type 0 where
  launch_error value_error os_error blocking_error transport_error : GuardError
  attribute_error type_error overflowed : GuardError

-- `expect`, with the container's id
pub record Owner : Type 0 where
  pub cid : String
  pub image : String
  pub nonce : String
  pub profile_sha256 : String

-- `d.get(key, {})`, on which `.get` is called.
abbrev pub as_dict : Option Value → Result GuardError Fields
as_dict none = ok end
as_dict (some (obj fs)) = ok fs
as_dict (some v) = err attribute_error

-- `d.get(key) or {}`, on which `.get` is called.
abbrev pub as_dict_or_empty : Option Value → Result GuardError Fields
as_dict_or_empty none = ok end
as_dict_or_empty (some v) = if truthy v then as_dict (some v) else ok end

-- `verify_ownership`
unfoldable pub verify_ownership : Fields → Owner → Result GuardError Fields
unfolding text_is
verify_ownership doc expected = do
  require (text_is (get doc "Id") expected.cid && text_is (get doc "Image") expected.image)
      launch_error
  config ← as_dict (get doc "Config")
  labels ← as_dict_or_empty (get config "Labels")
  require
      (text_is (get labels "io.r0b0tlab.qwen38fn.owner") expected.nonce
        && (text_is (get labels "io.r0b0tlab.qwen38fn.profile-sha256") expected.profile_sha256
            && text_is (get labels "io.r0b0tlab.qwen38fn.image-id") expected.image))
      launch_error
  ok doc

-- The calls of the transport, in order.
pub data Call : Type 0 where
  inspect_call stop_call : String → Call

abbrev pub is_false : Option Value → Bool
is_false (some (bool false)) = true
is_false _ = false

abbrev pub is_true : Option Value → Bool
is_true (some (bool true)) = true
is_true _ = false

abbrev pub is_truthy : Option Value → Bool
is_truthy none = false
is_truthy (some v) = truthy v

-- From the second `verify_ownership` of `stop_owned` on.
unfoldable pub confirm_stopped : Owner → Result GuardError Fields → Result GuardError Fields
unfolding verify_ownership
confirm_stopped expected inspected = do
  doc ← inspected
  final ← verify_ownership doc expected
  state ← as_dict (get final "State")
  require (is_false (get state "Running")) launch_error
  ok final

-- `doc.get("State", {}).get("Running")` of an owned container.
unfoldable pub owned_running : Owner → Result GuardError Fields → Result GuardError Bool
unfolding verify_ownership
owned_running expected inspected = do
  found ← inspected
  doc ← verify_ownership found expected
  state ← as_dict (get doc "State")
  ok (is_truthy (get state "Running"))

-- `stop_owned`, once it is known whether the container is running: the calls and the result.
abbrev pub stop_after :
    Owner
    → Result GuardError Bool
    → Result GuardError (Unit {0})
    → Result GuardError Fields
    → List Call × Result GuardError Fields
stop_after expected (err e) stopped second = (inspect_call expected.cid ∷ [], err e)
stop_after expected (ok false) stopped second =
    (inspect_call expected.cid ∷ inspect_call expected.cid ∷ [], confirm_stopped expected second)
stop_after expected (ok true) (err e) second =
    (inspect_call expected.cid ∷ stop_call expected.cid ∷ [], err e)
stop_after expected (ok true) (ok u) second = (
  inspect_call expected.cid ∷ stop_call expected.cid ∷ inspect_call expected.cid ∷ [],
  confirm_stopped expected second,
)

-- `stop_owned`, for the answers of the two inspections and of the stop.
unfoldable pub stop_owned :
    Owner
    → Result GuardError Fields
    → Result GuardError (Unit {0})
    → Result GuardError Fields
    → List Call × Result GuardError Fields
unfolding owned_running confirm_stopped
stop_owned expected first stopped second =
    stop_after expected (owned_running expected first) stopped second

-- What one turn of the watchdog loop reads: the inspection, the signal if the event is set, the
-- memory reader's number if it is an int, how the write to the telemetry ends, and the time since
-- the start.
pub record Round : Type 0 where
  pub inspected : Result GuardError Fields
  pub signal : Option ℕ
  pub available : Option ℤ
  pub logged : Result GuardError (Unit {0})
  pub elapsed : ℕ

-- How a turn ends: with an exit code, an exception, or a sleep with the count of low samples.
pub data Watched : Type 0 where
  returned : ℕ → Watched
  raised : GuardError → Watched
  watching : ℕ → Watched

abbrev pub exit_watchdog : ℕ
exit_watchdog = 8

abbrev pub exited : Option Value → Bool → Watched
exited (some (int (pos zero))) oom_killed = returned (if oom_killed then exit_watchdog else 0)
exited (some (int (pos (suc n)))) oom_killed =
    if leb (suc n) 255 then returned (suc n) else raised launch_error
exited _ oom_killed = raised launch_error

module _ (expected : Owner) (floor max_watch : ℕ) where
  -- `low`, the tests on the sample, and the one on the time.
  unfoldable pub sampled : ℕ → ℕ → ℕ → Watched
  sampled low n elapsed =
      let low' = if ltb n floor then suc low else 0 in
      if ltb n (floor / 2) || leb 5 low'
      then returned exit_watchdog
      else if not (max_watch == 0) && leb max_watch elapsed
      then returned exit_watchdog
      else watching low'

  abbrev pub take_sample : ℕ → Option ℤ → ℕ → Watched
  take_sample low (some (pos n)) elapsed = sampled low n elapsed
  take_sample low _ elapsed = returned exit_watchdog

  abbrev pub after_log : ℕ → Round → Result GuardError (Unit {0}) → Watched
  after_log low round (err e) = raised e
  after_log low round (ok u) = take_sample low round.available round.elapsed

  abbrev pub unless_signal : ℕ → Round → Watched
  unless_signal low round = elim round.signal [
    | some number ↦ returned (128 + number)
    | none ↦ after_log low round round.logged
  ]

  abbrev pub on_state : ℕ → Round → Fields → Watched
  on_state low round current =
      if is_false (get current "Running")
      then exited (get current "ExitCode") (is_truthy (get current "OOMKilled"))
      else if is_true (get current "Running")
      then unless_signal low round
      else raised launch_error

  -- `(doc.get("State") or {})` of a container that is owned
  unfoldable pub owned_state : Result GuardError Fields → Result GuardError Fields
  unfolding verify_ownership
  owned_state inspected = do
    found ← inspected
    doc ← verify_ownership found expected
    as_dict_or_empty (get doc "State")

  abbrev pub on_owned : ℕ → Round → Result GuardError Fields → Watched
  on_owned low round (err e) = raised e
  on_owned low round (ok current) = on_state low round current

  -- One turn of `while True`.
  unfoldable pub turn : ℕ → Round → Watched
  unfolding owned_state sampled
  turn low round = on_owned low round (owned_state round.inspected)

  abbrev pub unless_over : Watched → (ℕ → Watched) → Watched
  unless_over (returned rc) next = returned rc
  unless_over (raised e) next = raised e
  unless_over (watching low) next = next low

  -- The loop, over the turns that it takes.
  unfoldable pub watch : ℕ → List Round → Watched
  unfolding turn
  watch low [] = watching low
  watch low (round ∷ rounds) = unless_over (turn low round) λ low'. watch low' rounds
