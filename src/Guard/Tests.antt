-- ===== src/Guard/Tests.antt =====
-- A container of this launch, running and ended, as `docker inspect` shows it.
use qwen38_flash_next_nvidia.Prelude.{
  Result, ◌≡◌, ◌↔◌, inl, inr, refl, true, false, none, some, [], ◌∷◌, pos, ok, err, List, ℕ, arith,
  ◌<◌,
}
use qwen38_flash_next_nvidia.Json.{bool, int, str, obj, Fields, end, field, get, truthy}
use qwen38_flash_next_nvidia.Profile.CheckLaws.{Among}
use qwen38_flash_next_nvidia.Guard.{
  GuardError, launch_error, Owner, Round, returned, exit_watchdog, verify_ownership, stop_call,
  stop_owned, owned_state, watch, List, ℕ,
}
use qwen38_flash_next_nvidia.Guard.Ownership.{
  IsOwned, IsStopped, stop_owned-IsOwned, stop_owned-IsStopped,
}
use qwen38_flash_next_nvidia.Guard.Watch.{Alarm, Calm, rounds_of, watch_iff}
use qwen38_flash_next_nvidia.Guard.Exit.{CleanExit, watch-CleanExit}

abbrev owner : Owner
owner = record { cid = "c1"; image = "sha256:i"; nonce = "n1"; profile_sha256 = "p1" }

abbrev document : Fields → Fields
document state = field "Id" (str "c1") (
    field "Image" (str "sha256:i") (
      field "Config"
        (obj (
          field "Labels"
            (obj (
              field "io.r0b0tlab.qwen38fn.owner" (str "n1") (
                field "io.r0b0tlab.qwen38fn.profile-sha256" (str "p1")
                  (field "io.r0b0tlab.qwen38fn.image-id" (str "sha256:i") end))))
            end))
        (field "State" (obj state) end)))

abbrev running_state : Fields
running_state = field "Running" (bool true) end

abbrev ended_state : Fields
ended_state =
    field "Running" (bool false)
      (field "ExitCode" (int (pos 0)) (field "OOMKilled" (bool false) end))

-- Another launch's container is refused.
stranger :
    verify_ownership (document running_state) (record owner { nonce = "n2" }) ≡ err launch_error
unfolding verify_ownership get truthy
stranger = refl

calls :
    Among
      (stop_call "c1")
      (stop_owned owner (ok (document running_state)) (ok tt) (ok (document ended_state))).0
unfolding stop_owned get truthy
calls = inr (inl refl)

stopped :
    (stop_owned owner (ok (document running_state)) (ok tt) (ok (document ended_state))).1
    ≡ ok (document ended_state)
unfolding stop_owned get truthy
stopped = refl

running_owned : owned_state owner 8 60 (ok (document running_state)) ≡ ok running_state
unfolding owned_state get truthy
running_owned = refl

running_at : get running_state "Running" ≡ some (bool true)
unfolding get
running_at = refl

abbrev ended : Round
ended = record {
  inspected = ok (document ended_state);
  signal = none;
  available = none;
  logged = ok tt;
  elapsed = 3;
}

ended_zero : watch owner 8 0 0 (ended ∷ []) ≡ returned 0
unfolding watch get truthy
ended_zero = refl

abbrev first_look : Result GuardError Fields
first_look = ok (document running_state)

stop_owned-IsOwned_example :
    (owner.cid ≡ owner.cid) × ((doc : Fields) × (first_look ≡ ok doc) × IsOwned owner doc)
stop_owned-IsOwned_example =
    stop_owned-IsOwned owner (ok (document running_state)) (ok tt) (ok (document ended_state))
      owner.cid calls

stop_owned-IsStopped_example : IsStopped owner (document ended_state)
stop_owned-IsStopped_example =
    stop_owned-IsStopped owner (ok (document running_state)) (ok tt) (ok (document ended_state))
      (document ended_state) stopped

abbrev turn_at : ℕ → ℕ → Round
turn_at elapsed n = record {
  inspected = ok (document running_state);
  signal = none;
  available = some (pos n);
  logged = ok tt;
  elapsed = elapsed;
}

-- The owned container runs, some time before a deadline of 60 seconds.
abbrev calm : (elapsed : ℕ) → elapsed < 60 → ℕ → Calm owner 8 60
calm elapsed before n = record {
  round = turn_at elapsed n;
  sample = n;
  current = running_state;
  owned = running_owned;
  running = running_at;
  no_signal = refl;
  logged = refl;
  available = refl;
  in_time = inr before;
}

abbrev calm_turns : List (Calm owner 8 60)
calm_turns =
    calm 0 (omega arith) 9
    ∷ calm 1 (omega arith) 7
    ∷ calm 30 (omega arith) 6
    ∷ calm 59 (omega arith) 3
    ∷ []

watch_iff_example :
    (watch owner 8 60 0 (rounds_of owner 8 60 calm_turns) ≡ returned exit_watchdog)
    ↔ Alarm 8 (9 ∷ 7 ∷ 6 ∷ 3 ∷ [])
watch_iff_example = watch_iff owner 8 60 calm_turns

watch-CleanExit_example : (round : Round) × Among round (ended ∷ []) × CleanExit owner round
watch-CleanExit_example = watch-CleanExit owner 8 0 0 (ended ∷ []) ended_zero
