-- ===== src/Guard/Watch.antt =====
-- When the watchdog loop of scripts/guard.py stops the container for lack of memory.
use qwen38_flash_next_nvidia.Prelude.{
  ℕ, zero, suc, ◌+◌, ◌/◌, ◌≤◌, ◌<◌, ◌≡◌, ◌∙◌, ap, ◌⊎◌, ◌↔◌, inl, inr, refl, true, none, some, List,
  [], ◌∷◌, map, pos, ok, arith, ltb, Bool-cases,
}
use qwen38_flash_next_nvidia.Json.{bool, Fields, get}
use qwen38_flash_next_nvidia.Guard.{
  Owner, Round, Watched, returned, watching, exit_watchdog, sampled, owned_state, on_owned, turn,
  unless_over, watch,
}

module _ (floor : ℕ) where
  -- The first so many samples are there and below the floor.
  abbrev pub LowRun : ℕ → List ℕ → Type 0
  LowRun zero ns = Unit
  LowRun (suc k) [] = ⊥
  LowRun (suc k) (n ∷ ns) = (n < floor) × LowRun k ns

  -- Some sample is below half the floor, or five samples in a row are below the floor.
  abbrev pub Alarm : List ℕ → Type 0
  Alarm [] = ⊥
  Alarm (n ∷ ns) = (n < floor / 2) ⊎ LowRun 5 (n ∷ ns) ⊎ Alarm ns

  LowRun-shorter : (j k : ℕ) (ns : List ℕ) → j ≤ k → LowRun k ns → LowRun j ns
  LowRun-shorter zero k ns h r = tt
  LowRun-shorter (suc j) zero ns h r = absurd (omega arith)
  LowRun-shorter (suc j) (suc k) [] h r = absurd r
  LowRun-shorter (suc j) (suc k) (n ∷ ns) h r = (r.0, LowRun-shorter j k ns (omega arith) r.1)

  LowRun-Alarm : (ns : List ℕ) → LowRun 5 ns ⊎ Alarm ns → Alarm ns
  LowRun-Alarm ns (inr h) = h
  LowRun-Alarm [] (inl h) = absurd h
  LowRun-Alarm (n ∷ ns) (inl h) = inr (inl h)

  -- A sample that is not low starts no alarm.
  after_high :
      (k n : ℕ) (ns : List ℕ)
      → floor / 2 ≤ n
      → floor ≤ n
      → LowRun (suc k) (n ∷ ns) ⊎ Alarm (n ∷ ns)
      → Alarm ns
  after_high k n ns g h (inl r) = absurd (omega (arith, r.0))
  after_high k n ns g h (inr (inl c)) = absurd (omega arith)
  after_high k n ns g h (inr (inr (inl r))) = absurd (omega (arith, r.0))
  after_high k n ns g h (inr (inr (inr a))) = a

  -- A low one shortens the run that is asked for by one.
  after_low :
      (k n : ℕ) (ns : List ℕ)
      → k < 4
      → floor / 2 ≤ n
      → LowRun (suc (suc k)) (n ∷ ns) ⊎ Alarm (n ∷ ns)
      → LowRun (suc k) ns ⊎ Alarm ns
  after_low k n ns b g (inl r) = inl r.1
  after_low k n ns b g (inr (inl c)) = absurd (omega arith)
  after_low k n ns b g (inr (inr (inl r))) = inl (LowRun-shorter (suc k) 4 ns (omega arith) r.1)
  after_low k n ns b g (inr (inr (inr a))) = inr a

module _ (expected : Owner) (floor max_watch : ℕ) where
  -- A turn on the running container, in time and without a signal, with its sample.
  pub record Calm : Type 0 where
    pub round : Round
    pub sample : ℕ
    pub current : Fields
    pub owned : owned_state expected floor max_watch round.inspected ≡ ok current
    pub running : get current "Running" ≡ some (bool true)
    pub no_signal : round.signal ≡ none
    pub logged : round.logged ≡ ok tt
    pub available : round.available ≡ some (pos sample)
    pub in_time : (max_watch ≡ 0) ⊎ (round.elapsed < max_watch)

  turn-calm :
      (low : ℕ) (c : Calm)
      → turn expected floor max_watch low c.round
        ≡ sampled expected floor max_watch low c.sample c.round.elapsed
  unfolding turn
  turn-calm low c =
      ap (on_owned expected floor max_watch low c.round) c.owned
      ∙ rw (c.running, c.no_signal, c.logged, c.available) refl

  module _ (low : ℕ) (c : Calm) where
    sampled_crisis :
        c.sample < floor / 2
        → sampled expected floor max_watch low c.sample c.round.elapsed ≡ returned exit_watchdog
    unfolding sampled
    sampled_crisis h = ground arith

    sampled_fifth :
        c.sample < floor
        → 4 ≤ low
        → sampled expected floor max_watch low c.sample c.round.elapsed ≡ returned exit_watchdog
    unfolding sampled
    sampled_fifth h k = ground arith

    sampled_low :
        floor / 2 ≤ c.sample
        → c.sample < floor
        → low < 4
        → sampled expected floor max_watch low c.sample c.round.elapsed ≡ watching (suc low)
    unfolding sampled
    sampled_low g h k = elim c.in_time [ inl e ↦ ground arith | inr e ↦ ground arith ]

    sampled_high :
        floor / 2 ≤ c.sample
        → floor ≤ c.sample
        → sampled expected floor max_watch low c.sample c.round.elapsed ≡ watching 0
    unfolding sampled
    sampled_high g h = elim c.in_time [ inl e ↦ ground arith | inr e ↦ ground arith ]

  abbrev pub rounds_of : List Calm → List Round
  rounds_of cs = map (λ c. c.round) cs

  abbrev pub samples_of : List Calm → List ℕ
  samples_of cs = map (λ c. c.sample) cs

  watch_over :
      (low : ℕ) (c : Calm) (cs : List Calm) (w : Watched)
      → sampled expected floor max_watch low c.sample c.round.elapsed ≡ w
      → watch expected floor max_watch low (rounds_of (c ∷ cs))
        ≡ unless_over expected floor max_watch w
            λ low'. watch expected floor max_watch low' (rounds_of cs)
  unfolding watch
  watch_over low c cs w h =
      ap
        (λ x.
          unless_over expected floor max_watch x
            λ low'. watch expected floor max_watch low' (rounds_of cs))
        (turn-calm low c ∙ h)

  still_watching : (low : ℕ) → watch expected floor max_watch low [] ≡ returned exit_watchdog → ⊥
  unfolding watch
  still_watching low e = cc

  -- What is to be shown of the loop after `low` low samples, with `k` more to go.
  abbrev Stops : List Calm → ℕ → ℕ → Type 0
  Stops cs low k =
      (watch expected floor max_watch low (rounds_of cs) ≡ returned exit_watchdog)
      ↔ (LowRun floor (suc k) (samples_of cs) ⊎ Alarm floor (samples_of cs))

  watch_low :
      (low : ℕ) (c : Calm) (cs : List Calm)
      → ((k : ℕ) → suc low + suc k ≡ 5 → Stops cs (suc low) k)
      → (k : ℕ) → low + suc k ≡ 5
      → floor / 2 ≤ c.sample
      → c.sample < floor
      → Stops (c ∷ cs) low k
  watch_low low c cs rest zero h half below =
      rw (watch_over low c cs _ (sampled_fifth low c below (omega arith)))
        (λ e. inl (below, tt), λ r. refl)
  watch_low low c cs rest (suc k) h half below =
      let (sound, complete) = rest k (omega arith) in
      rw (watch_over low c cs _ (sampled_low low c half below (omega arith))) (
        λ e. elim (sound e) [ inl r ↦ inl (below, r) | inr a ↦ inr (inr (inr a)) ],
        λ r. complete (after_low floor k c.sample (samples_of cs) (omega arith) half r),
      )

  watch_from : (cs : List Calm) (low k : ℕ) → low + suc k ≡ 5 → Stops cs low k
  watch_from [] low k h =
      (λ e. absurd (still_watching low e), λ r. elim r [ inl e ↦ absurd e | inr e ↦ absurd e ])
  watch_from (c ∷ cs) low k h = elim (Bool-cases (ltb c.sample (floor / 2))) [
    | inl crisis ↦
        rw (watch_over low c cs _ (sampled_crisis low c (ground arith)))
          (λ e. inr (inl (ground arith)), λ r. refl)
    | inr calm_half ↦
        let half : floor / 2 ≤ c.sample = ground arith in
        elim (Bool-cases (ltb c.sample floor)) [
          | inr high ↦
              let above : floor ≤ c.sample = ground arith in
              let (sound, complete) = watch_from cs 0 4 refl in
              rw (watch_over low c cs _ (sampled_high low c half above)) (
                λ e. inr (inr (inr (LowRun-Alarm floor (samples_of cs) (sound e)))),
                λ r. complete (inr (after_high floor k c.sample (samples_of cs) half above r)),
              )
          | inl low_one ↦
              let below : c.sample < floor = ground arith in
              watch_low low c cs (λ k'. watch_from cs (suc low) k') k h half below
        ]
  ]

  -- Over turns that each find the owned container running, before the deadline if there is one,
  -- without a signal, with a sample that is written to the telemetry, the loop returns the watchdog's
  -- exit code exactly if some sample is below half the floor or five in a row are below the floor.
  pub watch_iff :
      (cs : List Calm)
      → (watch expected floor max_watch 0 (rounds_of cs) ≡ returned exit_watchdog)
        ↔ Alarm floor (samples_of cs)
  watch_iff cs =
      let (sound, complete) = watch_from cs 0 4 refl in
      (λ e. LowRun-Alarm floor (samples_of cs) (sound e), λ a. complete (inr a))
