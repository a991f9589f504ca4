-- ===== src/Entrypoint/Flags.antt =====
-- The words of the server's command that must agree (`build_argv` of runtime/entrypoint.py).
use mathlib.Core.Path.{subst}
use mathlib.Core.List.{append-nil, take}
use qwen38_flash_next_nvidia.Prelude.{
  ℕ, zero, suc, String, ◌≡◌, ◌⊎◌, inl, inr, ◌∙◌, refl, sym, ap, List, [], ◌∷◌, ◌++◌, map, ℤ, pos,
  ◌≤ℤ◌, drop, All, ok, arith, ◌=ₛ◌, =ₛ_iff, if◌then◌else◌, ◌≤◌, ◌+◌, negsuc,
}
use qwen38_flash_next_nvidia.Json.{Value, Float, get}
use qwen38_flash_next_nvidia.Profile.{Profile}
use qwen38_flash_next_nvidia.Profile.CheckLaws.{Among}
use qwen38_flash_next_nvidia.Profile.Values.{IsLaunchable}
use qwen38_flash_next_nvidia.Entrypoint.{text_of}
use qwen38_flash_next_nvidia.Entrypoint.Command.{
  batch_sizes, build_argv, words_before_sizes, words_after_sizes, draft_words, succ_ℤ,
}
use qwen38_flash_next_nvidia.Entrypoint.Launchable.{
  Compiled, build_argv-Compiled, checked_profile-IsLaunchable,
}

module _ (flag value : String) where
  -- Somewhere the flag stands before the value.
  abbrev pub Follows : List String → Type 0
  Follows [] = ⊥
  Follows (w ∷ []) = ⊥
  Follows (w ∷ x ∷ words) = ((w ≡ flag) × (x ≡ value)) ⊎ Follows (x ∷ words)

  Follows-cons : (w : String) (words : List String) → Follows words → Follows (w ∷ words)
  Follows-cons w [] h = absurd h
  Follows-cons w (x ∷ words) h = inr h

  Follows-drop : (n : ℕ) (words : List String) → Follows (drop n words) → Follows words
  Follows-drop zero words h = h
  Follows-drop (suc n) [] h = absurd h
  Follows-drop (suc n) (w ∷ words) h = Follows-cons w words (Follows-drop n words h)

  Follows-behind : (before words : List String) → Follows words → Follows (before ++ words)
  Follows-behind [] words h = h
  Follows-behind (w ∷ before) words h =
      Follows-cons w (before ++ words) (Follows-behind before words h)

  Follows-ahead : (words after : List String) → Follows words → Follows (words ++ after)
  Follows-ahead [] after h = absurd h
  Follows-ahead (w ∷ []) after h = absurd h
  Follows-ahead (w ∷ x ∷ words) after (inl h) = inl h
  Follows-ahead (w ∷ x ∷ words) after (inr h) = inr (Follows-ahead (x ∷ words) after h)

-- A decode graph for no more requests than may run, and one for as many.
abbrev pub Covered : ℤ → Type 0
Covered n = All (λ m. m ≤ℤ n) (batch_sizes n) × Among n (batch_sizes n)

batch_sizes-Covered : (n : ℤ) → Among n (pos 1 ∷ pos 2 ∷ pos 4 ∷ pos 8 ∷ []) → Covered n
unfolding batch_sizes
batch_sizes-Covered n (inl e) = subst (λ m. Covered m) (sym e) (ground arith, inl refl)
batch_sizes-Covered n (inr (inl e)) = subst (λ m. Covered m) (sym e) (ground arith, inr (inl refl))
batch_sizes-Covered n (inr (inr (inl e))) =
    subst (λ m. Covered m) (sym e) (ground arith, inr (inr (inl refl)))
batch_sizes-Covered n (inr (inr (inr (inl e)))) =
    subst (λ m. Covered m) (sym e) (ground arith, inr (inr (inr (inl refl))))
batch_sizes-Covered n (inr (inr (inr (inr e)))) = absurd e

one_to_three : (s : ℤ) → pos 1 ≤ℤ s → s ≤ℤ pos 3 → (k : ℕ) × (s ≡ pos k) × (1 ≤ k) × (k ≤ 3)
one_to_three (pos k) low high = (k, refl, omega arith, omega arith)
one_to_three (negsuc k) low high = absurd (omega arith)

module _ (shown : ℤ → String) (shown_float : Float → String) (p : Profile) (sources : Value)
    (argv : List String) (h : build_argv shown shown_float p sources ≡ ok argv) where
  compiled : Compiled shown shown_float p sources argv
  compiled = build_argv-Compiled shown shown_float p sources argv h

  launchable : IsLaunchable compiled.profile
  launchable = (checked_profile-IsLaunchable p compiled.profile compiled.checked_at).1

  -- A flag among the words behind the graph sizes is one of the command.
  late_flag :
      (flag value : String) (n : ℕ)
      → Follows flag value (drop n (words_after_sizes shown shown_float compiled.profile))
      → Follows flag value argv
  late_flag flag value n f =
      let q = compiled.profile in
      let late = words_after_sizes shown shown_float q in
      let draft = if q.mode =ₛ "nextn" then draft_words shown shown_float q else [] in
      subst (λ words. Follows flag value words) compiled.argv_at
        (Follows-behind flag value
          (words_before_sizes shown shown_float q (text_of (get compiled.model "sha")))
          (map shown (batch_sizes q.max_running_requests) ++ (late ++ draft))
          (Follows-behind flag value (map shown (batch_sizes q.max_running_requests))
            (late ++ draft)
            (Follows-ahead flag value late draft (Follows-drop flag value n late f))))

  -- The context and the token pool of an accepted command are the same number, 32768 or 262144.
  pub build_argv_context :
      (n : ℤ) × Among n (pos 32768 ∷ pos 262144 ∷ [])
      × Follows "--context-length" (shown n) argv
      × Follows "--max-total-tokens" (shown n) argv
  build_argv_context = (
    compiled.profile.context_length,
    launchable.context_in,
    late_flag "--context-length" _ 5 (inl (refl, refl)),
    late_flag "--max-total-tokens" _ 7 (inl (refl, ap shown launchable.total)),
  )

  -- The words between --cuda-graph-bs-decode and --page-size are batch sizes up to the number of
  -- requests that may run, that number among them.
  pub build_argv_graphs :
      (n : ℤ) × Covered n
      × Follows "--max-running-requests" (shown n) argv
      × ((before after : List String) × (argv
            ≡ before
              ++ ("--cuda-graph-bs-decode"
                  ∷ (map shown (batch_sizes n) ++ ("--page-size" ∷ after)))))
  build_argv_graphs =
      let q = compiled.profile in
      (
        q.max_running_requests,
        batch_sizes-Covered q.max_running_requests launchable.requests_in,
        late_flag "--max-running-requests" _ 9 (inl (refl, refl)),
        (
          take 49 (words_before_sizes shown shown_float q (text_of (get compiled.model "sha"))),
          drop 1 (
              words_after_sizes shown shown_float q
              ++ (if q.mode =ₛ "nextn" then draft_words shown shown_float q else [])),
          sym compiled.argv_at,
        ),
      )

  -- The end of the command in the mode of the profile.
  ends_in :
      (draft : List String)
      → (if compiled.profile.mode =ₛ "nextn"
          then draft_words shown shown_float compiled.profile
          else [])
        ≡ draft
      → argv
        ≡ words_before_sizes shown shown_float compiled.profile (text_of (get compiled.model "sha"))
          ++ (map shown (batch_sizes compiled.profile.max_running_requests)
              ++ (words_after_sizes shown shown_float compiled.profile ++ draft))
  ends_in draft e =
      sym compiled.argv_at
      ∙ ap
          (λ d.
            words_before_sizes shown shown_float compiled.profile
              (text_of (get compiled.model "sha"))
            ++ (map shown (batch_sizes compiled.profile.max_running_requests)
                ++ (words_after_sizes shown shown_float compiled.profile ++ d)))
          e

  draft_flag :
      (flag value : String) (n : ℕ)
      → compiled.profile.mode ≡ "nextn"
      → Follows flag value (drop n (draft_words shown shown_float compiled.profile))
      → Follows flag value argv
  draft_flag flag value n m f =
      let q = compiled.profile in
      let late = words_after_sizes shown shown_float q in
      let draft = draft_words shown shown_float q in
      let sizes = map shown (batch_sizes q.max_running_requests) in
      subst (λ words. Follows flag value words)
        (sym (ends_in draft (rw ((=ₛ_iff q.mode "nextn").1 m) refl)))
        (Follows-behind flag value
          (words_before_sizes shown shown_float q (text_of (get compiled.model "sha")))
          (sizes ++ (late ++ draft))
          (Follows-behind flag value sizes (late ++ draft)
            (Follows-behind flag value late draft (Follows-drop flag value n draft f))))

  -- A command drafts one to three steps ahead, with one token more than steps, or not at all.
  pub build_argv_draft :
      ((k : ℕ) × (1 ≤ k)
        × (k ≤ 3)
        × Follows "--speculative-num-steps" (shown (pos k)) argv
        × Follows "--speculative-num-draft-tokens" (shown (pos (k + 1))) argv)
      ⊎ ((q : Profile) × (sha : String) × (argv
            ≡ words_before_sizes shown shown_float q sha
              ++ (map shown (batch_sizes q.max_running_requests)
                  ++ words_after_sizes shown shown_float q)))
  build_argv_draft = elim launchable.drafts [
    | inl (m, low, high) ↦
        let (k, e, one, three) = one_to_three compiled.profile.speculative_steps low high in
        inl (
          k,
          one,
          three,
          draft_flag "--speculative-num-steps" _ 2 m (inl (refl, ap shown e)),
          draft_flag "--speculative-num-draft-tokens" _ 6 m
              (inl (refl, ap (λ s. shown (succ_ℤ s)) e)),
        )
    | inr (m, none_drafted) ↦
        let q = compiled.profile in
        inr (
          q,
          text_of (get compiled.model "sha"),
          ends_in [] (rw (ap (λ s. s =ₛ "nextn") m) refl)
              ∙ ap
                  (λ late.
                    words_before_sizes shown shown_float q (text_of (get compiled.model "sha"))
                    ++ (map shown (batch_sizes q.max_running_requests) ++ late))
                  (append-nil (words_after_sizes shown shown_float q)),
        )
  ]
