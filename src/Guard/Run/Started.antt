-- ===== src/Guard/Run/Started.antt =====
-- What came before the start of a container in the session of `run` of scripts/guard.py.
use mathlib.Core.Path.{subst}
use qwen38_flash_next_nvidia.Prelude.{
  ◌≡◌, refl, ap, ℕ, String, Option, none, some, List, [], ◌∷◌, ok, err, inl, inr,
}
use qwen38_flash_next_nvidia.Json.{Fields}
use qwen38_flash_next_nvidia.Guard.{Owner, Watched, returned, raised, watching, watch}
use qwen38_flash_next_nvidia.Guard.Inventory.{Guarded}
use qwen38_flash_next_nvidia.Guard.Session.{
  start_act, create_act, Answers, session, after_start, after_created, after_receipt,
  after_accepted, accept_created, unless_interrupted, watched, after_telemetry,
}
use qwen38_flash_next_nvidia.Profile.CheckLaws.{Among}

module _ (owner : String → Owner) (floor max_watch : ℕ) (argv : List String)
    (receipt_again : Guarded Fields) (answers : Answers) where
  -- What came before the start of a container in its session.
  pub record Started (cid : String) : Type 0 where
    pub created_eq : answers.created ≡ ok cid
    pub doc : Fields
    pub accepted_eq : accept_created owner floor max_watch argv receipt_again answers cid ≡ ok doc
    pub receipt : Fields
    pub receipt_eq : receipt_again ≡ ok receipt

  after_start-acts :
      (cid : String) (r : Guarded (Unit {0}))
      → (after_start owner floor max_watch argv receipt_again answers cid r).acts
        ≡ create_act argv ∷ start_act cid ∷ []
  after_start-acts cid (err e) = refl
  after_start-acts cid (ok u) = with_telemetry answers.telemetry_opened
    where
      with_watch :
          (w : Watched)
          → (watched owner floor max_watch argv receipt_again answers cid w).acts
            ≡ create_act argv ∷ start_act cid ∷ []
      with_watch (returned rc) = refl
      with_watch (raised e) = refl
      with_watch (watching low) = refl

      with_telemetry :
          (r : Guarded (Unit {0}))
          → (after_telemetry owner floor max_watch argv receipt_again answers cid r).acts
            ≡ create_act argv ∷ start_act cid ∷ []
      with_telemetry (err e) = refl
      with_telemetry (ok u) = with_watch (watch (owner cid) floor max_watch 0 answers.rounds)

  not_created_only : (cid : String) → Among (start_act cid) (create_act argv ∷ []) → ⊥
  not_created_only cid (inl e) = cc
  not_created_only cid (inr e) = e

  only_start :
      (cid new : String) → Among (start_act cid) (create_act argv ∷ start_act new ∷ []) → new ≡ cid
  only_start cid new (inl e) = cc
  only_start cid new (inr (inl e)) = cc
  only_start cid new (inr (inr e)) = absurd e

  after_receipt-start :
      (cid new : String) (r : Guarded Fields)
      → Among
          (start_act cid)
          (after_receipt owner floor max_watch argv receipt_again answers new r).acts
      → (new ≡ cid) × ((receipt : Fields) × (r ≡ ok receipt))
  after_receipt-start cid new (err e) h = absurd (not_created_only cid h)
  after_receipt-start cid new (ok receipt) h = (
    only_start cid new
        (subst (λ acts. Among (start_act cid) acts) (after_start-acts new answers.started) h),
    (receipt, refl),
  )

  after_accepted-start :
      (cid new : String) (r : Guarded Fields)
      → Among
          (start_act cid)
          (after_accepted owner floor max_watch argv receipt_again answers new r).acts
      → (new ≡ cid)
        × ((doc : Fields) × (r ≡ ok doc))
        × ((receipt : Fields) × (receipt_again ≡ ok receipt))
  after_accepted-start cid new (err e) h = absurd (not_created_only cid h)
  after_accepted-start cid new (ok doc) h =
      let (same, r) = unless answers.signal_after h in (same, (doc, refl), r)
    where
      unless :
          (signal : Option ℕ)
          → Among
              (start_act cid)
              (unless_interrupted owner floor max_watch argv receipt_again answers new signal).acts
          → (new ≡ cid) × ((receipt : Fields) × (receipt_again ≡ ok receipt))
      unless (some number) h = absurd (not_created_only cid h)
      unless none h = after_receipt-start cid new receipt_again h

  after_created-start :
      (cid : String) (r : Guarded String)
      → Among
          (start_act cid)
          (after_created owner floor max_watch argv receipt_again answers r).acts
      → (r ≡ ok cid)
        × ((doc : Fields) × (accept_created owner floor max_watch argv receipt_again answers cid
              ≡ ok doc))
        × ((receipt : Fields) × (receipt_again ≡ ok receipt))
  after_created-start cid (err e) h = absurd (not_created_only cid h)
  after_created-start cid (ok new) h =
      let (same, (doc, a), r) =
        after_accepted-start cid new
          (accept_created owner floor max_watch argv receipt_again answers new) h in
      (
        ap ok same,
        (
          doc,
          subst (λ c. accept_created owner floor max_watch argv receipt_again answers c ≡ ok doc)
              same a,
        ),
        r,
      )

  pub session-Started :
      (cid : String) (signal : Option ℕ)
      → Among (start_act cid) (session owner floor max_watch argv receipt_again answers signal).acts
      → Started cid
  unfolding session
  session-Started cid (some number) h = absurd h
  session-Started cid none h =
      let (a, (doc, b), (receipt, c)) = after_created-start cid answers.created h in
      record { created_eq = a; doc = doc; accepted_eq = b; receipt = receipt; receipt_eq = c }
