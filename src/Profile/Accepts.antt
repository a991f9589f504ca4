-- ===== src/Profile/Accepts.antt =====
-- The checks of runtime/__init__.py accept exactly the profiles that meet the contract.
use qwen38_flash_next_nvidia.Prelude.{
  String, ◌≡◌, refl, inl, inr, ◌↔◌, Bool, false, Option, none, some, [], ◌∷◌, pos, ok, arith,
  Option-cases, bound, passed, eqb_ℤ, eqb_ℤ_iff, ◌=ₛ◌, =ₛ_iff,
}
use qwen38_flash_next_nvidia.Json.{Value, null, bool, obj, Fields, get, keys_are, keys_within}
use qwen38_flash_next_nvidia.Profile.Checks.{
  require_int, optional_int, require_enum, optional_enum, one_of,
}
use qwen38_flash_next_nvidia.Profile.CheckLaws.{
  Among, one_of_iff, require_int_iff, require_enum_iff,
}
use qwen38_flash_next_nvidia.Profile.Contract.{Speculation, Identity, Vision, Rest, MeetsContract}
use qwen38_flash_next_nvidia.Profile.Limited.{
  optional_rule, rule_optional, optional_text, text_optional, check_limits_sound,
  check_limits_complete,
}
use qwen38_flash_next_nvidia.Profile.Drafted.{check_draft_sound, check_draft_complete}
use qwen38_flash_next_nvidia.Profile.Validate.{
  ple_rss_rule, mm_worker_rule, graph_backends, vision_backends, boolean, modes,
  context_length_allowed, check_identity, check_limits, check_speculative, vision_object,
  check_tail, known, validate_fields,
}

check_identity_sound :
    (raw : Fields) (mode : String) → check_identity raw ≡ ok mode → Identity raw mode
unfolding check_identity
check_identity_sound raw mode h = bound (require_int raw "schema") _ h λ schema e₁ h₁.
    passed (eqb_ℤ schema (pos 1)) _ _ h₁ λ e₂ h₂.
      bound (require_enum raw "mode" modes) _ h₂ λ m e₃ h₃.
        bound (require_int raw "context_length") _ h₃ λ context e₄ h₄.
          passed (one_of context context_length_allowed) _ _ h₄ λ e₅ h₅.
            bound (require_int raw "max_total_tokens") _ h₅ λ total e₆ h₆.
              passed (eqb_ℤ total context) _ _ h₆ λ e₇ h₇.
                let same : m ≡ mode = cc in
                record {
                  context = context;
                  schema_at =
                      cc (
                        (require_int_iff raw "schema" schema).0 e₁,
                        (eqb_ℤ_iff schema (pos 1)).0 e₂,
                      );
                  mode_at = rw same at ((require_enum_iff raw "mode" modes m).0 e₃).0;
                  mode_in = rw same at ((require_enum_iff raw "mode" modes m).0 e₃).1;
                  context_at = (require_int_iff raw "context_length" context).0 e₄;
                  context_in = (one_of_iff context context_length_allowed).0 e₅;
                  total_at = cc (
                    (require_int_iff raw "max_total_tokens" total).0 e₆,
                    (eqb_ℤ_iff total context).0 e₇,
                  );
                }

check_identity_complete :
    (raw : Fields) (mode : String) → Identity raw mode → check_identity raw ≡ ok mode
unfolding check_identity
check_identity_complete raw mode c = rw (
  (require_int_iff raw "schema" (pos 1)).1 c.schema_at,
  (require_enum_iff raw "mode" modes mode).1 (c.mode_at, c.mode_in),
  (require_int_iff raw "context_length" c.context).1 c.context_at,
  (one_of_iff c.context context_length_allowed).1 c.context_in,
  (require_int_iff raw "max_total_tokens" c.context).1 c.total_at,
  (eqb_ℤ_iff c.context c.context).1 refl,
)

boolean_sound : (v : Option Value) → boolean v ≡ ok tt → (b : Bool) × (v ≡ some (bool b))
unfolding boolean
boolean_sound (some (bool b)) h = (b, refl)
boolean_sound none h = cc
boolean_sound (some _) h = cc

vision_object-sound : (raw : Fields) → vision_object (get raw "vision") ≡ ok tt → Vision raw
unfolding vision_object
vision_object-sound raw h = elim (Option-cases (get raw "vision")) [
  | inl e ↦ absurd (ground arith)
  | inr (obj vision, e) ↦
      passed (keys_are vision ("backend" ∷ "cuda_graph" ∷ [])) _ _ (rw e at h) λ exact h₁.
        bound (require_enum vision "backend" vision_backends) _ h₁ λ b e₁ h₂.
          let (graph, e₂) = boolean_sound (get vision "cuda_graph") h₂ in
          record {
            vision = vision;
            backend = b;
            cuda_graph = graph;
            vision_at = e;
            exact = exact;
            backend_at = ((require_enum_iff vision "backend" vision_backends b).0 e₁).0;
            backend_in = ((require_enum_iff vision "backend" vision_backends b).0 e₁).1;
            graph_at = e₂;
          }
  | inr (v, e) ↦ absurd (ground arith)
]

vision_object_complete : (raw : Fields) → Vision raw → vision_object (get raw "vision") ≡ ok tt
unfolding vision_object boolean
vision_object_complete raw c = rw (
  c.vision_at,
  c.exact,
  (require_enum_iff c.vision "backend" vision_backends c.backend).1 (c.backend_at, c.backend_in),
  c.graph_at,
)

check_tail_sound : (raw : Fields) → check_tail raw ≡ ok tt → Rest raw
unfolding check_tail
check_tail_sound raw h = bound (optional_int raw "ple_rss_gib" ple_rss_rule) _ h λ n₁ e₁ h₁.
    bound (optional_int raw "mm_processor_worker_num" mm_worker_rule) _ h₁ λ n₂ e₂ h₂.
      passed (keys_within raw known) _ _ h₂ λ closed h₃.
        bound (optional_enum raw "decode_graph_backend" graph_backends "full") _ h₃ λ g e₄ h₄.
          record {
            ple = optional_rule raw _ ple_rss_rule _ (λ n p. p.0) n₁ e₁;
            workers = optional_rule raw _ mm_worker_rule _ (λ n p. p.0) n₂ e₂;
            closed = closed;
            graphs = optional_text raw _ graph_backends _ g e₄;
          }

check_tail_complete : (raw : Fields) → Rest raw → check_tail raw ≡ ok tt
unfolding check_tail
check_tail_complete raw c =
    let (n₁, e₁) =
      rule_optional raw "ple_rss_gib" ple_rss_rule _ (pos 8) refl (λ n p. (p, tt, tt)) c.ple in
    let (n₂, e₂) =
      rule_optional raw "mm_processor_worker_num" mm_worker_rule _ (pos 1) refl (λ n p. (p, tt, tt))
        c.workers in
    let (g, e₄) = text_optional raw "decode_graph_backend" graph_backends "full" c.graphs in
    rw (e₁, e₂, c.closed, e₄)

not_nextn : (mode : String) → mode ≡ "ar" → (mode =ₛ "nextn") ≡ false
not_nextn mode p = rw p

check_speculative_sound :
    (raw : Fields) (mode dtype : String)
    → Among mode modes
    → check_speculative raw mode dtype ≡ ok tt
    → Speculation raw mode dtype
unfolding check_speculative
check_speculative_sound raw mode dtype (inl p) h = elim (Option-cases (get raw "speculative")) [
  | inl e ↦ inr (p, inl e)
  | inr (null, e) ↦ inr (p, inr e)
  | inr (v, e) ↦ absurd (ground (arith, not_nextn mode p))
]
check_speculative_sound raw mode dtype (inr (inl p)) h =
    elim (Option-cases (get raw "speculative")) [
      | inl e ↦ absurd (ground (arith, =ₛ_iff mode "nextn"))
      | inr (obj spec, e) ↦
          inl (p, (spec, e, check_draft_sound spec dtype (ground (arith, =ₛ_iff mode "nextn"))))
      | inr (v, e) ↦ absurd (ground (arith, =ₛ_iff mode "nextn"))
    ]
check_speculative_sound raw mode dtype (inr (inr p)) h = absurd p

check_speculative_complete :
    (raw : Fields) (mode dtype : String)
    → Speculation raw mode dtype
    → check_speculative raw mode dtype ≡ ok tt
unfolding check_speculative
check_speculative_complete raw mode dtype (inl (p, (spec, e, d))) =
    rw (p, e) (check_draft_complete spec dtype d)
check_speculative_complete raw mode dtype (inr (p, inl e)) = rw (p, e)
check_speculative_complete raw mode dtype (inr (p, inr e)) = rw (p, e)

pub validate_fields_sound : (raw : Fields) → validate_fields raw ≡ ok tt → MeetsContract raw
unfolding validate_fields
validate_fields_sound raw h = bound (check_identity raw) _ h λ mode e₁ h₁.
    bound (check_limits raw) _ h₁ λ dtype e₂ h₂.
      bound (check_speculative raw mode dtype) _ h₂ λ _ e₃ h₃.
        bound (vision_object (get raw "vision")) _ h₃ λ _ e₄ h₄.
          let identity = check_identity_sound raw mode e₁ in
          record {
            mode = mode;
            dtype = dtype;
            identity = identity;
            limits = check_limits_sound raw dtype e₂;
            speculation = check_speculative_sound raw mode dtype identity.mode_in e₃;
            vision = vision_object-sound raw e₄;
            rest = check_tail_sound raw h₄;
          }

pub validate_fields_complete : (raw : Fields) → MeetsContract raw → validate_fields raw ≡ ok tt
unfolding validate_fields
validate_fields_complete raw c = rw (
  check_identity_complete raw c.mode c.identity,
  check_limits_complete raw c.dtype c.limits,
  check_speculative_complete raw c.mode c.dtype c.speculation,
  vision_object_complete raw c.vision,
  check_tail_complete raw c.rest,
)

-- The checks behind the parser accept the fields of a profile exactly when they meet the contract.
pub validate_fields_iff : (raw : Fields) → (validate_fields raw ≡ ok tt) ↔ MeetsContract raw
validate_fields_iff raw = (validate_fields_sound raw, validate_fields_complete raw)
