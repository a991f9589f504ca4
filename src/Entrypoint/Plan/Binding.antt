-- ===== src/Entrypoint/Plan/Binding.antt =====
-- What an accepted plan is bound to (`bind_ple_plan` of runtime/entrypoint.py).
use mathlib.Core.Path.{subst}
use qwen38_flash_next_nvidia.Json.Lookup.{text_is-eq-true}
use qwen38_flash_next_nvidia.Prelude.{
  refl, String, ◌≡◌, true, some, List, [], ◌∷◌, ok, ℕ, passed, bound, false, ap, ◌∙◌, arith, All,
  ◌++◌, Bool-cases, inl, inr, All-append,
}
use qwen38_flash_next_nvidia.Json.{
  Value, str, arr, Items, Fields, get, text_is, obj, hex_at, int, nil,
}
use qwen38_flash_next_nvidia.Entrypoint.{
  checked_sources, plan_refusal, Option, Bool, err, require, obj, hex_at, model_id,
}
use qwen38_flash_next_nvidia.Entrypoint.Plan.{
  SourceFile, Bound, plan_keys, bind_row, bind_ple_plan, bind_plan_model, bind_plan_source,
  bind_plan_geometry, bind_plan_inventory, rows_named, items_of, only_row, int_is, plan_object,
  Plan, keys_are, ple_source_name, plan_int, plan_sha256, int, pos, entry_named, cons,
}
use qwen38_flash_next_nvidia.Entrypoint.Plan.Lookups.{
  plan_object-eq-ok, plan_int-eq-ok, plan_sha256-eq-ok, hex_text,
}
use qwen38_flash_next_nvidia.Entrypoint.Plan.Shards.{Complete, bind_plan_inventory-Complete}

-- The one row of a lock's files that names a file, with its size and digest.
pub record Locked (model : Fields) (source : SourceFile) : Type 0 where
  pub files : Items
  pub files_eq : get model "files" ≡ some (arr files)
  pub row : Fields
  pub row_only : rows_named source.name files ≡ ok (row ∷ [])
  pub row_path : get row "path" ≡ some (str source.name)
  pub row_size : int_is source.size (get row "size") ≡ true
  pub row_sha256 : get row "sha256" ≡ some (str source.sha256)

-- What the plan itself says of its file and of its table.
pub record FromPlan (plan : Fields) (source_ : SourceFile) : Type 0 where
  pub source : Fields
  pub source_eq : get plan "source" ≡ some (obj source)
  pub name_eq : get source "name" ≡ some (str source_.name)
  pub size_eq : get source "size" ≡ some (int source_.size)
  pub sha256_eq : get source "sha256" ≡ some (str source_.sha256)

-- A plan of the lock's revision, with every shard once, of a file of the lock.
pub record IsBound (plan : Fields) (sources : Value) (bound_ : Bound) : Type 0 where
  pub model : Fields
  pub model_eq : checked_sources sources ≡ ok model
  pub revision : String
  pub plan_model : Fields
  pub plan_model_eq : get plan "model" ≡ some (obj plan_model)
  pub revision_eq : get plan_model "revision" ≡ some (str revision)
  pub same_revision : get model "sha" ≡ some (str revision)
  pub from_plan : FromPlan plan bound_.source
  pub locked : Locked model bound_.source
  pub shards : Items
  pub shards_eq : get plan "shards" ≡ some (arr shards)
  pub ids : List ℕ
  pub every_shard : Complete shards ids

abbrev source_or : Plan Bound → SourceFile → SourceFile
source_or (ok b) s = b.source
source_or (err e) s = s

accepted : (b : Bool) → require b plan_refusal ≡ ok tt → b ≡ true
accepted true h = refl
accepted false h = cc

abbrev HasPath : String → Fields → Type 0
HasPath name row = get row "path" ≡ some (str name)

entry_named-path :
    (name : String) (v : Value) (rows : List Fields)
    → entry_named name v ≡ ok rows
    → All (HasPath name) rows
entry_named-path name (obj entry) rows h = elim (Bool-cases (text_is (get entry "path") name)) [
  | inl e ↦
      let same : entry ∷ [] ≡ rows = ground arith in
      subst (λ l. All (HasPath name) l) same (text_is-eq-true (get entry "path") name e, tt)
  | inr e ↦ let same : [] ≡ rows = ground arith in subst (λ l. All (HasPath name) l) same tt
]
entry_named-path name _ rows h = cc

rows_named-path :
    (name : String) (vs : Items) (rows : List Fields)
    → rows_named name vs ≡ ok rows
    → All (HasPath name) rows
unfolding rows_named
rows_named-path name nil rows h =
    let same : [] ≡ rows = cc in subst (λ l. All (HasPath name) l) same tt
rows_named-path name (cons v vs) rows h = bound (entry_named name v) _ h λ here a h₁.
    bound (rows_named name vs) _ h₁ λ rest b h₂.
      let same : here ++ rest ≡ rows = cc in
      subst (λ l. All (HasPath name) l) same
        (All-append (HasPath name) here rest (entry_named-path name v here a)
          (rows_named-path name vs rest b))

bind_row-Locked :
    (model : Fields) (source : SourceFile) → bind_row model source ≡ ok tt → Locked model source
unfolding bind_row
bind_row-Locked model source h = bound (items_of (get model "files")) _ h λ files a h₁.
    bound (rows_named source.name files) _ h₁ λ rows b h₂. bound (only_row rows) _ h₂ λ row c h₃.
      passed (int_is source.size (get row "size")) _ _ h₃ λ d h₄. record {
        files = files;
        files_eq = items_of-eq-ok (get model "files") files a;
        row = row;
        row_only = b ∙ ap ok (only_row-eq-ok rows row c);
        row_path =
            (subst (λ l. All (HasPath source.name) l) (only_row-eq-ok rows row c)
              (rows_named-path source.name files rows b)).0;
        row_size = d;
        row_sha256 =
            text_is-eq-true (get row "sha256") source.sha256
              (accepted (text_is (get row "sha256") source.sha256) h₄);
      }
  where
    items_of-eq-ok : (o : Option Value) (vs : Items) → items_of o ≡ ok vs → o ≡ some (arr vs)
    items_of-eq-ok (some (arr ws)) vs h = cc
    items_of-eq-ok _ vs h = cc

    only_row-eq-ok : (rows : List Fields) (row : Fields) → only_row rows ≡ ok row → rows ≡ row ∷ []
    only_row-eq-ok (r ∷ []) row h = cc
    only_row-eq-ok _ row h = cc

bind_plan_model-revision :
    (plan : Fields) (revision : String)
    → bind_plan_model plan ≡ ok revision
    → (model : Fields) × (get plan "model" ≡ some (obj model))
      × (get model "revision" ≡ some (str revision))
unfolding bind_plan_model
bind_plan_model-revision plan revision h = bound (plan_object plan "model") _ h λ model a h₁.
    passed (keys_are model ("id" ∷ "revision" ∷ [])) _ _ h₁ λ b h₂.
      passed (text_is (get model "id") model_id) _ _ h₂ λ c h₃.
        passed (hex_at 40 (get model "revision")) _ _ h₃ λ d h₄. (
          model,
          plan_object-eq-ok plan "model" model a,
          hex_text (get model "revision") revision d cc,
        )

bind_plan_source-FromPlan :
    (plan : Fields) (source_ : SourceFile)
    → bind_plan_source plan ≡ ok source_
    → FromPlan plan source_
unfolding bind_plan_source
bind_plan_source-FromPlan plan source_ h = bound (plan_object plan "source") _ h λ source a h₁.
    passed (keys_are source ("name" ∷ "size" ∷ "sha256" ∷ "header_sha256" ∷ "data_start" ∷ [])) _ _
      h₁
      λ b h₂. passed (text_is (get source "name") ple_source_name) _ _ h₂ λ c h₃.
        bound (plan_int source "size" (pos 1)) _ h₃ λ size d h₄.
          bound (plan_sha256 source "sha256") _ h₄ λ sha256 e h₅.
            bound (plan_sha256 source "header_sha256") _ h₅ λ header f h₆.
              bound (plan_int source "data_start" (pos 0)) _ h₆ λ start g h₇.
                let same : record { name = ple_source_name; size = size; sha256 = sha256 }
                    ≡ source_ =
                  cc in
                subst (FromPlan plan) same (record {
                  source = source;
                  source_eq = plan_object-eq-ok plan "source" source a;
                  name_eq = text_is-eq-true (get source "name") ple_source_name c;
                  size_eq = plan_int-eq-ok source "size" (pos 1) size d;
                  sha256_eq = plan_sha256-eq-ok source "sha256" sha256 e;
                })

-- An accepted plan is of the revision of the lock and has each of the 128 shards once. The name, the
-- size and the digest of its `source` are those of the file it is bound to, and that file is the one
-- row of its name in the lock, with the same size and digest.
pub bind_ple_plan-IsBound :
    (plan : Fields) (sources : Value) (bound_ : Bound)
    → bind_ple_plan plan sources ≡ ok bound_
    → IsBound plan sources bound_
unfolding bind_ple_plan
bind_ple_plan-IsBound plan sources bound_ h = passed (keys_are plan plan_keys) _ _ h λ a h₁.
    passed (text_is (get plan "schema") "qwen38fn.ple-plan.v1") _ _ h₁ λ b h₂.
      bound (checked_sources sources) _ h₂ λ model c h₃.
        bound (bind_plan_model plan) _ h₃ λ revision d h₄.
          passed (text_is (get model "sha") revision) _ _ h₄ λ e h₅.
            bound (bind_plan_source plan) _ h₅ λ source f h₆.
              bound (bind_plan_geometry plan) _ h₆ λ u g h₇.
                bound (bind_plan_inventory plan) _ h₇ λ ids i h₈.
                  bound (bind_row model source) _ h₈ λ v j h₉.
                    bound (plan_object plan "table") _ h₉ λ table k hₐ.
                      let (shards, l, m) = bind_plan_inventory-Complete plan ids i in
                      let (plan_model, n, o) = bind_plan_model-revision plan revision d in
                      let same : source ≡ bound_.source = ap (λ r. source_or r source) hₐ in
                      record {
                        model = model;
                        model_eq = c;
                        revision = revision;
                        plan_model = plan_model;
                        plan_model_eq = n;
                        revision_eq = o;
                        same_revision = text_is-eq-true (get model "sha") revision e;
                        from_plan =
                            subst (FromPlan plan) same (bind_plan_source-FromPlan plan source f);
                        locked = subst (Locked model) same (bind_row-Locked model source j);
                        shards = shards;
                        shards_eq = l;
                        ids = ids;
                        every_shard = m;
                      }
