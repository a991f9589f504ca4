-- ===== src/Entrypoint/Plan.antt =====
-- The checks of the PLE plan in runtime/entrypoint.py, and `bind_ple_plan`.
pub mod Shards
pub mod Lookups
pub mod Binding
use qwen38_flash_next_nvidia.Prelude.{
  ℕ, zero, suc, String, Bool, true, false, not, ◌&&◌, Option, none, some, List, [], ◌∷◌, ℤ, pos,
  ltb_ℤ, eqb_ℤ, ltb, ◌==◌, ◌=ₛ◌, all, Result, ok, err, ◌>>=◌, ◌>>◌, require, refuse, is_hex,
  if◌then◌else◌, ◌++◌,
}
use qwen38_flash_next_nvidia.Json.{
  Value, int, str, arr, obj, Items, nil, cons, Fields, get, keys_are, text_is, hex_at,
}
use qwen38_flash_next_nvidia.Entrypoint.{
  Refusal, plan_refusal, as_object, checked_sources, model_id, text_of,
}

abbrev pub Plan : Type 0 → Type 0
Plan = Result Refusal

-- `isinstance(value, str) and value`
unfoldable pub some_text : Option Value → Bool
some_text (some (str s)) = not (s =ₛ "")
some_text _ = false

-- `_plan_str`
unfoldable pub plan_str : Fields → String → Plan String
unfolding some_text text_of
plan_str plan key = do require (some_text (get plan key)) plan_refusal; ok (text_of (get plan key))

-- `_plan_sha256`
unfoldable pub plan_sha256 : Fields → String → Plan String
plan_sha256 plan key = do
  value ← plan_str plan key
  require (is_hex 64 value) plan_refusal
  ok value

abbrev pub int_at_least : ℤ → Option Value → Plan ℤ
int_at_least minimum (some (int n)) = if ltb_ℤ n minimum then err plan_refusal else ok n
int_at_least minimum _ = err plan_refusal

-- `_plan_int`
unfoldable pub plan_int : Fields → String → ℤ → Plan ℤ
plan_int plan key minimum = int_at_least minimum (get plan key)

-- `_plan_int(plan, key) != n`
unfoldable pub plan_int_is : Fields → String → ℕ → Plan (Unit {0})
unfolding plan_int
plan_int_is plan key n = do
  value ← plan_int plan key (pos 0)
  require (eqb_ℤ value (pos n)) plan_refusal

-- `_plan_object`
abbrev pub plan_object : Fields → String → Plan Fields
plan_object plan key = as_object plan_refusal (get plan key)

-- `_bind_plan_model`
unfoldable pub bind_plan_model : Fields → Plan String
bind_plan_model plan = do
  model ← plan_object plan "model"
  require (keys_are model ("id" ∷ "revision" ∷ [])) plan_refusal
  require (text_is (get model "id") model_id) plan_refusal
  require (hex_at 40 (get model "revision")) plan_refusal
  ok (text_of (get model "revision"))

-- What `_bind_plan_source` returns.
pub record SourceFile : Type 0 where
  pub name : String
  pub size : ℤ
  pub sha256 : String

abbrev pub ple_source_name : String
ple_source_name = "model-fp8-mtp-ple.safetensors"

-- `_bind_plan_source`
unfoldable pub bind_plan_source : Fields → Plan SourceFile
unfolding plan_sha256 plan_int
bind_plan_source plan = do
  source ← plan_object plan "source"
  require (keys_are source ("name" ∷ "size" ∷ "sha256" ∷ "header_sha256" ∷ "data_start" ∷ []))
      plan_refusal
  require (text_is (get source "name") ple_source_name) plan_refusal
  size ← plan_int source "size" (pos 1)
  sha256 ← plan_sha256 source "sha256"
  _ ← plan_sha256 source "header_sha256"
  _ ← plan_int source "data_start" (pos 0)
  ok (record { name = ple_source_name; size = size; sha256 = sha256 })

-- A list of two integers that are the rows and the width of the table.
abbrev pub is_table_shape : Option Value → Bool
is_table_shape (some (arr (cons (int rows) (cons (int width) nil)))) =
    eqb_ℤ rows (pos 320001536) && eqb_ℤ width (pos 160)
is_table_shape _ = false

abbrev pub table_size : ℕ
table_size = 51200245760

-- `_bind_plan_geometry`, its part on the table
unfoldable pub bind_plan_table : Fields → Plan (Unit {0})
unfolding plan_sha256 plan_int_is some_text
bind_plan_table plan = do
  table ← plan_object plan "table"
  require (keys_are table ("name" ∷ "shape" ∷ "size" ∷ "sha256" ∷ [])) plan_refusal
  require (some_text (get table "name")) plan_refusal
  require (is_table_shape (get table "shape")) plan_refusal
  _ ← plan_int_is table "size" table_size
  _ ← plan_sha256 table "sha256"
  ok tt

-- and on the scale
unfoldable pub bind_plan_scale : Fields → Plan (Unit {0})
unfolding plan_sha256 plan_int some_text
bind_plan_scale plan = do
  scale ← plan_object plan "scale"
  require (keys_are scale ("name" ∷ "offset" ∷ "size" ∷ "sha256" ∷ [])) plan_refusal
  require (some_text (get scale "name")) plan_refusal
  _ ← plan_int scale "offset" (pos 0)
  _ ← plan_int scale "size" (pos 1)
  _ ← plan_sha256 scale "sha256"
  ok tt

abbrev pub shard_count : ℕ
shard_count = 128

-- `_bind_plan_geometry`
unfoldable pub bind_plan_geometry : Fields → Plan (Unit {0})
unfolding plan_str plan_int_is bind_plan_table bind_plan_scale
bind_plan_geometry plan = do
  prefix ← plan_str plan "tensor_prefix"
  require (prefix =ₛ "model.language_model.layers.1.ple.ple_embedding.ngram_embedding") plan_refusal
  dtype ← plan_str plan "dtype"
  require (dtype =ₛ "F8_E4M3") plan_refusal
  _ ← plan_int_is plan "shard_count" shard_count
  _ ← plan_int_is plan "rows_per_shard" 2500012
  _ ← plan_int_is plan "row_width" 160
  _ ← bind_plan_table plan
  bind_plan_scale plan

-- `n in seen`
unfoldable pub seen_in : ℕ → List ℕ → Bool
seen_in n [] = false
seen_in n (m ∷ seen) = if m == n then true else seen_in n seen

abbrev pub shard_id : Option Value → Plan ℕ
shard_id (some (int (pos n))) = ok n
shard_id _ = err plan_refusal

-- One round of the loop over the shards: its id, new among those seen.
unfoldable pub bind_shard : List ℕ → Value → Plan ℕ
unfolding seen_in plan_sha256 plan_int some_text
bind_shard seen shard = do
  row ← as_object plan_refusal (some shard)
  require (keys_are row ("id" ∷ "name" ∷ "offset" ∷ "size" ∷ "sha256" ∷ [])) plan_refusal
  id ← shard_id (get row "id")
  refuse (seen_in id seen) plan_refusal
  require (some_text (get row "name")) plan_refusal
  _ ← plan_int row "offset" (pos 0)
  _ ← plan_int row "size" (pos 1)
  _ ← plan_sha256 row "sha256"
  ok id

-- The loop, with the ids seen so far.
unfoldable pub bind_shards : List ℕ → Items → Plan (List ℕ)
unfolding bind_shard
bind_shards seen nil = ok seen
bind_shards seen (cons shard shards) = do id ← bind_shard seen shard; bind_shards (id ∷ seen) shards

-- `range(n)`, from the last
unfoldable pub below_all : ℕ → (ℕ → Bool) → Bool
below_all zero test = true
below_all (suc n) test = test n && below_all n test

-- `seen == set(range(PLE_SHARD_COUNT))`
unfoldable pub covers : ℕ → List ℕ → Bool
unfolding below_all seen_in
covers count seen = all (λ n. ltb n count) seen && below_all count (λ n. seen_in n seen)

abbrev pub nonempty_items : Option Value → Plan Items
nonempty_items (some (arr (cons v vs))) = ok (cons v vs)
nonempty_items _ = err plan_refusal

-- `_bind_plan_inventory`
unfoldable pub bind_plan_inventory : Fields → Plan (List ℕ)
unfolding bind_shards covers
bind_plan_inventory plan = do
  shards ← nonempty_items (get plan "shards")
  seen ← bind_shards [] shards
  require (covers shard_count seen) plan_refusal
  ok seen

-- `[entry for entry in inventory if entry.get("path") == name]`, for objects only.
abbrev pub entry_named : String → Value → Plan (List Fields)
entry_named name (obj entry) = ok (if text_is (get entry "path") name then entry ∷ [] else [])
entry_named name _ = err plan_refusal

unfoldable pub rows_named : String → Items → Plan (List Fields)
rows_named name nil = ok []
rows_named name (cons v vs) = do
  here ← entry_named name v
  rest ← rows_named name vs
  ok (here ++ rest)

abbrev pub items_of : Option Value → Plan Items
items_of (some (arr vs)) = ok vs
items_of _ = err plan_refusal

abbrev pub only_row : List Fields → Plan Fields
only_row (row ∷ []) = ok row
only_row _ = err plan_refusal

abbrev pub int_is : ℤ → Option Value → Bool
int_is n (some (int m)) = eqb_ℤ m n
int_is n _ = false

-- The integer of a field that has been checked to be one.
abbrev pub int_of : Option Value → ℤ
int_of (some (int n)) = n
int_of _ = pos 0

-- What `bind_ple_plan` returns.
pub record Bound : Type 0 where
  pub source : SourceFile
  pub table_sha256 : String
  pub table_bytes : ℤ

abbrev pub plan_keys : List String
plan_keys =
    "schema" ∷ "model" ∷ "source" ∷ "tensor_prefix" ∷ "dtype" ∷ "shard_count" ∷ "rows_per_shard"
    ∷ "row_width" ∷ "table" ∷ "scale" ∷ "shards" ∷ []

-- The row of the sources lock that the plan's file must be.
unfoldable pub bind_row : Fields → SourceFile → Plan (Unit {0})
unfolding rows_named
bind_row model source = do
  inventory ← items_of (get model "files")
  rows ← rows_named source.name inventory
  row ← only_row rows
  require (int_is source.size (get row "size")) plan_refusal
  require (text_is (get row "sha256") source.sha256) plan_refusal

-- `bind_ple_plan`
unfoldable pub bind_ple_plan : Fields → Value → Plan Bound
unfolding bind_plan_model bind_plan_source bind_plan_geometry bind_plan_inventory bind_row text_of
bind_ple_plan plan sources = do
  require (keys_are plan plan_keys) plan_refusal
  require (text_is (get plan "schema") "qwen38fn.ple-plan.v1") plan_refusal
  model ← checked_sources sources
  revision ← bind_plan_model plan
  require (text_is (get model "sha") revision) plan_refusal
  source ← bind_plan_source plan
  _ ← bind_plan_geometry plan
  _ ← bind_plan_inventory plan
  _ ← bind_row model source
  table ← plan_object plan "table"
  ok (record {
    source = source;
    table_sha256 = text_of (get table "sha256");
    table_bytes = int_of (get table "size");
  })
