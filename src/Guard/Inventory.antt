-- ===== src/Guard/Inventory.antt =====
-- `read_json` and `source_inventory` of scripts/guard.py.
use qwen38_flash_next_nvidia.Entrypoint.{as_object, text_of, model_id}
use qwen38_flash_next_nvidia.Entrypoint.Prepared.{floats_finite}
use qwen38_flash_next_nvidia.Json.Loads.{Hooks, Syntax, build}
use qwen38_flash_next_nvidia.Json.{
  Value, int, str, obj, arr, null, Items, nil, cons, Fields, get, text_is, hex_at,
}
use qwen38_flash_next_nvidia.Prelude.{
  ℕ, String, Bool, true, false, not, ◌&&◌, ◌||◌, Option, none, some, List, [], ◌∷◌, ◌++◌, pos, ltb,
  leb, ◌==◌, all, codes, Result, ok, err, ◌>>=◌, ◌>>◌, require, refuse, if◌then◌else◌, ◌=ₛ◌,
}
use qwen38_flash_next_nvidia.Guard.{GuardError, launch_error, value_error}

abbrev pub Guarded : Type 0 → Type 0
Guarded = Result GuardError

-- `_pairs` and `_constant`
abbrev pub guard_hooks : Hooks GuardError
guard_hooks = record { duplicate = λ k. launch_error; nonfinite = λ t. launch_error }

-- A file's bytes: their number, what the JSON parser makes of them, and their SHA-256.
pub record Raw : Type 0 where
  pub size : ℕ
  pub text : Option Syntax
  pub sha256 : String

abbrev pub parse_json : Option Syntax → Guarded Value
parse_json none = err value_error
parse_json (some text) = require (floats_finite text) launch_error >> build guard_hooks text

-- `read_json`, with the limit of 16 MiB that every call has
unfoldable pub read_json : Guarded Raw → Guarded (Value × Raw)
unfolding floats_finite
read_json file = do
  raw ← file
  refuse (ltb 16777216 raw.size) launch_error
  value ← parse_json raw.text
  ok (value, raw)

-- `require_hex`
unfoldable pub require_hex : Option Value → ℕ → Guarded String
require_hex value length = do require (hex_at length value) launch_error; ok (text_of value)

abbrev pub add_code : ℕ → List (List ℕ) → List (List ℕ)
add_code c [] = (c ∷ []) ∷ []
add_code c (part ∷ parts) = (c ∷ part) ∷ parts

unfoldable pub split_slash : List ℕ → List (List ℕ)
split_slash [] = [] ∷ []
split_slash (c ∷ cs) = let rest = split_slash cs in if c == b'/' then [] ∷ rest else add_code c rest

unfoldable pub same_codes : List ℕ → List ℕ → Bool
same_codes [] [] = true
same_codes (a ∷ cs) (b ∷ ds) = a == b && same_codes cs ds
same_codes _ _ = false

-- A part that `pathlib` drops: none, or a dot.
abbrev pub is_dropped : List ℕ → Bool
is_dropped part = same_codes part [] || same_codes part (codes ".")

unfoldable pub kept_parts : List (List ℕ) → List (List ℕ)
unfolding same_codes
kept_parts [] = []
kept_parts (part ∷ parts) =
    let rest = kept_parts parts in if is_dropped part then rest else part ∷ rest

-- `Path(name).parts` of a relative path
unfoldable pub path_parts : String → List (List ℕ)
unfolding split_slash kept_parts
path_parts name = kept_parts (split_slash (codes name))

unfoldable pub join_slash : List (List ℕ) → List ℕ
join_slash [] = []
join_slash (part ∷ []) = part
join_slash (part ∷ parts) = part ++ (b'/' ∷ join_slash parts)

-- `str(Path(name))` of a relative path
unfoldable pub path_str : List (List ℕ) → List ℕ
unfolding join_slash
path_str [] = codes "."
path_str (part ∷ parts) = join_slash (part ∷ parts)

abbrev pub is_absolute : List ℕ → Bool
is_absolute [] = false
is_absolute (c ∷ cs) = c == b'/'

-- The tests on an inventory path, but the one for a duplicate.
unfoldable pub is_safe_name : String → Bool
unfolding same_codes path_parts path_str
is_safe_name name =
    not (name =ₛ "")
    && not (is_absolute (codes name))
    && all (λ part. not (same_codes part (codes ".."))) (path_parts name)
    && all (λ c. not (c == b'\\')) (codes name)
    && same_codes (path_str (path_parts name)) (codes name)
    && all (λ c. leb 32 c) (codes name)

-- The dict from paths to rows.
abbrev pub Inventory : Type 0
Inventory = List (String × Fields)

unfoldable pub find_row : String → Inventory → Option Fields
find_row name [] = none
find_row name ((n, row) ∷ rows) = if n =ₛ name then some row else find_row name rows

abbrev pub is_some : {A : Type 0} → Option A → Bool
is_some none = false
is_some (some a) = true

abbrev pub new_name : Inventory → Option Value → Guarded String
new_name seen (some (str name)) =
    if is_safe_name name && not (is_some (find_row name seen)) then ok name else err launch_error
new_name seen _ = err launch_error

-- `type(v) is int and v >= 0`
abbrev pub is_count : Option Value → Bool
is_count (some (int (pos n))) = true
is_count _ = false

-- `v is not None`
abbrev pub is_given : Option Value → Bool
is_given none = false
is_given (some null) = false
is_given (some v) = true

abbrev pub require_digest : Fields → Guarded String
require_digest row =
    if is_given (get row "sha256")
    then require_hex (get row "sha256") 64
    else require_hex (get row "git_blob") 40

abbrev pub as_row : Value → Guarded Fields
as_row (obj row) = ok row
as_row _ = err launch_error

-- One round of the loop, on the inventory so far.
unfoldable pub inventory_row : Inventory → Value → Guarded (String × Fields)
unfolding is_safe_name find_row require_hex
inventory_row seen v = do
  row ← as_row v
  name ← new_name seen (get row "path")
  require (is_count (get row "size")) launch_error
  _ ← require_digest row
  ok (name, row)

unfoldable pub inventory_rows : Inventory → Items → Guarded Inventory
unfolding inventory_row
inventory_rows seen nil = ok seen
inventory_rows seen (cons v vs) = do
  entry ← inventory_row seen v
  inventory_rows (seen ++ (entry ∷ [])) vs

abbrev pub some_rows : Option Value → Guarded Items
some_rows (some (arr (cons v vs))) = ok (cons v vs)
some_rows _ = err launch_error

-- `sources.get("model")`, an object with the model's id
unfoldable pub pinned_model : Value → Guarded Fields
pinned_model (obj top) = do
  model ← as_object launch_error (get top "model")
  require (text_is (get model "id") model_id) launch_error
  ok model
pinned_model _ = err launch_error

-- `source_inventory`
unfoldable pub source_inventory : Value → Guarded Inventory
unfolding inventory_rows require_hex pinned_model
source_inventory sources = do
  model ← pinned_model sources
  _ ← require_hex (get model "sha") 40
  rows ← some_rows (get model "files")
  inventory_rows [] rows
