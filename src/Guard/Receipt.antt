-- ===== src/Guard/Receipt.antt =====
-- `check_receipt` of scripts/guard.py.
pub mod Paths
pub mod Covers
use qwen38_flash_next_nvidia.Entrypoint.{text_of}
use qwen38_flash_next_nvidia.Guard.Inventory.{
  Inventory, is_given, find_row, Guarded, require_hex, is_some, as_row, read_json, source_inventory,
  pinned_model, Raw,
}
use qwen38_flash_next_nvidia.Json.{
  Value, int, str, obj, arr, null, Items, nil, cons, Fields, get, text_is, hex_at, keys_are,
}
use qwen38_flash_next_nvidia.Prelude.{
  ℕ, String, Bool, true, false, not, ◌&&◌, ◌||◌, Option, none, some, List, [], ◌∷◌, ◌++◌, ℤ, pos,
  ltb, leb, ◌==◌, all, codes, Result, ok, err, ◌>>=◌, ◌>>◌, require, refuse, if◌then◌else◌, ◌=ₛ◌,
  ◌+◌, length,
}
use qwen38_flash_next_nvidia.Guard.{GuardError, launch_error, type_error}

-- What the file system says of a path below the model's root.
pub record FileView : Type 0 where
  pub symlink : Bool
  pub inside : Bool
  pub regular : Bool
  pub dev : ℕ
  pub inode : ℕ
  pub size : ℕ
  pub mtime_ns : ℕ
  pub ctime_ns : ℕ

-- `r.get("path")` of the rows, `none` for what is no text; a list or a dict cannot stand in a set.
abbrev pub hashable_path : Option Value → Guarded (Option String)
hashable_path (some (str s)) = ok (some s)
hashable_path (some (arr vs)) = err type_error
hashable_path (some (obj fs)) = err type_error
hashable_path _ = ok none

unfoldable pub row_paths : List Fields → Guarded (List (Option String))
row_paths [] = ok []
row_paths (row ∷ rows) = do
  path ← hashable_path (get row "path")
  rest ← row_paths rows
  ok (path ∷ rest)

-- The rows, all of them objects.
unfoldable pub row_objects : Items → Guarded (List Fields)
row_objects nil = ok []
row_objects (cons v vs) = do row ← as_row v; rest ← row_objects vs; ok (row ∷ rest)

unfoldable pub path_in : String → List (Option String) → Bool
path_in name [] = false
path_in name (none ∷ paths) = path_in name paths
path_in name (some path ∷ paths) = if path =ₛ name then true else path_in name paths

abbrev pub is_listed : Inventory → Option String → Bool
is_listed inventory none = false
is_listed inventory (some path) = is_some (find_row path inventory)

-- `paths == set(inventory)`
unfoldable pub same_paths : List (Option String) → Inventory → Bool
unfolding path_in find_row
same_paths paths inventory =
    all (is_listed inventory) paths && all (λ (name, row). path_in name paths) inventory

-- `type(v) is int and v == n`
abbrev pub is_nat : ℕ → Option Value → Bool
is_nat n (some (int (pos m))) = m == n
is_nat n _ = false

abbrev pub found_row : String → Option Fields → Guarded (String × Fields)
found_row path (some row) = ok (path, row)
found_row path none = err launch_error

abbrev pub listed_row : Inventory → Option Value → Guarded (String × Fields)
listed_row inventory (some (str path)) = found_row path (find_row path inventory)
listed_row inventory _ = err launch_error

-- The `stat` fields of a row
abbrev pub same_stat : Fields → FileView → Bool
same_stat row file =
    is_nat file.dev (get row "dev")
    && is_nat file.inode (get row "inode")
    && is_nat file.size (get row "size")
    && is_nat file.mtime_ns (get row "mtime_ns")
    && is_nat file.ctime_ns (get row "ctime_ns")

-- The digest of a row is the one of the lock: the SHA-256 if it has one, or the Git blob.
abbrev pub same_digest : Fields → Fields → Bool
same_digest row expected =
    if is_given (get expected "sha256")
    then text_is (get expected "sha256") (text_of (get row "sha256"))
    else text_is (get row "git_blob") (text_of (get expected "git_blob"))

module _ (inventory : Inventory) (view : String → Guarded FileView) where
  -- One round of the loop: the bytes of the row's file.
  unfoldable pub check_row : Fields → Guarded ℕ
  unfolding require_hex text_of
  check_row row = do
    (path, expected) ← listed_row inventory (get row "path")
    file ← view path
    refuse (file.symlink || not file.inside || not file.regular) launch_error
    require (same_stat row file) launch_error
    require (is_nat file.size (get expected "size")) launch_error
    _ ← require_hex (get row "sha256") 64
    require (same_digest row expected) launch_error
    ok file.size

  -- The loop, with the total so far.
  unfoldable pub check_rows : ℕ → List Fields → Guarded ℕ
  unfolding check_row
  check_rows total [] = ok total
  check_rows total (row ∷ rows) = do size ← check_row row; check_rows (total + size) rows

-- `receipt.get("model") == {"id": ..., "sha": ...}`
unfoldable pub same_model : Option Value → Fields → Bool
unfolding text_of
same_model (some (obj fs)) model =
    keys_are fs ("id" ∷ "sha" ∷ [])
    && text_is (get fs "id") (text_of (get model "id"))
    && text_is (get fs "sha") (text_of (get model "sha"))
same_model _ model = false

abbrev pub row_items : Option Value → Guarded Items
row_items (some (arr vs)) = ok vs
row_items _ = err launch_error

module _ (view : String → Guarded FileView) (expected_hash root : String) where
  -- The rows of a receipt, as many as the inventory has and of the same paths.
  unfoldable pub receipt_rows : Inventory → Fields → Guarded (List Fields)
  unfolding row_objects row_paths same_paths
  receipt_rows inventory receipt = do
    items ← row_items (get receipt "files")
    require (is_nat (length inventory) (get receipt "file_count")) launch_error
    rows ← row_objects items
    require (length rows == length inventory) launch_error
    paths ← row_paths rows
    require (same_paths paths inventory) launch_error
    ok rows

  -- `check_receipt`
  unfoldable pub check_receipt : Guarded Raw → Value → Guarded Fields
  unfolding require_hex read_json source_inventory pinned_model same_model receipt_rows check_rows
  check_receipt file sources = do
    _ ← require_hex (some (str expected_hash)) 64
    (value, raw) ← read_json file
    require (raw.sha256 =ₛ expected_hash) launch_error
    inventory ← source_inventory sources
    model ← pinned_model sources
    receipt ← as_row value
    require
        (text_is (get receipt "kind") "CHECKPOINT_VERIFIED" && text_is (get receipt "root") root)
        launch_error
    require (same_model (get receipt "model") model) launch_error
    rows ← receipt_rows inventory receipt
    total ← check_rows inventory view 0 rows
    require (is_nat total (get receipt "total_bytes")) launch_error
    ok receipt
