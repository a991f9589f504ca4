-- ===== src/Guard/Receipt/Covers.antt =====
-- What a receipt that `check_receipt` of scripts/guard.py accepts says of the model's files.
use qwen38_flash_next_nvidia.Profile.CheckLaws.{Among}
use qwen38_flash_next_nvidia.Guard.Receipt.{
  row_items, row_paths, found_row, listed_row, path_in, FileView, check_rows, check_row, is_nat,
  same_stat, same_digest, check_receipt, receipt_rows, same_paths, same_model, row_items, length,
  row_objects, Items, arr,
}
use qwen38_flash_next_nvidia.Guard.Receipt.Paths.{row_of_path, find_row-all}
use qwen38_flash_next_nvidia.Guard.Inventory.{
  find_row, Inventory, Guarded, require_hex, read_json, Raw, source_inventory, pinned_model, as_row,
  parse_json,
}
use mathlib.Core.Path.{subst, ap}
use qwen38_flash_next_nvidia.Json.{Value, str, Fields, get, text_is, Items, obj, arr}
use qwen38_flash_next_nvidia.Prelude.{
  ◌≡◌, refl, ℕ, String, Bool, true, false, not, ◌&&◌, ◌||◌, Option, none, some, List, [], ◌∷◌, ok,
  bound, passed, not_refused, both, All, ◌=ₛ◌, ◌+◌, =ₛ_iff, ◌==◌, require, ◌>>◌,
}
use qwen38_flash_next_nvidia.Guard.{ltb, obj, require, launch_error}

-- A file of the lock as it stood when the receipt was accepted: a regular file below the root, with
-- the lock's size, and a row of the receipt with its status and the lock's digest.
pub record IsVerified (view : String → Guarded FileView) (rows : List Fields) (name : String)
    (expected : Fields) : Type 0 where
  pub file : FileView
  pub file_eq : view name ≡ ok file
  pub direct : file.symlink ≡ false
  pub below : file.inside ≡ true
  pub plain : file.regular ≡ true
  pub size_eq : is_nat file.size (get expected "size") ≡ true
  pub row : Fields
  pub listed : Among row rows
  pub row_path : get row "path" ≡ some (str name)
  pub stat_eq : same_stat row file ≡ true
  pub digest_eq : same_digest row expected ≡ true

found_row-eq-ok :
    (s path : String) (o : Option Fields) (expected : Fields)
    → found_row s o ≡ ok (path, expected)
    → (s ≡ path) × (o ≡ some expected)
found_row-eq-ok s path (some row) expected h = (cc, cc)
found_row-eq-ok s path none expected h = cc

listed_row-eq-ok :
    (inventory : Inventory) (o : Option Value) (path : String) (expected : Fields)
    → listed_row inventory o ≡ ok (path, expected)
    → (o ≡ some (str path)) × (find_row path inventory ≡ some expected)
listed_row-eq-ok inventory (some (str s)) path expected h =
    let (same, e) = found_row-eq-ok s path (find_row s inventory) expected h in
    (ap (λ t. some (str t)) same, subst (λ t. find_row t inventory ≡ some expected) same e)
listed_row-eq-ok inventory _ path expected h = cc

three_false : (a b c : Bool) → (a || not b || not c) ≡ false → (a ≡ false) × (b ≡ true) × (c ≡ true)
three_false false true true h = (refl, refl, refl)
three_false true b c h = cc
three_false false false c h = cc
three_false false true false h = cc

module _ (inventory : Inventory) (view : String → Guarded FileView) where
  check_row-IsVerified :
      (rows : List Fields) (row : Fields) (n : ℕ) (name : String) (expected : Fields)
      → Among row rows
      → check_row inventory view row ≡ ok n
      → get row "path" ≡ some (str name)
      → find_row name inventory ≡ some expected
      → IsVerified view rows name expected
  unfolding check_row
  check_row-IsVerified rows row n name expected listed_in h at_name in_inventory =
      bound (listed_row inventory (get row "path")) _ h λ (path, listed) a h₁.
        bound (view path) _ h₁ λ file b h₂.
          not_refused (file.symlink || not file.inside || not file.regular) _ _ h₂ λ c h₃.
            passed (same_stat row file) _ _ h₃ λ d h₄.
              passed (is_nat file.size (get listed "size")) _ _ h₄ λ e h₅.
                bound (require_hex (get row "sha256") 64) _ h₅ λ digest f h₆.
                  passed (same_digest row listed) _ _ h₆ λ g h₇.
                    let (at_path, in_listed) =
                      listed_row-eq-ok inventory (get row "path") path listed a in
                    let same : path ≡ name = cc in
                    let same_row : listed ≡ expected = cc in
                    let (i, j, k) = three_false file.symlink file.inside file.regular c in
                    record {
                      file = file;
                      file_eq = subst (λ p. view p ≡ ok file) same b;
                      direct = i;
                      below = j;
                      plain = k;
                      size_eq = subst (λ r. is_nat file.size (get r "size") ≡ true) same_row e;
                      row = row;
                      listed = listed_in;
                      row_path = at_name;
                      stat_eq = d;
                      digest_eq = subst (λ r. same_digest row r ≡ true) same_row g;
                    }

  check_rows-All :
      (total end_ : ℕ) (rows : List Fields)
      → check_rows inventory view total rows ≡ ok end_
      → All (λ row. (n : ℕ) × (check_row inventory view row ≡ ok n)) rows
  unfolding check_rows
  check_rows-All total end_ [] h = tt
  check_rows-All total end_ (row ∷ rows) h =
      bound (check_row inventory view row) _ h
        λ n a k. ((n, a), check_rows-All (total + n) end_ rows k)

row_items-eq-ok : (o : Option Value) (items : Items) → row_items o ≡ ok items → o ≡ some (arr items)
row_items-eq-ok (some (arr vs)) items h = cc
row_items-eq-ok _ items h = cc

as_row-eq-ok : (v : Value) (fields : Fields) → as_row v ≡ ok fields → v ≡ obj fields
as_row-eq-ok (obj row) fields h = cc
as_row-eq-ok _ fields h = cc

total_receipt :
    (b : Bool) (fields receipt : Fields)
    → (require b launch_error >> ok fields) ≡ ok receipt
    → fields ≡ receipt
total_receipt true fields receipt h = cc
total_receipt false fields receipt h = cc

-- An accepted receipt is the file of the digest that was asked for, and it covers the whole lock:
-- every file of the inventory is verified by a row of the receipt's `files`.
pub check_receipt-IsVerified :
    (view : String → Guarded FileView) (expected_hash root : String) (file : Guarded Raw)
    (sources : Value) (receipt : Fields)
    → check_receipt view expected_hash root file sources ≡ ok receipt
    → (raw : Raw) × (file ≡ ok raw)
      × (raw.sha256 ≡ expected_hash)
      × (read_json file ≡ ok (obj receipt, raw))
      × ((items : Items) × (rows : List Fields) × (get receipt "files" ≡ some (arr items))
          × (row_objects items ≡ ok rows)
          × (inventory : Inventory) × (source_inventory sources ≡ ok inventory)
          × ((name : String) (expected : Fields)
              → find_row name inventory ≡ some expected
              → IsVerified view rows name expected))
unfolding check_receipt receipt_rows same_paths read_json
check_receipt-IsVerified view expected_hash root file sources receipt h =
    bound (require_hex (some (str expected_hash)) 64) _ h λ w a h₁.
      bound (read_json file) _ h₁ λ (value, raw) b h₂.
        passed (raw.sha256 =ₛ expected_hash) _ _ h₂ λ c h₃.
          bound (source_inventory sources) _ h₃ λ inventory d h₄.
            bound (pinned_model sources) _ h₄ λ model e h₅. bound (as_row value) _ h₅ λ fields f h₆.
              passed
                (text_is (get fields "kind") "CHECKPOINT_VERIFIED"
                  && text_is (get fields "root") root)
                _ _ h₆
                λ g h₇. passed (same_model (get fields "model") model) _ _ h₇ λ i h₈.
                  bound (receipt_rows view expected_hash root inventory fields) _ h₈ λ rows j h₉.
                    bound (check_rows inventory view 0 rows) _ h₉ λ total k hₐ.
                      bound file _ b λ raw' l b₁.
                        not_refused (ltb 16777216 raw'.size) _ _ b₁ λ m b₂.
                          bound (parse_json raw'.text) _ b₂ λ value' n b₃.
                            bound (row_items (get fields "files")) _ j λ items o j₁.
                              passed (is_nat (length inventory) (get fields "file_count")) _ _ j₁
                                λ p j₂. bound (row_objects items) _ j₂ λ rows' q j₃.
                                  passed (length rows' == length inventory) _ _ j₃ λ r j₄.
                                    bound (row_paths rows') _ j₄ λ paths s j₅.
                                      passed (same_paths paths inventory) _ _ j₅ λ t j₆.
                                        let same_rows : rows' ≡ rows = cc in
                                        let same_raw : raw' ≡ raw = cc in
                                        let the_fields : fields ≡ receipt =
                                          total_receipt (is_nat total (get fields "total_bytes"))
                                            fields receipt hₐ in
                                        let checked =
                                          check_rows-All inventory view 0 total rows k in
                                        (
                                          raw,
                                          subst (λ x. file ≡ ok x) same_raw l,
                                          (=ₛ_iff raw.sha256 expected_hash).0 c,
                                          subst (λ x. read_json file ≡ ok (obj x, raw)) the_fields
                                              (subst (λ v. read_json file ≡ ok (v, raw))
                                                (as_row-eq-ok value fields f) b),
                                          (
                                            items,
                                            rows,
                                            subst (λ x. get x "files" ≡ some (arr items)) the_fields
                                                (row_items-eq-ok _ items o),
                                            subst (λ x. row_objects items ≡ ok x) same_rows q,
                                            inventory,
                                            d,
                                            λ name expected found.
                                                let (row, among, at_name, (size, u)) =
                                                  row_of_path
                                                    (λ row.
                                                      (n : ℕ) × (check_row inventory view row
                                                        ≡ ok n))
                                                    name rows paths
                                                    (subst (λ x. row_paths x ≡ ok paths) same_rows
                                                      s)
                                                    (find_row-all (λ x. path_in x.0 paths) inventory
                                                      name expected (both _ _ t).1 found)
                                                    checked in
                                                check_row-IsVerified inventory view rows row size
                                                  name expected among u at_name found,
                                          ),
                                        )
