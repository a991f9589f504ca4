-- ===== src/Guard/Receipt/Paths.antt =====
-- The rows of a receipt and the set of their paths (`check_receipt` of scripts/guard.py).
use mathlib.Core.Path.{subst, sym}
use qwen38_flash_next_nvidia.Prelude.{
  ◌≡◌, refl, String, Bool, true, Option, none, some, List, [], ◌∷◌, ok, bound, both, arith, All,
  all, Bool-cases, ◌=ₛ◌, inl, inr, =ₛ_iff,
}
use qwen38_flash_next_nvidia.Json.{Value, str, Fields, get}
use qwen38_flash_next_nvidia.Profile.CheckLaws.{Among}
use qwen38_flash_next_nvidia.Guard.Inventory.{Inventory, find_row}
use qwen38_flash_next_nvidia.Guard.Receipt.{hashable_path, row_paths, path_in}

hashable_path-eq-ok :
    (o : Option Value) (name : String) → hashable_path o ≡ ok (some name) → o ≡ some (str name)
hashable_path-eq-ok (some (str s)) name h = cc
hashable_path-eq-ok _ name h = cc

-- A path of the set is the one of a row.
module _ {ℓ} (P : Fields → Type ℓ) (name : String) where
  abbrev pub PathRow : List Fields → Type ℓ
  PathRow rows = (row : Fields) × Among row rows × (get row "path" ≡ some (str name)) × P row

  later : (row : Fields) (rows : List Fields) → PathRow rows → PathRow (row ∷ rows)
  later row rows (found, among, at, p) = (found, inr among, at, p)

  first_path :
      (row : Fields) (rows : List Fields) (o : Option String) (rest : List (Option String))
      → hashable_path (get row "path") ≡ ok o
      → path_in name (o ∷ rest) ≡ true
      → P row
      → (path_in name rest ≡ true → PathRow rows)
      → PathRow (row ∷ rows)
  unfolding path_in
  first_path row rows none rest a m p next = later row rows (next m)
  first_path row rows (some path) rest a m p next = elim (Bool-cases (path =ₛ name)) [
    | inl e ↦ (
      row,
      inl refl,
      subst (λ t. get row "path" ≡ some (str t)) ((=ₛ_iff path name).0 e)
          (hashable_path-eq-ok (get row "path") path a),
      p,
    )
    | inr e ↦ later row rows (next (ground arith))
  ]

  pub row_of_path :
      (rows : List Fields) (paths : List (Option String))
      → row_paths rows ≡ ok paths
      → path_in name paths ≡ true
      → All P rows
      → PathRow rows
  unfolding row_paths path_in
  row_of_path [] [] h m p = cc
  row_of_path [] (o ∷ paths) h m p = cc
  row_of_path (row ∷ rows) paths h m p = bound (hashable_path (get row "path")) _ h λ o a h₁.
      bound (row_paths rows) _ h₁ λ rest b h₂.
        let same : o ∷ rest ≡ paths = cc in
        first_path row rows o rest a (subst (λ l. path_in name l ≡ true) (sym same) m) p.0
          λ k. row_of_path rows rest b k p.1

pub find_row-all :
    (test : String × Fields → Bool) (inventory : Inventory) (name : String) (row : Fields)
    → all test inventory ≡ true
    → find_row name inventory ≡ some row
    → test (name, row) ≡ true
unfolding find_row
find_row-all test [] name row h e = cc
find_row-all test ((n, r) ∷ inventory) name row h e = elim (Bool-cases (n =ₛ name)) [
  | inl k ↦
      let same : r ≡ row = ground arith in
      subst (λ x. test (name, x) ≡ true) same
        (subst (λ m. test (m, r) ≡ true) ((=ₛ_iff n name).0 k) (both (test (n, r)) _ h).0)
  | inr k ↦ find_row-all test inventory name row (both (test (n, r)) _ h).1 (ground arith)
]
