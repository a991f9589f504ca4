-- ===== src/Compare.antt =====
-- `check_counts` of scripts/compare.py: the measured rows of a variant, by case and repeat.
pub mod Groups
pub mod Counts
pub mod Upstream
pub mod Prose
mod Tests
use qwen38_flash_next_nvidia.Prelude.{
  ℕ, zero, suc, ◌+◌, String, Bool, true, false, not, ◌&&◌, Option, none, some, List, [], ◌∷◌, ◌++◌,
  ℤ, pos, ltb_ℤ, eqb_ℤ, ◌==◌, ◌=ₛ◌, all, length, Result, ok, err, ◌>>=◌, ◌>>◌, require,
  if◌then◌else◌,
}
use qwen38_flash_next_nvidia.Json.{Value, int, str, arr, obj, Fields, get}
use qwen38_flash_next_nvidia.Entrypoint.{eq_optional}

-- Reject, KeyError and TypeError.
pub data CompareError : Type 0 where
  rejected missing_key unhashable : CompareError

abbrev pub Compared : Type 0 → Type 0
Compared = Result CompareError

-- `row["case"]` as a key of a dict, `none` for a key that is no text
abbrev pub case_key : Option Value → Compared (Option String)
case_key none = err missing_key
case_key (some (str case_)) = ok (some case_)
case_key (some (arr vs)) = err unhashable
case_key (some (obj fs)) = err unhashable
case_key (some v) = ok none

-- `by_case`, in the order of insertion
abbrev pub Groups : Type 0
Groups = List (Option String × List Fields)

-- `by_case.setdefault(key, []).append(row)`
unfoldable pub add_row : Option String → Fields → Groups → Groups
add_row key row [] = (key, row ∷ []) ∷ []
add_row key row ((k, rows) ∷ groups) =
    if eq_optional k key
    then (k, rows ++ (row ∷ [])) ∷ groups
    else (k, rows) ∷ add_row key row groups

unfoldable pub group_rows : Groups → List Fields → Compared Groups
unfolding add_row
group_rows groups [] = ok groups
group_rows groups (row ∷ rows) = do
  key ← case_key (get row "case")
  group_rows (add_row key row groups) rows

unfoldable pub rows_of : Option String → Groups → Option (List Fields)
rows_of key [] = none
rows_of key ((k, rows) ∷ groups) = if eq_optional k key then some rows else rows_of key groups

-- In the order of `sorted`
abbrev pub expected_cases : List String
expected_cases = "city_heat_water" ∷ "compression_vs_random_access" ∷ "db_index_write_read" ∷ []

unfoldable pub is_case : Option String → List String → Bool
is_case key [] = false
is_case key (c ∷ cases) = if eq_optional (some c) key then true else is_case key cases

abbrev pub has_rows : Option (List Fields) → Bool
has_rows none = false
has_rows (some rows) = true

-- `set(by_case) == expected_cases`
unfoldable pub same_cases : Groups → Bool
unfolding is_case rows_of
same_cases groups =
    all (λ (key, rows). is_case key expected_cases) groups
    && all (λ c. has_rows (rows_of (some c) groups)) expected_cases

abbrev pub repeat_at : Option Value → Compared Value
repeat_at none = err missing_key
repeat_at (some v) = ok v

-- `[r["repeat"] for r in rows]`
unfoldable pub repeats_of : List Fields → Compared (List Value)
repeats_of [] = ok []
repeats_of (row ∷ rows) = do v ← repeat_at (get row "repeat"); rest ← repeats_of rows; ok (v ∷ rest)

abbrev pub as_int : Value → Compared ℤ
as_int (int n) = ok n
as_int _ = err rejected

unfoldable pub as_ints : List Value → Compared (List ℤ)
as_ints [] = ok []
as_ints (v ∷ vs) = do n ← as_int v; rest ← as_ints vs; ok (n ∷ rest)

unfoldable pub int_in : ℤ → List ℤ → Bool
int_in n [] = false
int_in n (m ∷ ns) = if eqb_ℤ m n then true else int_in n ns

-- `len(seen) == len(set(seen))`
unfoldable pub no_duplicate : List ℤ → Bool
unfolding int_in
no_duplicate [] = true
no_duplicate (n ∷ ns) = not (int_in n ns) && no_duplicate ns

unfoldable pub insert_int : ℤ → List ℤ → List ℤ
insert_int n [] = n ∷ []
insert_int n (m ∷ ns) = if ltb_ℤ m n then m ∷ insert_int n ns else n ∷ m ∷ ns

-- `sorted(seen)`
unfoldable pub sort_ints : List ℤ → List ℤ
unfolding insert_int
sort_ints [] = []
sort_ints (n ∷ ns) = insert_int n (sort_ints ns)

-- `list(range(start, start + n))`
unfoldable pub range_from : ℕ → ℕ → List ℤ
range_from start zero = []
range_from start (suc n) = pos start ∷ range_from (suc start) n

unfoldable pub same_ints : List ℤ → List ℤ → Bool
same_ints [] [] = true
same_ints (a ∷ as_) (b ∷ bs) = eqb_ℤ a b && same_ints as_ bs
same_ints _ _ = false

abbrev pub or_rejected : Option (List Fields) → Compared (List Fields)
or_rejected none = err rejected
or_rejected (some rows) = ok rows

-- One round of the loop over the cases: the repeats of a case.
unfoldable pub check_case : ℕ → Groups → String → Compared (List ℤ)
unfolding rows_of repeats_of as_ints no_duplicate sort_ints range_from same_ints
check_case repeats groups c = do
  rows ← or_rejected (rows_of (some c) groups)
  values ← repeats_of rows
  seen ← as_ints values
  require (no_duplicate seen) rejected
  require (length seen == repeats) rejected
  require (same_ints (sort_ints seen) (range_from 0 repeats)) rejected
  ok seen

unfoldable pub check_cases : ℕ → Groups → List String → Compared (Unit {0})
unfolding check_case
check_cases repeats groups [] = ok tt
check_cases repeats groups (c ∷ cases) = do
  _ ← check_case repeats groups c
  check_cases repeats groups cases

-- `check_counts`
unfoldable pub check_counts : List Fields → ℕ → Compared Groups
unfolding group_rows same_cases check_cases
check_counts rows repeats = do
  groups ← group_rows [] rows
  require (same_cases groups) rejected
  _ ← check_cases repeats groups expected_cases
  ok groups
