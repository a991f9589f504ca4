-- ===== src/Compare/Counts.antt =====
-- What `check_counts` of scripts/compare.py accepts.
use mathlib.Core.Path.{subst}
use qwen38_flash_next_nvidia.Prelude.{
  ◌≡◌, refl, sym, ap, ◌∙◌, ℕ, zero, suc, ◌+◌, ◌≤◌, ◌<◌, String, true, Option, none, some, List, [],
  ◌∷◌, ℤ, pos, ltb_ℤ, eqb_ℤ, eqb_ℤ_iff, ok, bound, passed, both, Bool-cases, inl, inr, arith,
  if◌then◌else◌, length, ◌==◌,
}
use qwen38_flash_next_nvidia.Json.{Value, Fields}
use qwen38_flash_next_nvidia.Compare.{
  Groups, check_counts, check_case, check_cases, expected_cases, repeats_of, as_ints, insert_int,
  sort_ints, range_from, same_ints, group_rows, or_rejected, same_cases, rows_of, no_duplicate,
}
use qwen38_flash_next_nvidia.Compare.Groups.{case_rows, or_no_rows, rows_of-group_rows}
use qwen38_flash_next_nvidia.Profile.CheckLaws.{Among}

abbrev pub times : ℤ → List ℤ → ℕ
times i [] = 0
times i (n ∷ ns) = (if eqb_ℤ n i then 1 else 0) + times i ns

times-insert_int : (i n : ℤ) (ns : List ℤ) → times i (insert_int n ns) ≡ times i (n ∷ ns)
unfolding insert_int
times-insert_int i n [] = refl
times-insert_int i n (m ∷ ns) = elim (Bool-cases (ltb_ℤ m n)) [
  | inl e ↦ rw e (omega (arith, times-insert_int i n ns))
  | inr e ↦ rw e refl
]

times-sort_ints : (i : ℤ) (ns : List ℤ) → times i (sort_ints ns) ≡ times i ns
unfolding sort_ints
times-sort_ints i [] = refl
times-sort_ints i (n ∷ ns) =
    omega (arith, times-insert_int i n (sort_ints ns), times-sort_ints i ns)

same_ints_eq : (xs ys : List ℤ) → same_ints xs ys ≡ true → xs ≡ ys
unfolding same_ints
same_ints_eq [] [] h = refl
same_ints_eq [] (y ∷ ys) h = cc
same_ints_eq (x ∷ xs) [] h = cc
same_ints_eq (x ∷ xs) (y ∷ ys) h =
    let (a, b) = both (eqb_ℤ x y) (same_ints xs ys) h in
    ap (λ z. z ∷ xs) ((eqb_ℤ_iff x y).0 a) ∙ ap (λ zs. y ∷ zs) (same_ints_eq xs ys b)

times-range_below : (i start n : ℕ) → i < start → times (pos i) (range_from start n) ≡ 0
unfolding range_from
times-range_below i start zero l = refl
times-range_below i start (suc n) l = ground (arith, times-range_below i (suc start) n)

times-range_from :
    (i start n : ℕ) → start ≤ i → i < start + n → times (pos i) (range_from start n) ≡ 1
unfolding range_from
times-range_from i start zero l u = absurd (omega arith)
times-range_from i start (suc n) l u = elim (Bool-cases (start == i)) [
  | inl e ↦ ground (arith, times-range_below i (suc start) n)
  | inr e ↦ ground (arith, times-range_from i (suc start) n)
]

-- The rows of a case have the repeats 0 to n - 1, each of them once.
pub record IsCounted (rows : List Fields) (repeats : ℕ) (c : String) : Type 0 where
  pub values : List Value
  pub values_eq : repeats_of (case_rows (some c) rows) ≡ ok values
  pub seen : List ℤ
  pub seen_eq : as_ints values ≡ ok seen
  pub as_many : length seen ≡ repeats
  pub each_once : (i : ℕ) → i < repeats → times (pos i) seen ≡ 1

or_rejected-eq-ok :
    (o : Option (List Fields)) (rows : List Fields) → or_rejected o ≡ ok rows → o ≡ some rows
or_rejected-eq-ok (some r) rows h = cc
or_rejected-eq-ok none rows h = cc

module _ (rows : List Fields) (repeats : ℕ) (groups : Groups)
    (grouped : group_rows [] rows ≡ ok groups) where
  check_case-IsCounted :
      (c : String) (seen : List ℤ)
      → check_case repeats groups c ≡ ok seen
      → IsCounted rows repeats c
  unfolding check_case rows_of
  check_case-IsCounted c seen h = bound (or_rejected (rows_of (some c) groups)) _ h λ own a h₁.
      bound (repeats_of own) _ h₁ λ values b h₂. bound (as_ints values) _ h₂ λ ids d h₃.
        passed (no_duplicate ids) _ _ h₃ λ e h₄. passed (length ids == repeats) _ _ h₄ λ f h₅.
          passed (same_ints (sort_ints ids) (range_from 0 repeats)) _ _ h₅ λ g h₆.
            let own_rows : own ≡ case_rows (some c) rows =
              ap or_no_rows (sym (or_rejected-eq-ok (rows_of (some c) groups) own a))
              ∙ rows_of-group_rows (some c) [] groups rows grouped in
            record {
              values = values;
              values_eq = subst (λ r. repeats_of r ≡ ok values) own_rows b;
              seen = ids;
              seen_eq = d;
              as_many = ground arith;
              each_once = λ i l.
                  sym (times-sort_ints (pos i) ids)
                  ∙ ap (λ xs. times (pos i) xs)
                      (same_ints_eq (sort_ints ids) (range_from 0 repeats) g)
                  ∙ times-range_from i 0 repeats (omega arith) (omega (arith, l));
            }

  check_cases-IsCounted :
      (c : String) (cases : List String)
      → check_cases repeats groups cases ≡ ok tt
      → Among c cases
      → IsCounted rows repeats c
  unfolding check_cases
  check_cases-IsCounted c [] h among = absurd among
  check_cases-IsCounted c (first ∷ cases) h among =
      bound (check_case repeats groups first) _ h λ seen e k. elim among [
        | inl same ↦
            subst (λ x. IsCounted rows repeats x) (sym same) (check_case-IsCounted first seen e)
        | inr later ↦ check_cases-IsCounted c cases k later
      ]

-- Accepted rows have, for each of the three cases, exactly the repeats 0 to n - 1, once each.
pub check_counts-IsCounted :
    (rows : List Fields) (repeats : ℕ) (groups : Groups)
    → check_counts rows repeats ≡ ok groups
    → (c : String) → Among c expected_cases
    → IsCounted rows repeats c
unfolding check_counts
check_counts-IsCounted rows repeats groups h c among = bound (group_rows [] rows) _ h λ g a h₁.
    passed (same_cases g) _ _ h₁ λ b h₂.
      bound (check_cases repeats g expected_cases) _ h₂
        λ u d h₃. check_cases-IsCounted rows repeats g a c expected_cases d among
