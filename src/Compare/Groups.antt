-- ===== src/Compare/Groups.antt =====
-- The grouping of rows by case (`check_counts` of scripts/compare.py).
use mathlib.Core.Path.{subst}
use mathlib.Core.List.{append-nil, append_assoc}
use qwen38_flash_next_nvidia.Prelude.{
  ◌≡◌, ◌↔◌, refl, sym, ap, ◌∙◌, String, Bool, true, false, Option, none, some, List, [], ◌∷◌, ◌++◌,
  ok, err, bound, Bool-cases, inl, inr, =ₛ_iff,
}
use qwen38_flash_next_nvidia.Json.{Fields, get}
use qwen38_flash_next_nvidia.Entrypoint.{eq_optional}
use qwen38_flash_next_nvidia.Compare.{Groups, add_row, group_rows, rows_of, case_key, Compared}

pub eq_optional_iff : (a b : Option String) → (eq_optional a b ≡ true) ↔ (a ≡ b)
eq_optional_iff none none = (λ h. refl, λ h. refl)
eq_optional_iff none (some t) = (λ h. cc, λ h. cc)
eq_optional_iff (some s) none = (λ h. cc, λ h. cc)
eq_optional_iff (some s) (some t) =
    (λ h. ap some ((=ₛ_iff s t).0 h), λ h. (=ₛ_iff s t).1 (some-inj h))
  where
    some-inj : some s ≡ some t → s ≡ t
    some-inj h = cc

abbrev pub or_no_rows : Option (List Fields) → List Fields
or_no_rows none = []
or_no_rows (some rows) = rows

abbrev pub if_key : Bool → Fields → List Fields
if_key true row = row ∷ []
if_key false row = []

-- The row is added to the group of its key, and to no other.
rows_of-add_row :
    (key k : Option String) (row : Fields) (groups : Groups)
    → or_no_rows (rows_of k (add_row key row groups))
      ≡ or_no_rows (rows_of k groups) ++ if_key (eq_optional key k) row
unfolding rows_of add_row
rows_of-add_row key k row [] = elim (Bool-cases (eq_optional key k)) [
  | inl e ↦ simp (e)
  | inr e ↦ simp (e)
]
rows_of-add_row key k row ((k', rows) ∷ groups) = elim (Bool-cases (eq_optional k' key)) [
  | inl e ↦ elim (Bool-cases (eq_optional k' k)) [
    | inl f ↦
        let g : eq_optional key k ≡ true =
          subst (λ x. eq_optional x k ≡ true) ((eq_optional_iff k' key).0 e) f in
        simp (e, f, g)
    | inr f ↦
        let g : eq_optional key k ≡ false =
          subst (λ x. eq_optional x k ≡ false) ((eq_optional_iff k' key).0 e) f in
        simp (e, f, g, append-nil)
  ]
  | inr e ↦ elim (Bool-cases (eq_optional k' k)) [
    | inl f ↦
        let g : eq_optional key k ≡ false = not_key e ((eq_optional_iff k' k).0 f) in
        simp (e, f, g, append-nil)
    | inr f ↦ simp (e, f, rows_of-add_row key k row groups)
  ]
]
  where
    clash : (b : Bool) → b ≡ true → b ≡ false → ⊥
    clash true h i = cc
    clash false h i = cc

    not_key : eq_optional k' key ≡ false → k' ≡ k → eq_optional key k ≡ false
    not_key e same = elim (Bool-cases (eq_optional key k)) [
      | inl g ↦
          absurd (clash _ ((eq_optional_iff k' key).1 (same ∙ sym ((eq_optional_iff key k).0 g))) e)
      | inr g ↦ g
    ]

-- The rows of a case, in their order.
abbrev pub has_key : Compared (Option String) → Option String → Bool
has_key (ok key) k = eq_optional key k
has_key (err e) k = false

unfoldable pub case_rows : Option String → List Fields → List Fields
case_rows k [] = []
case_rows k (row ∷ rows) = if_key (has_key (case_key (get row "case")) k) row ++ case_rows k rows

pub rows_of-group_rows :
    (k : Option String) (groups after : Groups) (rows : List Fields)
    → group_rows groups rows ≡ ok after
    → or_no_rows (rows_of k after) ≡ or_no_rows (rows_of k groups) ++ case_rows k rows
unfolding group_rows case_rows
rows_of-group_rows k groups after [] h =
    let same : groups ≡ after = cc in
    ap (λ g. or_no_rows (rows_of k g)) (sym same) ∙ sym (append-nil (or_no_rows (rows_of k groups)))
rows_of-group_rows k groups after (row ∷ rows) h = bound (case_key (get row "case")) _ h λ key e i.
    rows_of-group_rows k (add_row key row groups) after rows i
    ∙ ap (λ l. l ++ case_rows k rows) (rows_of-add_row key k row groups)
    ∙ append_assoc (or_no_rows (rows_of k groups)) (if_key (eq_optional key k) row)
        (case_rows k rows)
    ∙ ap (λ r. or_no_rows (rows_of k groups) ++ (if_key (has_key r k) row ++ case_rows k rows))
        (sym e)
