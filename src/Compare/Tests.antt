-- ===== src/Compare/Tests.antt =====
-- Two repeats of the three cases, and the witness.
use qwen38_flash_next_nvidia.Prelude.{◌≡◌, refl, ℤ, String, List, [], ◌∷◌, some, ok, pos, inl}
use qwen38_flash_next_nvidia.Json.{Fields, str, int, end, field, get}
use qwen38_flash_next_nvidia.Compare.{Groups, check_counts}
use qwen38_flash_next_nvidia.Compare.Counts.{IsCounted, check_counts-IsCounted}

abbrev row : String → ℤ → Fields
row c n = field "case" (str c) (field "repeat" (int n) end)

abbrev rows : List Fields
rows =
    row "db_index_write_read" (pos 0)
    ∷ row "city_heat_water" (pos 1)
    ∷ row "compression_vs_random_access" (pos 0)
    ∷ row "db_index_write_read" (pos 1)
    ∷ row "city_heat_water" (pos 0)
    ∷ row "compression_vs_random_access" (pos 1)
    ∷ []

abbrev groups : Groups
groups =
    (
      some "db_index_write_read",
      row "db_index_write_read" (pos 0) ∷ row "db_index_write_read" (pos 1) ∷ [],
    )
    ∷ (some "city_heat_water", row "city_heat_water" (pos 1) ∷ row "city_heat_water" (pos 0) ∷ [])
    ∷ (
      some "compression_vs_random_access",
      row "compression_vs_random_access" (pos 0) ∷ row "compression_vs_random_access" (pos 1) ∷ [],
    )
    ∷ []

counted : check_counts rows 2 ≡ ok groups
unfolding check_counts get
counted = refl

check_counts-IsCounted_example : IsCounted rows 2 "city_heat_water"
check_counts-IsCounted_example =
    check_counts-IsCounted rows 2 groups counted "city_heat_water" (inl refl)
