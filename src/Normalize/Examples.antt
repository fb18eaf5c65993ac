-- ===== src/Normalize/Examples.antt =====
-- The pass over unsorted windows, and the repair.
use ray_vault.Base.{◌≡◌, ◌≤◌, true, [], ◌∷◌, All}
use mathlib.Core.List.{Perm}
use ray_vault.Records.{MarkerRec}
use ray_vault.Parser.{Parsed}
use ray_vault.Validate.{summ_counts}
use ray_vault.Normalize.{normalize_parsed, repair_package, repair_options}
use ray_vault.Normalize.Sorting.{IsSorted, normalize_parsed_lem}
use ray_vault.Normalize.Repaired.{Linked, repair_package_lem}
use ray_vault.Samples.{tables, window, link, reader}

-- Two windows out of order, and a link from a marker that is not there.
abbrev mixed : Parsed
mixed = record tables {
  wind = window ∷ record window { window_id = 1 } ∷ [];
  link = link ∷ record link { from_kind = 3; from_id = 99 } ∷ [];
}

normalize_parsed_lem_example :
    IsSorted (normalize_parsed mixed).0.wind
    × Perm (normalize_parsed mixed).0.wind mixed.wind
    × All (λ (m : MarkerRec). m.severity ≤ 100) (normalize_parsed mixed).0.mark
    × ((normalize_parsed (normalize_parsed mixed).0).0 ≡ (normalize_parsed mixed).0)
normalize_parsed_lem_example = normalize_parsed_lem mixed

repair_package_lem_example :
    All
      (Linked (repair_package reader repair_options mixed).mark)
      (repair_package reader repair_options mixed).link
    × ((repair_package reader repair_options (repair_package reader repair_options mixed)).link
        ≡ (repair_package reader repair_options mixed).link)
    × (summ_counts (repair_package reader repair_options mixed) ≡ true)
repair_package_lem_example = repair_package_lem reader mixed
