-- ===== src/Merge/Examples.antt =====
-- A merge of a package with itself.
use ray_vault.Base.{true, ◌≡◌, refl, some, none, [], ◌∷◌, take, arith}
use ray_vault.Section.Blobs.{NameEntry, SnamTable}
use ray_vault.Dict.{by_id, find_id}
use ray_vault.Parser.{Parsed}
use ray_vault.Builder.{init}
use ray_vault.Builder.Names.{find_name}
use ray_vault.Merge.{Merge, no_stats, merge_options, c_string, map_name, merge_into_builder}
use ray_vault.Merge.Rows.{Rows}
use ray_vault.Merge.Shifted.{shifted}
use ray_vault.Merge.Granted.{merge_into_builder-granted}
use ray_vault.Merge.Names.{map_name-found}
use ray_vault.Samples.{all_granted, tables}

-- A name with a byte 0 in it.
abbrev site : NameEntry
site = record { id = 1; hash = 0; str = 0x41 ∷ 0 ∷ 0x42 ∷ [] }

abbrev one_name : SnamTable
one_name = record { entries = site ∷ []; bucket = []; bucket_mask = 0; block = none }

abbrev named : Parsed
named = record tables { snam = one_name }

abbrev both : Merge
both = (merge_into_builder all_granted init named named merge_options).1

merge_into_builder-granted_example :
    (merge_into_builder all_granted init named named merge_options).0 ≡ true
merge_into_builder-granted_example =
    merge_into_builder-granted all_granted (λ n. refl) init named named merge_options

abbrev start : Merge
start = record { out = init; st = no_stats }

is_known : by_id one_name 1 ≡ some site
unfolding by_id find_id
is_known = refl

map_name-found_example :
    find_name
      (map_name all_granted one_name 1 start).1.out.names.items
      (take 127 (c_string site.str))
    ≡ some (map_name all_granted one_name 1 start).0
map_name-found_example =
    map_name-found all_granted one_name 1 start site (λ n. refl) (omega arith) is_known

-- A window without a calibration (id 0) refers to the calibration 100000 once its package is merged as
-- the second one.
abbrev bare : Parsed
bare = record tables {
  clbr = [];
  wind =
      record {
        window_id = 3;
        route_id = 5;
        inst_id = 0;
        calib_id = 0;
        wave_block_id = 0;
        pulse_ns = 0;
        range_km = 0;
        resolution_m = 0;
        acquired_unix = 0;
        flags = 0;
      }
      ∷ [];
}

no_calib_shifted :
    (shifted bare 100000 merge_options).windows
    ≡ record {
      window_id = 100003;
      route_id = 100005;
      inst_id = 100000;
      calib_id = 100000;
      wave_block_id = 100000;
      pulse_ns = 0;
      range_km = 0;
      resolution_m = 0;
      acquired_unix = 0;
      flags = 0;
    }
      ∷ []
no_calib_shifted = refl
