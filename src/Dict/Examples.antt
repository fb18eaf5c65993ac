-- ===== src/Dict/Examples.antt =====
-- The dictionary of a SNAM section with one name, "A" with the id 5.
use ray_vault.Base.{ℕ, ◌≡◌, refl, Bool, true, false, none, some, List, [], ◌∷◌, ◌++◌}
use ray_vault.Arena.{Arena, Heap, alloc, calloc, strdup, align_up, alignment}
use ray_vault.Endian.{split_at, write_le16, write_le32, read_le16, read_le32, join16, join32}
use ray_vault.Decoding.{Result, ok, err, fault, new_items, touch}
use ray_vault.Records.{RouteRec}
use ray_vault.Section.Blobs.{
  SnamTable, decode_snam, decode_names, read_names, read_lp_string, new_string, skip_odd,
  bucket_count, snam_of,
}
use ray_vault.Dict.{by_str, check_routes, check_instruments, check_markers}
use ray_vault.Dict.Lookup.{find_str, answer}
use ray_vault.Dict.Decoded.{by_str-decode_snam}
use ray_vault.Dict.Checks.{Verdict, RouteNamed, InstNamed, MarkerNamed, checks-Verdict}

abbrev heap : Heap
heap = record { malloc = λ n. some 1000; realloc = λ base n. some base }

abbrev arena : Arena
arena = record {
  base = some 1000;
  size = 4096;
  used = 0;
  peak = 0;
  max_bytes = 65536;
  epoch = 1;
  grow_count = 0;
  owns_base = true;
}

abbrev payload : List ℕ
payload = write_le32 0x314d414e ++ write_le32 1 ++ write_le32 5 ++ write_le16 1 ++ (65 ∷ 0 ∷ [])

-- The table of a decoder's outcome.
abbrev table_of : Result SnamTable × Arena → SnamTable
table_of (ok t, a) = t
table_of _ = record { entries = []; bucket = []; bucket_mask = 0; block = none }

abbrev is_ok : Result SnamTable × Arena → Bool
is_ok (ok t, a) = true
is_ok _ = false

abbrev table : SnamTable
table = table_of (decode_snam heap payload arena)

decoded_ok : is_ok (decode_snam heap payload arena) ≡ true
unfolding split_at decode_snam decode_names read_names read_lp_string new_string skip_odd
    bucket_count snam_of read_le16 read_le32 join16 join32 new_items touch calloc strdup alloc
    align_up alignment
decoded_ok = refl

decoded : decode_snam heap payload arena ≡ (ok table, (decode_snam heap payload arena).1)
decoded = here (decode_snam heap payload arena) decoded_ok
  where
    here : (r : Result SnamTable × Arena) → is_ok r ≡ true → r ≡ (ok (table_of r), r.1)
    here (ok t, a) e = refl
    here (err, a) e = cc
    here (fault, a) e = cc

by_str-decode_snam_example : by_str table (65 ∷ []) ≡ answer (find_str (65 ∷ []) table.entries)
by_str-decode_snam_example =
    by_str-decode_snam heap payload arena (decode_snam heap payload arena).1 table (65 ∷ []) decoded

abbrev route : RouteRec
route = record {
  route_id = 1;
  site_name_id = 5;
  far_name_id = 6;
  length_km = 0;
  fiber_count = 1;
  flags = 0;
}

checks-Verdict_example :
    Verdict table (RouteNamed table) (route ∷ []) (check_routes table (route ∷ []))
    × Verdict table (InstNamed table) [] (check_instruments table [])
    × Verdict table (MarkerNamed table) [] (check_markers table [])
checks-Verdict_example = checks-Verdict table (route ∷ []) [] []
