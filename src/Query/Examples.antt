-- ===== src/Query/Examples.antt =====
-- Queries of an index with two windows, on routes 5 and 6, and a marker on each.
use Prim.Native.Nat.{Ordering, lt, eq, gt}
use ray_vault.Base.{
  ◌<◌, ℕ, zero, suc, ◌≤◌, ◌≡◌, refl, true, false, ltb, none, some, List, [], ◌∷◌, ◌++◌, length, All,
  arith, inl, inr,
}
use mathlib.Core.List.{map, Perm}
use mathlib.Core.List.Perm
use ray_vault.Arena.{Arena, Heap, alloc, calloc, align_up, alignment}
use ray_vault.Decoding.{ok, new_items}
use ray_vault.Records.{MarkerRec, WindowRec}
use ray_vault.IdMap.{no_map, find}
use ray_vault.Xref.{Index, find_window}
use ray_vault.Query.{
  MarkerInfo, info_of, QueryFilter, QueryPlan, select, window_of, instruments_from,
  instruments_on_route, passes, is_zero, query_markers,
}
use ray_vault.Picked.{Picked}
use ray_vault.Query.Selected.{cut}
use ray_vault.Query.Matches.{Matches, query_markers_lem}
use ray_vault.Query.Distinct.{
  AllDistinct, Uses, Listed, instruments_on_route_lem, instruments_from-past,
}
use ray_vault.Query.Execute.{QueryResult, execute}
use ray_vault.Query.Execute.Answers.{Answers, execute-Answers}
use ray_vault.Query.Filter.Windows.{Filtered, filter_windows-Filtered}
use ray_vault.Query.Filter.{SpanFilter, span_filter_init, filter_windows, FilteredWindows}
use ray_vault.Samples.{marker, window, arena, tables}

abbrev other_window : WindowRec
other_window = record window { window_id = 4; route_id = 6; inst_id = 8 }

abbrev other_marker : MarkerRec
other_marker = record marker { marker_id = 5; window_id = 4; severity = 9 }

abbrev index : Index
index = record {
  windows = window ∷ other_window ∷ [];
  waves = [];
  markers = marker ∷ other_marker ∷ [];
  route_by_id = no_map;
  window_by_id = record { cells = 0 ∷ 0 ∷ 0 ∷ 1 ∷ 2 ∷ []; block = some 1000 };
  wave_by_id = no_map;
  ready = true;
}

abbrev on_route_6 : QueryFilter
on_route_6 = record {
  route_id = 6;
  instrument_id = 0;
  marker_kind = 1;
  min_severity = 2;
  min_distance_m = 0;
  max_distance_m = 0;
}

found_on_6 : query_markers ltb index on_route_6 (some 4) ≡ ok (info_of other_marker ∷ [], 1)
unfolding query_markers select passes window_of find_window find is_zero
found_on_6 = refl

query_markers_lem_example :
    (found missed : List MarkerRec) × Perm (found ++ missed) index.markers
    × All (Matches ltb index on_route_6) found
    × All (λ (m : MarkerRec). ¬ Matches ltb index on_route_6 m) missed
    × Picked (Matches ltb index on_route_6) (λ m. m) index.markers found
    × (info_of other_marker ∷ [] ≡ cut (some 4) 0 (map info_of found))
    × (1 ≡ length found)
query_markers_lem_example =
    query_markers_lem ltb index on_route_6 (some 4) (info_of other_marker ∷ []) 1 found_on_6

instruments_on_route_lem_example :
    (ids : List ℕ) × (instruments_on_route index 0 2 (some []) ≡ some (some ids, length ids))
    × AllDistinct ids
    × All (λ id. Uses 0 id index.windows) ids
    × All (Listed 0 ids) index.windows
instruments_on_route_lem_example = instruments_on_route_lem index 0 2 (omega arith)

-- Room for one instrument, and a third window after two instruments.
instruments_from-past_example :
    instruments_from 0 1 (record window { inst_id = 9 } ∷ []) 2 (some (2 ∷ [])) ≡ none
instruments_from-past_example =
    instruments_from-past 0 1 (record window { inst_id = 9 }) [] 2 (2 ∷ []) (omega arith)
      (omega arith) (inl refl) (λ m. elim m [ inl e ↦ omega (arith, e) | inr m' ↦ m' ])

-- A sort by insertion in place of the C library's.
abbrev insert_by :
    (MarkerInfo → MarkerInfo → Ordering) → MarkerInfo → List MarkerInfo → List MarkerInfo
insert_by cmp x [] = x ∷ []
insert_by cmp x (y ∷ ys) = elim (cmp x y) [
  | lt ↦ x ∷ y ∷ ys
  | eq ↦ x ∷ y ∷ ys
  | gt ↦ y ∷ insert_by cmp x ys
]

abbrev sort_by : (MarkerInfo → MarkerInfo → Ordering) → List MarkerInfo → List MarkerInfo
sort_by cmp [] = []
sort_by cmp (x ∷ xs) = insert_by cmp x (sort_by cmp xs)

insert_by-perm :
    (cmp : MarkerInfo → MarkerInfo → Ordering) (x : MarkerInfo) (ys : List MarkerInfo)
    → Perm (insert_by cmp x ys) (x ∷ ys)
insert_by-perm cmp x [] = Perm.rfl
insert_by-perm cmp x (y ∷ ys) = place (cmp x y) (insert_by-perm cmp x ys)
  where
    place :
        (o : Ordering)
        → Perm (insert_by cmp x ys) (x ∷ ys)
        → Perm
            (elim o [ lt ↦ x ∷ y ∷ ys | eq ↦ x ∷ y ∷ ys | gt ↦ y ∷ insert_by cmp x ys ])
            (x ∷ y ∷ ys)
    place lt h = Perm.rfl
    place eq h = Perm.rfl
    place gt h = Perm.trans (Perm.cons y h) (Perm.swap x y ys)

sort_by-perm :
    (cmp : MarkerInfo → MarkerInfo → Ordering) (ms : List MarkerInfo) → Perm (sort_by cmp ms) ms
sort_by-perm cmp [] = Perm.rfl
sort_by-perm cmp (x ∷ xs) =
    Perm.trans (insert_by-perm cmp x (sort_by cmp xs)) (Perm.cons x (sort_by-perm cmp xs))

-- The most severe markers of all routes, at most four.
abbrev plan : QueryPlan
plan = record {
  filter = record on_route_6 { route_id = 0 };
  sort_by_distance = false;
  sort_by_severity = true;
  require_wave = false;
  limit = 4;
}

abbrev in_place : Heap
in_place = record { malloc = λ n. some 1000; realloc = λ base n. some base }

inside : (id pos : ℕ) → find_window index id ≡ some pos → pos < 2
unfolding find_window find
inside zero pos e = cc
inside (suc zero) pos e = cc
inside (suc (suc zero)) pos e = cc
inside (suc (suc (suc zero))) pos e = ground (arith, e)
inside (suc (suc (suc (suc zero)))) pos e = ground (arith, e)
inside (suc (suc (suc (suc (suc n))))) pos e = ground (arith, e)

abbrev with_four : Arena
with_four = record arena { used = 80; peak = 80 }

abbrev with_ids_too : Arena
with_ids_too = record arena { used = 88; peak = 88 }

four_rows : new_items in_place 4 20 8 arena ≡ (ok tt, with_four)
unfolding new_items calloc alloc align_up alignment
four_rows = refl

two_ids : new_items in_place 2 4 4 with_four ≡ (ok tt, with_ids_too)
unfolding new_items calloc alloc align_up alignment
two_ids = refl

execute-Answers_example :
    (qr : QueryResult) × (execute ltb sort_by in_place (some 1000) index plan arena
      ≡ (ok qr, with_ids_too))
    × Answers ltb sort_by in_place (some 1000) index plan qr
execute-Answers_example =
    execute-Answers ltb sort_by in_place (some 1000) index plan arena with_four with_ids_too
      four_rows refl refl inside two_ids refl sort_by-perm

-- The windows of route 5, of a table with one.
abbrev span : SpanFilter
span = record span_filter_init { route_id = 5 }

block_has_room :
    (n : ℕ)
    → n ≤ 1
    → (a' : Arena) × (new_items in_place n 4 4 arena ≡ (ok tt, a')) × (a'.base ≡ arena.base)
unfolding new_items calloc alloc align_up alignment
block_has_room zero few = (arena, refl, refl)
block_has_room (suc zero) few = (record arena { used = 4; peak = 4 }, refl, refl)
block_has_room (suc (suc n)) few = absurd (omega (arith, few))

filter_windows-Filtered_example :
    (r : FilteredWindows) × (a' : Arena) × (filter_windows ltb in_place
        (some 1000)
        tables
        span
        arena
      ≡ (ok r, a'))
    × Filtered ltb tables span r.ids
filter_windows-Filtered_example =
    filter_windows-Filtered ltb tables span in_place arena block_has_room
