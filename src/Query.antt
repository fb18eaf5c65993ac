-- ===== src/Query.antt =====
-- src/internal/rv_query.c and `rv_index_query_markers` of src/internal/rv_index.c: queries of an index.
-- Comparisons of floats (`less`, `outside` for |a - b| > r) and the C library's `qsort` are parameters.
-- A caller's array has room for `cap` items, where `out` is not NULL; pointers are not NULL otherwise.
-- The nodes of the index are a value here (Query/Execute has the block that they lie in). Counts are
-- below 2^32.
pub mod Selected
pub mod Matches
pub mod Distinct
pub mod Execute
pub mod Filter
mod Examples
use Prim.Native.Nat.{Ordering, lt, eq, gt}
use ray_vault.Base.{
  ℕ, zero, suc, ◌+◌, Bool, true, false, not, ◌&&◌, ◌||◌, ◌==◌, ltb, if◌then◌else◌, Option, none,
  some, List, [], ◌∷◌, ◌++◌, length, get_elem?, take, ◌>>=◌,
}
use ray_vault.Decoding.{Result, ok, err, fault}
use ray_vault.Records.{MarkerRec, WindowRec}
use ray_vault.Xref.{Index, find_window, find_wave, is_none}

-- `rv_marker_info`.
pub record MarkerInfo : Type 0 where
  pub marker_id : ℕ
  pub window_id : ℕ
  pub distance_m : ℕ
  pub kind : ℕ
  pub severity : ℕ
  pub label_name_id : ℕ

abbrev pub info_of : MarkerRec → MarkerInfo
info_of m = record {
  marker_id = m.marker_id;
  window_id = m.window_id;
  distance_m = m.distance_m;
  kind = m.kind;
  severity = m.severity;
  label_name_id = m.label_name_id;
}

-- An array that a caller may give: none, or the room of one.
abbrev pub has_room : Option ℕ → ℕ → Bool
has_room none n = false
has_room (some cap) n = ltb n cap

-- The loops that put a row for each item that passes, while there is room, and count all of them.
unfoldable pub select : {A B : Type 0} → (A → Bool) → (A → B) → Option ℕ → ℕ → List A → List B × ℕ
select test row out n [] = ([], n)
select test row out n (x ∷ xs) =
    let (rows, m) = select test row out (if test x then n + 1 else n) xs in
    if test x && has_room out n then (row x ∷ rows, m) else (rows, m)

-- The window that a marker is on, by the index; `stray` is a position past the windows.
pub data Lookup : Type 0 where
  missing : Lookup
  at : WindowRec → Lookup
  stray : Lookup

pub window_of : Index → ℕ → Lookup
window_of idx id = elim (find_window idx id) [
  | none ↦ missing
  | some pos ↦ elim (get_elem? idx.windows pos) [ none ↦ stray | some w ↦ at w ]
]

abbrev pub is_stray : Lookup → Bool
is_stray missing = false
is_stray (at w) = false
is_stray stray = true

abbrev pub holds_of : (WindowRec → Bool) → Lookup → Bool
holds_of test missing = false
holds_of test (at w) = test w
holds_of test stray = false

abbrev pub any_of : {A : Type 0} → (A → Bool) → List A → Bool
any_of test [] = false
any_of test (x ∷ xs) = test x || any_of test xs

pub record QueryFilter : Type 0 where
  pub route_id : ℕ
  pub instrument_id : ℕ
  pub marker_kind : ℕ
  pub min_severity : ℕ
  pub min_distance_m : ℕ
  pub max_distance_m : ℕ

pub record QueryPlan : Type 0 where
  pub filter : QueryFilter
  pub sort_by_distance : Bool
  pub sort_by_severity : Bool
  pub require_wave : Bool
  pub limit : ℕ

unfoldable pub plan_init : QueryPlan
plan_init = record {
  filter = record {
    route_id = 0;
    instrument_id = 0;
    marker_kind = 0;
    min_severity = 0;
    min_distance_m = 0;
    max_distance_m = 0;
  };
  sort_by_distance = false;
  sort_by_severity = false;
  require_wave = false;
  limit = 1024;
}

-- `rv_query_windows_for_route`.
unfoldable pub windows_for_route : Index → ℕ → Option ℕ → List ℕ × ℕ
windows_for_route idx route_id out =
    select (λ w. route_id == 0 || w.route_id == route_id) (λ (w : WindowRec). w.window_id) out 0
      idx.windows

-- The inner loop of `rv_query_instruments_on_route`: `out[j] == inst` for j < n, where `out` has the ids
-- that were put; `none` is a read past the array.
unfoldable pub seen_in : ℕ → ℕ → List ℕ → Option Bool
seen_in inst zero out = some false
seen_in inst (suc n) [] = none
seen_in inst (suc n) (x ∷ xs) = if x == inst then some true else seen_in inst n xs

unfoldable pub is_seen : ℕ → ℕ → Option (List ℕ) → Option Bool
is_seen inst n none = some false
is_seen inst n (some out) = seen_in inst n out

-- `if (out && n < cap) out[n] = inst;`
unfoldable pub put_id : ℕ → ℕ → ℕ → Option (List ℕ) → Option (List ℕ)
put_id cap inst n none = none
put_id cap inst n (some out) = some (if ltb n cap then out ++ inst ∷ [] else out)

-- The outer loop from n on.
unfoldable pub instruments_from :
    ℕ → ℕ → List WindowRec → ℕ → Option (List ℕ) → Option (Option (List ℕ) × ℕ)
instruments_from route_id cap [] n out = some (out, n)
instruments_from route_id cap (w ∷ ws) n out =
    let skip = instruments_from route_id cap ws n out in
    let put = instruments_from route_id cap ws (n + 1) (put_id cap w.inst_id n out) in
    if not (route_id == 0) && not (w.route_id == route_id)
    then skip
    else elim (is_seen w.inst_id n out) [ none ↦ none | some true ↦ skip | some false ↦ put ]

-- `rv_query_instruments_on_route`; `out` is empty, or NULL.
unfoldable pub instruments_on_route : Index → ℕ → ℕ → Option (List ℕ) → Option (Option (List ℕ) × ℕ)
instruments_on_route idx route_id cap out = instruments_from route_id cap idx.windows 0 out

pub marker_info_cmp_sev : MarkerInfo → MarkerInfo → Ordering
marker_info_cmp_sev a b =
    if ltb b.severity a.severity then lt else if ltb a.severity b.severity then gt else eq

-- `x == 0.0f`: +0 or -0.
pub is_zero : ℕ → Bool
is_zero x = x == 0 || x == 0x80000000

module _ (less : ℕ → ℕ → Bool) where
  -- The tests of `rv_index_query_markers` on the marker itself.
  abbrev pub passes_alone : QueryFilter → MarkerRec → Bool
  passes_alone f m =
      (f.marker_kind == 0 || m.kind == f.marker_kind)
      && not (ltb m.severity f.min_severity)
      && (is_zero f.min_distance_m && is_zero f.max_distance_m
          || not (less m.distance_m f.min_distance_m)
            && not (less 0 f.max_distance_m && less f.max_distance_m m.distance_m))

  -- All its tests; those on the window come last.
  unfoldable pub passes : Index → QueryFilter → MarkerRec → Bool
  passes idx f m =
      passes_alone f m
      && (f.route_id == 0 || holds_of (λ w. w.route_id == f.route_id) (window_of idx m.window_id))
      && (f.instrument_id == 0
          || holds_of (λ w. w.inst_id == f.instrument_id) (window_of idx m.window_id))

  -- A test on the window is reached, and the index has a position past the windows for it.
  abbrev pub reads_past : Index → QueryFilter → MarkerRec → Bool
  reads_past idx f m =
      passes_alone f m
      && not (f.route_id == 0 && f.instrument_id == 0)
      && is_stray (window_of idx m.window_id)

  -- `err` is -1, of an index that is not ready; `fault` is a read past the windows.
  unfoldable pub query_markers : Index → QueryFilter → Option ℕ → Result (List MarkerInfo × ℕ)
  query_markers idx f out =
      if not idx.ready
      then err
      else if any_of (reads_past idx f) idx.markers
      then fault
      else ok (select (passes idx f) info_of out 0 idx.markers)

  -- `rv_query_markers_near`.
  unfoldable pub markers_near :
      (ℕ → ℕ → ℕ → Bool) → Index → ℕ → ℕ → ℕ → Option ℕ → List MarkerInfo × ℕ
  markers_near outside idx window_id center_m radius_m out =
      select
        (λ m.
          (window_id == 0 || m.window_id == window_id)
          && not (outside m.distance_m center_m radius_m))
        info_of out 0 idx.markers

  pub marker_info_cmp_dist : MarkerInfo → MarkerInfo → Ordering
  marker_info_cmp_dist a b =
      if less a.distance_m b.distance_m
      then lt
      else if less b.distance_m a.distance_m
      then gt
      else eq
