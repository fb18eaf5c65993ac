-- ===== src/Query/Execute/Answers.antt =====
-- What `rv_query_execute` gives back.
use Prim.Native.Nat.{Ordering}
use ray_vault.Base.{
  ◌⊎◌, ◌↔◌, ◌≢◌, ◌≤◌, ◌==◌, ◌||◌, not, false, none, [], ◌∷◌, ap, ◌∙◌, sym, subst, arith, true, ℕ,
  Bool, ◌&&◌, ltb, if◌then◌else◌, Option, some, List, length, ◌≡◌, Bool-cases, inl, inr, refl,
}
use mathlib.Core.List.{Perm}
use mathlib.Core.List.Perm
use ray_vault.Arena.{Arena, Heap}
use ray_vault.Decoding.{Result, fault, ok, new_items}
use ray_vault.Xref.{Index, find_wave, is_none}
use ray_vault.Records.{WindowRec}
use ray_vault.Picked.{Picked, Picked-loop}
use ray_vault.Query.Selected.{select_all_lem, kept-Picked}
use ray_vault.Query.Matches.{
  OnWindow, IsInside, window_of_inside, query_markers_inside, or_iff, eq_iff, holds_iff,
}
use ray_vault.Query.{
  select, passes, any_of, is_stray, window_of, info_of, MarkerInfo, QueryPlan, query_markers,
  windows_for_route, marker_info_cmp_dist, marker_info_cmp_sev,
}
use ray_vault.Query.Execute.{
  QueryResult, use_nodes_here, wave_reads, has_wave, with_waves, sort_rows, rows_of, row_cap,
  id_cap, with_ids, with_rows, execute,
}

-- The window of the row has a wave that the index knows.
abbrev pub HasWave : Index → MarkerInfo → Type 0
HasWave idx m = OnWindow idx m.window_id (λ w. find_wave idx w.wave_block_id ≢ none)

-- A window of the route; route 0 has all of them.
abbrev pub OfRoute : ℕ → WindowRec → Type 0
OfRoute route_id w = (route_id ≡ 0) ⊎ (w.route_id ≡ route_id)

known_iff : {A : Type 0} (o : Option A) → (not (is_none o) ≡ true) ↔ (o ≢ none)
known_iff none = (λ e. cc, λ h. absurd (h refl))
known_iff (some x) = (λ e d. cc, λ h. refl)

has_wave_iff : (idx : Index) (m : MarkerInfo) → (has_wave idx m ≡ true) ↔ HasWave idx m
unfolding has_wave
has_wave_iff idx m =
    holds_iff (λ (w : WindowRec). not (is_none (find_wave idx w.wave_block_id)))
      (λ w. find_wave idx w.wave_block_id ≢ none) (window_of idx m.window_id)
      (λ w. known_iff (find_wave idx w.wave_block_id))

with_waves-Picked :
    (idx : Index) (rows : List MarkerInfo)
    → Picked (HasWave idx) (λ m. m) rows (with_waves idx rows)
unfolding with_waves
with_waves-Picked idx =
    Picked-loop (HasWave idx) (has_wave idx) (λ m. m) (with_waves idx) (has_wave_iff idx) refl
      (λ m ms has. ground (arith, has)) (λ m ms lacks. ground (arith, lacks))

windows_for_route-Picked :
    (idx : Index) (route_id cap : ℕ)
    → length idx.windows ≤ cap
    → Picked
        (OfRoute route_id)
        (λ (w : WindowRec). w.window_id)
        idx.windows
        (windows_for_route idx route_id (some cap)).0
      × ((windows_for_route idx route_id (some cap)).1
          ≡ length (windows_for_route idx route_id (some cap)).0)
unfolding windows_for_route
windows_for_route-Picked idx route_id cap room =
    let test : WindowRec → Bool = λ w. (route_id == 0) || (w.route_id == route_id) in
    let sel = select_all_lem test (λ (w : WindowRec). w.window_id) idx.windows cap room in
    (
      subst (Picked (OfRoute route_id) (λ (w : WindowRec). w.window_id) idx.windows)
          (sym (ap (λ s. s.0) sel))
          (kept-Picked (OfRoute route_id) test (λ (w : WindowRec). w.window_id)
            (λ w.
              or_iff (route_id == 0) (w.route_id == route_id) _ _ (eq_iff route_id 0)
                (eq_iff w.route_id route_id))
            idx.windows),
      ap (λ s. s.1) sel ∙ ap (λ s. length s.0) (sym sel),
    )

module _ (less : ℕ → ℕ → Bool)
    (qsort : (MarkerInfo → MarkerInfo → Ordering) → List MarkerInfo → List MarkerInfo) (h : Heap)
    (nodes : Option ℕ) (idx : Index) (plan : QueryPlan) where
  -- What a query that succeeds gives back: the rows that `rv_index_query_markers` puts within the limit,
  -- or of these the ones whose window has a wave, and the ids of the route's windows in their order.
  pub record Answers (qr : QueryResult) : Type 0 where
    pub rows : List MarkerInfo
    pub found : ℕ
    pub queried :
        query_markers less idx plan.filter (some (row_cap less qsort h nodes idx plan))
        ≡ ok (rows, found)
    pub chosen : List MarkerInfo
    pub answered : Perm qr.markers chosen
    pub all_chosen : plan.require_wave ≡ false → chosen ≡ rows
    pub with_wave : plan.require_wave ≡ true → Picked (HasWave idx) (λ m. m) rows chosen
    pub listed :
        Picked
          (OfRoute plan.filter.route_id)
          (λ (w : WindowRec). w.window_id)
          idx.windows
          qr.window_ids
    pub counted : qr.window_count ≡ length qr.window_ids

  sort_rows-perm :
      ((cmp : MarkerInfo → MarkerInfo → Ordering) (ms : List MarkerInfo) → Perm (qsort cmp ms) ms)
      → (rows : List MarkerInfo) → Perm (sort_rows less qsort plan rows) rows
  unfolding sort_rows
  sort_rows-perm sorts rows = elim (Bool-cases (plan.sort_by_distance && ltb 1 (length rows))) [
    | inl by_distance ↦ rw by_distance (sorts (marker_info_cmp_dist less) rows)
    | inr other ↦ elim (Bool-cases (plan.sort_by_severity && ltb 1 (length rows))) [
      | inl by_severity ↦ rw (other, by_severity) (sorts marker_info_cmp_sev rows)
      | inr none_of_them ↦ rw (other, none_of_them) Perm.rfl
    ]
  ]

  waves_inside :
      IsInside idx
      → (rows : List MarkerInfo) (a : Arena) → wave_reads idx plan.require_wave rows a ≡ (ok tt, a)
  waves_inside inside rows a = rw (no_strays rows) (no_fault plan.require_wave)
    where
      no_strays :
          (ms : List MarkerInfo) → any_of (λ m. is_stray (window_of idx m.window_id)) ms ≡ false
      no_strays [] = refl
      no_strays (m ∷ ms) = ground (arith, no_strays ms, window_of_inside idx inside m.window_id)

      no_fault :
          (b : Bool)
          → ◌≡◌ {A = Result (Unit {0}) × Arena} (if b && false then fault else ok tt, a) (ok tt, a)
      no_fault true = refl
      no_fault false = refl

  room_for_ids : length idx.windows ≤ id_cap less qsort h nodes idx plan
  room_for_ids = ground arith

  -- In a block that has room for the rows and for the ids, with an index that lies in it, is ready and
  -- has only positions of its windows, `rv_query_execute` succeeds. Where `qsort` permutes its rows, it
  -- gives back the rows that `rv_index_query_markers` puts within the limit, or with `require_wave` of
  -- these the ones whose window has a wave, and the ids and the number of the windows of its route.
  pub execute-Answers :
      (a a₁ a₂ : Arena)
      → new_items h (row_cap less qsort h nodes idx plan) 20 8 a ≡ (ok tt, a₁)
      → a₁.base ≡ nodes
      → idx.ready ≡ true
      → IsInside idx
      → new_items h (id_cap less qsort h nodes idx plan) 4 4 a₁ ≡ (ok tt, a₂)
      → a₂.base ≡ nodes
      → ((cmp : MarkerInfo → MarkerInfo → Ordering) (ms : List MarkerInfo) → Perm (qsort cmp ms) ms)
      → (qr : QueryResult) × (execute less qsort h nodes idx plan a ≡ (ok qr, a₂)) × Answers qr
  unfolding execute with_rows with_ids
  execute-Answers a a₁ a₂ first at₁ ready inside second at₂ sorts =
      let found =
        select (passes less idx plan.filter) info_of (some (row_cap less qsort h nodes idx plan)) 0
          idx.markers in
      let queried : query_markers less idx plan.filter (some (row_cap less qsort h nodes idx plan))
          ≡ ok found =
        query_markers_inside less idx plan.filter (some (row_cap less qsort h nodes idx plan)) ready
          inside in
      let windows =
        windows_for_route idx plan.filter.route_id (some (id_cap less qsort h nodes idx plan)) in
      let (listed, counted) =
        windows_for_route-Picked idx plan.filter.route_id (id_cap less qsort h nodes idx plan)
          room_for_ids in
      let chosen = if plan.require_wave then with_waves idx found.0 else found.0 in
      let answer : QueryResult = record {
        markers = rows_of less qsort idx plan found.0;
        markers_block = a₁.base;
        window_ids = windows.0;
        windows_block = a₂.base;
        window_count = windows.1;
      } in
      (
        answer,
        rw
            (
              first,
              use_nodes_here nodes idx.markers a₁ at₁,
              queried,
              waves_inside inside found.0 a₁,
              second,
              use_nodes_here nodes idx.windows a₂ at₂,
            )
            refl,
        record {
          rows = found.0;
          found = found.1;
          queried = queried;
          chosen = chosen;
          answered = sort_rows-perm sorts chosen;
          all_chosen = λ plain. rw plain refl;
          with_wave = λ asked. rw asked (with_waves-Picked idx found.0);
          listed = listed;
          counted = counted;
        },
      )
