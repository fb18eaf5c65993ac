-- ===== src/Query/Filter/Windows.antt =====
-- The windows that pass a span filter.
use ray_vault.Base.{
  ℕ, ◌≤◌, ◌≡◌, ◌≢◌, ◌⊎◌, ◌↔◌, inl, inr, refl, Bool, true, false, not, ◌==◌, ltb, Bool-cases, Option,
  none, some, List, [], ◌∷◌, ◌++◌, length, ◌-◌, ◌∙◌, All, arith, sym, ap,
}
use mathlib.Core.List.{map, Perm}
use ray_vault.Arena.{Arena, Heap}
use ray_vault.Decoding.{ok, new_items, >>=-eq-ok, done-ok, when-ok}
use ray_vault.Records.{InstRec, WindowRec}
use ray_vault.Parser.{Parsed}
use ray_vault.Query.{select}
use ray_vault.Query.Matches.{or_iff, and_iff, not_and_iff, eq_iff}
use ray_vault.Picked.{Picked}
use ray_vault.Query.Selected.{
  kept-Picked_self, kept-few, take_enough, length-map, kept, others, kept-perm, All-kept,
  All-others, select_lem,
}
use ray_vault.Query.Execute.{use_nodes, use_nodes_here}
use ray_vault.Query.Filter.{
  SpanFilter, FilteredWindows, has_wavelength, match_window, fill_ids, filter_windows,
}

-- The first instrument with the id has the wavelength.
abbrev pub First : ℕ → ℕ → List InstRec → Type 0
First inst_id nm [] = ⊥
First inst_id nm (r ∷ rs) =
    ((r.inst_id ≡ inst_id) × (r.wavelength_nm ≡ nm)) ⊎ ((r.inst_id ≢ inst_id) × First inst_id nm rs)

-- What the filter asks of a window; 0 asks nothing.
pub record Passes (less : ℕ → ℕ → Bool) (p : Parsed) (f : SpanFilter) (w : WindowRec) : Type 0 where
  pub of_route : (f.route_id ≡ 0) ⊎ (w.route_id ≡ f.route_id)
  pub by_instrument : (f.inst_id ≡ 0) ⊎ (w.inst_id ≡ f.inst_id)
  pub not_before : (f.acquired_after ≡ 0) ⊎ (f.acquired_after ≤ w.acquired_unix)
  pub not_after : (f.acquired_before ≡ 0) ⊎ (w.acquired_unix ≤ f.acquired_before)
  pub not_short : (less 0 f.min_range_km ≡ false) ⊎ (less w.range_km f.min_range_km ≡ false)
  pub not_long : (less 0 f.max_range_km ≡ false) ⊎ (less f.max_range_km w.range_km ≡ false)
  pub of_wavelength : (f.wavelength_nm ≡ 0) ⊎ First w.inst_id f.wavelength_nm p.inst

has_wavelength_iff :
    (id nm : ℕ) (rs : List InstRec) → (has_wavelength id nm rs ≡ true) ↔ First id nm rs
unfolding has_wavelength
has_wavelength_iff id nm [] = (λ e. cc, λ s. elim s [ ])
has_wavelength_iff id nm (r ∷ rs) = elim (Bool-cases (r.inst_id == id)) [
  | inl same ↦ (
    λ e. inl (ground (arith, same), ground (arith, same, e)),
    λ s. elim s [
      | inl (i, n) ↦ ground (arith, same, n)
      | inr (d, q) ↦ absurd (d (ground (arith, same)))
    ],
  )
  | inr other ↦ (
    λ e. inr (ground (arith, other), (has_wavelength_iff id nm rs).0 (ground (arith, other, e))),
    λ s. elim s [
      | inl (i, n) ↦ ground (arith, other, i)
      | inr (d, q) ↦ let t = (has_wavelength_iff id nm rs).1 q in ground (arith, other, t)
    ],
  )
]

not_below_iff : (a b : ℕ) → (not (ltb a b) ≡ true) ↔ (b ≤ a)
not_below_iff a b = (λ e. ground (arith, e), λ h. ground (arith, h))

no_items : {A : Type 0} (xs : List A) → length xs ≡ 0 → xs ≡ []
no_items [] e = refl
no_items (x ∷ xs) e = absurd (omega (arith, e))

module _ (less : ℕ → ℕ → Bool) (p : Parsed) (f : SpanFilter) where
  match_window_iff : (w : WindowRec) → (match_window less p f w ≡ true) ↔ Passes less p f w
  unfolding match_window
  match_window_iff w =
      let route =
        or_iff (f.route_id == 0) (w.route_id == f.route_id) _ _ (eq_iff f.route_id 0)
          (eq_iff w.route_id f.route_id) in
      let inst =
        or_iff (f.inst_id == 0) (w.inst_id == f.inst_id) _ _ (eq_iff f.inst_id 0)
          (eq_iff w.inst_id f.inst_id) in
      let after =
        or_iff (f.acquired_after == 0) _ _ _ (eq_iff f.acquired_after 0)
          (not_below_iff w.acquired_unix f.acquired_after) in
      let before =
        or_iff (f.acquired_before == 0) _ _ _ (eq_iff f.acquired_before 0)
          (not_below_iff f.acquired_before w.acquired_unix) in
      let short = not_and_iff (less 0 f.min_range_km) (less w.range_km f.min_range_km) in
      let long = not_and_iff (less 0 f.max_range_km) (less f.max_range_km w.range_km) in
      let wavelength =
        or_iff (f.wavelength_nm == 0) _ _ _ (eq_iff f.wavelength_nm 0)
          (has_wavelength_iff w.inst_id f.wavelength_nm p.inst) in
      let times = and_iff _ _ _ _ (and_iff _ _ _ _ (and_iff _ _ _ _ route inst) after) before in
      let all = and_iff _ _ _ _ (and_iff _ _ _ _ (and_iff _ _ _ _ times short) long) wavelength in
      (
        λ e.
            let ((((((a, b), c), d), g), h), k) = all.0 e in
            record {
              of_route = a;
              by_instrument = b;
              not_before = c;
              not_after = d;
              not_short = g;
              not_long = h;
              of_wavelength = k;
            },
        λ v. all.1 (
          (((((v.of_route, v.by_instrument), v.not_before), v.not_after), v.not_short), v.not_long),
          v.of_wavelength,
        ),
      )

  kept_ids : List ℕ
  kept_ids = map (λ (w : WindowRec). w.window_id) (kept (match_window less p f) p.wind)

  abbrev found_ids : Option ℕ → List ℕ × ℕ
  found_ids out = select (match_window less p f) (λ (w : WindowRec). w.window_id) out 0 p.wind

  -- There is room for all the ids that the second loop writes.
  found_ids_lem : (found_ids (some (length p.wind))).0 ≡ kept_ids
  unfolding kept_ids
  found_ids_lem =
      ap (λ s. s.0)
        (select_lem (match_window less p f) (λ (w : WindowRec). w.window_id) (some (length p.wind))
          0 p.wind)
      ∙ take_enough _ (length p.wind - 0) (
          omega (
            arith,
            kept-few (match_window less p f) p.wind,
            length-map (λ (w : WindowRec). w.window_id) (kept (match_window less p f) p.wind),
          ))

  found_few : (found_ids none).1 ≤ length p.wind
  found_few =
      let few = kept-few (match_window less p f) p.wind in
      let n =
        ap (λ s. s.1)
          (select_lem (match_window less p f) (λ (w : WindowRec). w.window_id) none 0 p.wind) in
      omega (arith, few, n)

  none_found : (found_ids none).1 ≡ 0 → kept_ids ≡ []
  unfolding kept_ids
  none_found e =
      let n =
        ap (λ s. s.1)
          (select_lem (match_window less p f) (λ (w : WindowRec). w.window_id) none 0 p.wind) in
      ap (map (λ (w : WindowRec). w.window_id))
        (no_items (kept (match_window less p f) p.wind) (omega (arith, n, e)))

  filled_ids :
      (h : Heap) (tables : Option ℕ) (a a' : Arena) (r : FilteredWindows)
      → filter_windows less h tables p f a ≡ (ok r, a')
      → r.ids ≡ kept_ids
  unfolding filter_windows fill_ids
  filled_ids h tables a a' r e =
      let (u₁, a₁, s₁, e₁) = >>=-eq-ok (use_nodes tables p.wind) _ a r a' e in
      elim (when-ok ((found_ids none).1 == 0) (record { ids = []; block = none }) _ a₁ r a' e₁) [
        | inl (empty, same) ↦
            sym (ap (λ (q : FilteredWindows). q.ids) same)
            ∙ sym (none_found ((eq_iff (found_ids none).1 0).0 empty))
        | inr e₂ ↦
            let (u₂, a₂, s₂, e₃) = >>=-eq-ok (new_items h (found_ids none).1 4 4) _ a₁ r a' e₂ in
            let (u₃, a₃, s₃, e₄) = >>=-eq-ok (use_nodes tables p.wind) _ a₂ r a' e₃ in
            sym (
              ap (λ (q : FilteredWindows). q.ids)
                (done-ok (record { ids = (found_ids (some (length p.wind))).0; block = a₂.base }) r
                  a₃ a' e₄))
            ∙ found_ids_lem
      ]

  -- The ids are those of the windows that pass, in their order: the table consists of these windows and
  -- of others that do not pass.
  abbrev pub Filtered : List ℕ → Type 0
  Filtered ids =
      (found missed : List WindowRec) × Perm (found ++ missed) p.wind
      × All (Passes less p f) found
      × All (λ (w : WindowRec). ¬ Passes less p f w) missed
      × Picked (Passes less p f) (λ w. w) p.wind found
      × (ids ≡ map (λ (w : WindowRec). w.window_id) found)

  filter_windows_lem :
      (h : Heap) (tables : Option ℕ) (a a' : Arena) (r : FilteredWindows)
      → filter_windows less h tables p f a ≡ (ok r, a')
      → Filtered r.ids
  unfolding kept_ids
  filter_windows_lem h tables a a' r e =
      let test = match_window less p f in
      (
        kept test p.wind,
        others test p.wind,
        kept-perm test p.wind,
        All-kept test (Passes less p f) (λ w t. (match_window_iff w).0 t) p.wind,
        All-others test (λ w. ¬ Passes less p f w)
            (λ w off v. let t = (match_window_iff w).1 v in cc) p.wind,
        kept-Picked_self (Passes less p f) test match_window_iff p.wind,
        filled_ids h tables a a' r e,
      )

  -- In a block that holds the tables and has room for any ids of their windows, `rv_span_filter_windows`
  -- succeeds, and the ids that it gives back are those of the windows that pass the filter, in their
  -- order: the table consists of these windows and of others that do not pass.
  pub filter_windows-Filtered :
      (h : Heap) (a : Arena)
      → ((n : ℕ)
          → n ≤ length p.wind
          → (a' : Arena) × (new_items h n 4 4 a ≡ (ok tt, a')) × (a'.base ≡ a.base))
      → (r : FilteredWindows) × (a' : Arena) × (filter_windows less h a.base p f a ≡ (ok r, a'))
        × Filtered r.ids
  unfolding filter_windows fill_ids
  filter_windows-Filtered h a room = elim (Bool-cases ((found_ids none).1 == 0)) [
    | inl empty ↦
        let runs : filter_windows less h a.base p f a
            ≡ (ok (record { ids = []; block = none }), a) =
          rw (use_nodes_here a.base p.wind a refl, empty) refl in
        (_, _, runs, filter_windows_lem h a.base a _ _ runs)
    | inr given ↦
        let (a₁, got, at) = room (found_ids none).1 found_few in
        let r : FilteredWindows = record {
          ids = (found_ids (some (length p.wind))).0;
          block = a₁.base;
        } in
        let runs : filter_windows less h a.base p f a ≡ (ok r, a₁) =
          rw (use_nodes_here a.base p.wind a refl, given, got, use_nodes_here a.base p.wind a₁ at)
            refl in
        (_, _, runs, filter_windows_lem h a.base a _ _ runs)
  ]
