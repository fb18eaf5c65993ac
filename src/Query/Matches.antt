-- ===== src/Query/Matches.antt =====
-- The markers that `rv_index_query_markers` selects.
use ray_vault.Base.{
  zero, suc, [], ◌∷◌, ◌<◌, get_elem?, Option-cases, ℕ, ◌≤◌, ◌≡◌, ◌⊎◌, inl, inr, refl, ap, sym, ◌∙◌,
  Bool, true, false, not, ◌&&◌, ◌||◌, ◌==◌, ltb, if◌then◌else◌, Option, some, List, ◌++◌, length,
  All, arith, subst, ◌↔◌,
}
use mathlib.Core.List.{map, Perm}
use native.Mathlib.Nat.{zero-add}
use ray_vault.Records.{MarkerRec, WindowRec}
use ray_vault.Xref.{Index, find_window}
use ray_vault.Decoding.{ok, err, fault}
use ray_vault.Query.{
  MarkerInfo, Lookup, missing, at, stray, any_of, is_stray, reads_past, info_of, select, window_of,
  holds_of, QueryFilter, is_zero, passes, query_markers,
}
use ray_vault.Picked.{Picked}
use ray_vault.Query.Selected.{
  kept, others, kept-perm, All-kept, All-others, cut, select_lem, kept-Picked_self,
}

-- The window of a marker, as the index has it, satisfies P.
abbrev pub OnWindow : Index → ℕ → (WindowRec → Type 0) → Type 0
OnWindow idx id P = (w : WindowRec) × (window_of idx id ≡ at w) × P w

-- What the filter asks of a marker; 0 asks nothing.
pub record Matches (less : ℕ → ℕ → Bool) (idx : Index) (f : QueryFilter) (m : MarkerRec)
    : Type 0 where
  pub of_kind : (f.marker_kind ≡ 0) ⊎ (m.kind ≡ f.marker_kind)
  pub severe : f.min_severity ≤ m.severity
  pub within :
      ((is_zero f.min_distance_m ≡ true) × (is_zero f.max_distance_m ≡ true))
      ⊎ ((less m.distance_m f.min_distance_m ≡ false)
          × ((less 0 f.max_distance_m ≡ false) ⊎ (less f.max_distance_m m.distance_m ≡ false)))
  pub on_route : (f.route_id ≡ 0) ⊎ OnWindow idx m.window_id (λ w. w.route_id ≡ f.route_id)
  pub by_instrument :
      (f.instrument_id ≡ 0) ⊎ OnWindow idx m.window_id (λ w. w.inst_id ≡ f.instrument_id)

-- Each position that the index has for a window is one of its windows.
abbrev pub IsInside : Index → Type 0
IsInside idx = (id pos : ℕ) → find_window idx id ≡ some pos → pos < length idx.windows

at_position :
    {A : Type 0} (xs : List A) (i : ℕ) → i < length xs → (x : A) × (get_elem? xs i ≡ some x)
at_position [] i l = absurd (omega (arith, l))
at_position (x ∷ xs) zero l = (x, refl)
at_position (x ∷ xs) (suc i) l = at_position xs i (omega (arith, l))

pub window_of_inside : (idx : Index) → IsInside idx → (id : ℕ) → is_stray (window_of idx id) ≡ false
unfolding window_of
window_of_inside idx inside id = elim (Option-cases (find_window idx id)) [
  | inl unknown ↦ ground (arith, unknown)
  | inr (pos, known) ↦
      let (w, there) = at_position idx.windows pos (inside id pos known) in
      ground (arith, known, there)
]

pub holds_iff :
    (test : WindowRec → Bool) (P : WindowRec → Type 0) (o : Lookup)
    → ((w : WindowRec) → (test w ≡ true) ↔ P w)
    → (holds_of test o ≡ true) ↔ ((w : WindowRec) × (o ≡ at w) × P w)
holds_iff test P missing h = (λ e. cc, λ (w, e, p). cc)
holds_iff test P stray h = (λ e. cc, λ (w, e, p). cc)
holds_iff test P (at v) h =
    (λ e. (v, refl, (h v).0 e), λ (w, e, p). (h v).1 (subst P (sym (same w e)) p))
  where
    same : (w : WindowRec) → Lookup.at v ≡ at w → v ≡ w
    same w e = cc

pub or_iff :
    (a b : Bool) (P Q : Type 0) → (a ≡ true) ↔ P → (b ≡ true) ↔ Q → ((a || b) ≡ true) ↔ (P ⊎ Q)
or_iff true b P Q p q = (λ e. inl (p.0 refl), λ s. refl)
or_iff false b P Q p q =
    (λ e. inr (q.0 e), λ s. elim s [ inl x ↦ let wrong = p.1 x in cc | inr y ↦ q.1 y ])

pub and_iff :
    (a b : Bool) (P Q : Type 0) → (a ≡ true) ↔ P → (b ≡ true) ↔ Q → ((a && b) ≡ true) ↔ (P × Q)
and_iff true b P Q p q = (λ e. (p.0 refl, q.0 e), λ (x, y). q.1 y)
and_iff false b P Q p q = (λ e. cc, λ (x, y). let wrong = p.1 x in cc)

pub not_iff : (a : Bool) → (not a ≡ true) ↔ (a ≡ false)
not_iff true = (λ e. cc, λ e. cc)
not_iff false = (λ e. refl, λ e. refl)

pub not_and_iff : (a b : Bool) → (not (a && b) ≡ true) ↔ ((a ≡ false) ⊎ (b ≡ false))
not_and_iff true b =
    (λ e. inr ((not_iff b).0 e), λ s. elim s [ inl x ↦ cc | inr y ↦ (not_iff b).1 y ])
not_and_iff false b = (λ e. inl refl, λ s. refl)

pub eq_iff : (m n : ℕ) → ((m == n) ≡ true) ↔ (m ≡ n)
eq_iff m n = (λ e. ground (arith, e), λ e. ground (arith, e))

selected :
    {A : Type 0} (ready past : Bool) (answer : A × ℕ) (rows : A) (n : ℕ)
    → (if not ready then err else if past then fault else ok answer) ≡ ok (rows, n)
    → (rows, n) ≡ answer
selected true true answer rows n e = cc
selected true false answer rows n e = cc
selected false past answer rows n e = cc

same_iff : (b : Bool) → (b ≡ true) ↔ (b ≡ true)
same_iff b = (λ e. e, λ e. e)

module _ (less : ℕ → ℕ → Bool) (idx : Index) (f : QueryFilter) where
  abbrev on_window : MarkerRec → (WindowRec → ℕ) → ℕ → Bool
  on_window m key id = id == 0 || holds_of (λ w. key w == id) (window_of idx m.window_id)

  on_window_iff :
      (m : MarkerRec) (key : WindowRec → ℕ) (id : ℕ)
      → (on_window m key id ≡ true) ↔ ((id ≡ 0) ⊎ OnWindow idx m.window_id (λ w. key w ≡ id))
  on_window_iff m key id = or_iff (id == 0) _ _ _ (eq_iff id 0) (
      holds_iff (λ w. key w == id) (λ w. key w ≡ id) (window_of idx m.window_id)
        (λ w. eq_iff (key w) id))

  passes_iff : (m : MarkerRec) → (passes less idx f m ≡ true) ↔ Matches less idx f m
  unfolding passes
  passes_iff m =
      let kind =
        or_iff (f.marker_kind == 0) (m.kind == f.marker_kind) _ _ (eq_iff f.marker_kind 0)
          (eq_iff m.kind f.marker_kind) in
      let severe : (not (ltb m.severity f.min_severity) ≡ true) ↔ (f.min_severity ≤ m.severity) =
        (λ e. ground (arith, e), λ h. ground (arith, h)) in
      let zeros =
        and_iff (is_zero f.min_distance_m) (is_zero f.max_distance_m) _ _ (same_iff _)
          (same_iff _) in
      let range =
        and_iff (not (less m.distance_m f.min_distance_m)) _ _ _ (not_iff _)
          (not_and_iff (less 0 f.max_distance_m) (less f.max_distance_m m.distance_m)) in
      let near = or_iff _ _ _ _ zeros range in
      let route = on_window_iff m (λ w. w.route_id) f.route_id in
      let instrument = on_window_iff m (λ w. w.inst_id) f.instrument_id in
      let all =
        and_iff _ _ _ _ (and_iff _ _ _ _ (and_iff _ _ _ _ (and_iff _ _ _ _ kind severe) near) route)
          instrument in
      (
        λ e.
            let ((((a, b), c), d), g) = all.0 e in
            record { of_kind = a; severe = b; within = c; on_route = d; by_instrument = g },
        λ h. all.1 ((((h.of_kind, h.severe), h.within), h.on_route), h.by_instrument),
      )

  -- Where `rv_index_query_markers` succeeds, it has put the markers that match the filter, in their
  -- order, as far as there is room, and counted all of them: the table consists of these markers and of
  -- others that do not match.
  pub query_markers_lem :
      (out : Option ℕ) (rows : List MarkerInfo) (n : ℕ)
      → query_markers less idx f out ≡ ok (rows, n)
      → (found missed : List MarkerRec) × Perm (found ++ missed) idx.markers
        × All (Matches less idx f) found
        × All (λ (m : MarkerRec). ¬ Matches less idx f m) missed
        × Picked (Matches less idx f) (λ m. m) idx.markers found
        × (rows ≡ cut out 0 (map info_of found))
        × (n ≡ length found)
  unfolding query_markers
  query_markers_lem out rows n e =
      let test = passes less idx f in
      let sel = select_lem test info_of out 0 idx.markers in
      let answer : (rows, n) ≡ select test info_of out 0 idx.markers =
        selected idx.ready (any_of (reads_past less idx f) idx.markers) _ rows n e in
      (
        kept test idx.markers,
        others test idx.markers,
        kept-perm test idx.markers,
        All-kept test (Matches less idx f) (λ m t. (passes_iff m).0 t) idx.markers,
        All-others test (λ m. ¬ Matches less idx f m) (λ m off h. let t = (passes_iff m).1 h in cc)
            idx.markers,
        kept-Picked_self (Matches less idx f) test passes_iff idx.markers,
        ap (λ p. p.0) (answer ∙ sel),
        ap (λ p. p.1) (answer ∙ sel) ∙ zero-add (length (kept test idx.markers)),
      )

  -- A ready index that is inside its windows is queried without a read past them.
  pub query_markers_inside :
      (out : Option ℕ)
      → idx.ready ≡ true
      → IsInside idx
      → query_markers less idx f out ≡ ok (select (passes less idx f) info_of out 0 idx.markers)
  unfolding query_markers
  query_markers_inside out ready inside = simp (ready, no_reads_past idx.markers)
    where
      no_reads_past : (ms : List MarkerRec) → any_of (reads_past less idx f) ms ≡ false
      no_reads_past [] = refl
      no_reads_past (m ∷ ms) =
          ground (arith, no_reads_past ms, window_of_inside idx inside m.window_id)
