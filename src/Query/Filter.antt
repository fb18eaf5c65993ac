-- ===== src/Query/Filter.antt =====
-- src/internal/rv_filter.c: the windows that a span filter lets pass, and their markers.
-- The tables lie in the block `tables` of the arena. Comparisons of floats are the parameter `less`.
pub mod Windows
use ray_vault.Base.{
  ℕ, ◌≤◌, ◌≡◌, ◌≢◌, ◌⊎◌, ◌↔◌, inl, inr, refl, Bool, true, false, not, ◌&&◌, ◌||◌, ◌==◌, ltb,
  Bool-cases, if◌then◌else◌, Option, none, some, List, [], ◌∷◌, ◌++◌, length, take, ◌-◌, zero, suc,
  ◌∙◌, All, arith, sym, ap,
}
use mathlib.Core.List.{map, Perm}
use ray_vault.Arena.{Arena, Heap}
use ray_vault.Decoding.{Decoder, ok, ◌>>◌, done, new_items, >>=-eq-ok, done-ok, when-ok}
use ray_vault.Records.{InstRec, WindowRec}
use ray_vault.Parser.{Parsed}
use ray_vault.Xref.{Index}
use ray_vault.Query.{MarkerInfo, info_of, select}
use ray_vault.Query.Execute.{use_nodes}

pub record SpanFilter : Type 0 where
  pub route_id : ℕ
  pub inst_id : ℕ
  pub acquired_after : ℕ
  pub acquired_before : ℕ
  pub min_range_km : ℕ
  pub max_range_km : ℕ
  pub wavelength_nm : ℕ

abbrev pub span_filter_init : SpanFilter
span_filter_init = record {
  route_id = 0;
  inst_id = 0;
  acquired_after = 0;
  acquired_before = 0;
  min_range_km = 0;
  max_range_km = 0;
  wavelength_nm = 0;
}

-- The first instrument with the id has the wavelength.
unfoldable pub has_wavelength : ℕ → ℕ → List InstRec → Bool
has_wavelength inst_id nm [] = false
has_wavelength inst_id nm (r ∷ rs) =
    if r.inst_id == inst_id then r.wavelength_nm == nm else has_wavelength inst_id nm rs

-- The array of ids in the arena.
pub record FilteredWindows : Type 0 where
  pub ids : List ℕ
  pub block : Option ℕ

unfoldable pub is_listed : ℕ → List ℕ → Bool
is_listed id [] = false
is_listed id (x ∷ xs) = id == x || is_listed id xs

-- `rv_span_filter_apply_to_markers`.
unfoldable pub apply_to_markers : Index → List ℕ → Option ℕ → List MarkerInfo × ℕ
apply_to_markers idx ids out = select (λ m. is_listed m.window_id ids) info_of out 0 idx.markers

module _ (less : ℕ → ℕ → Bool) where
  unfoldable pub match_window : Parsed → SpanFilter → WindowRec → Bool
  match_window p f w =
      (f.route_id == 0 || w.route_id == f.route_id)
      && (f.inst_id == 0 || w.inst_id == f.inst_id)
      && (f.acquired_after == 0 || not (ltb w.acquired_unix f.acquired_after))
      && (f.acquired_before == 0 || not (ltb f.acquired_before w.acquired_unix))
      && not (less 0 f.min_range_km && less w.range_km f.min_range_km)
      && not (less 0 f.max_range_km && less f.max_range_km w.range_km)
      && (f.wavelength_nm == 0 || has_wavelength w.inst_id f.wavelength_nm p.inst)

  -- The second loop, behind the room for the ids. It writes without a test.
  unfoldable pub fill_ids : Option ℕ → Parsed → SpanFilter → Decoder FilteredWindows
  fill_ids tables p f a =
      (use_nodes tables p.wind
          >> done (record {
            ids =
                (select (match_window p f) (λ (w : WindowRec). w.window_id) (some (length p.wind)) 0
                  p.wind).0;
            block = a.base;
          }))
        a

  -- `rv_span_filter_windows`; the first loop counts the windows that pass.
  unfoldable pub filter_windows : Heap → Option ℕ → Parsed → SpanFilter → Decoder FilteredWindows
  filter_windows h tables p f = do
    use_nodes tables p.wind
    let n = (select (match_window p f) (λ (w : WindowRec). w.window_id) none 0 p.wind).1
    (if n == 0
        then done (record { ids = []; block = none })
        else (new_items h n 4 4 >> fill_ids tables p f))
