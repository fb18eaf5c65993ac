-- ===== src/Normalize.antt =====
-- src/internal/rv_normalize.c: the pass over decoded tables, and the repair of src/internal/rv_recover.c.
-- Pointers are not NULL; the repair's message is left out.
pub mod Sorting
pub mod Repaired
mod Examples
use ray_vault.Base.{
  ℕ, ◌+◌, Bool, true, false, not, ◌&&◌, ◌||◌, ◌==◌, ltb, if◌then◌else◌, List, [], ◌∷◌, length,
  bit_or, u32,
}
use ray_vault.Records.{RouteRec, WindowRec, WaveRec, MarkerRec, LinkRec}
use ray_vault.Reader.{Reader}
use ray_vault.Parser.{Parsed}

pub record NormalizeStats : Type 0 where
  pub sorted_windows : ℕ
  pub clamped_severity : ℕ
  pub filled_wave_links : ℕ
  pub dropped_zero_routes : ℕ

-- The inner loop of the insertion sort, which swaps a record down. The records before it are listed
-- from the last to the first.
unfoldable pub swap_down : WindowRec → List WindowRec → List WindowRec
swap_down w [] = w ∷ []
swap_down w (v ∷ vs) = if ltb w.window_id v.window_id then v ∷ swap_down w vs else w ∷ v ∷ vs

-- The outer loop; the records that it has sorted are listed from the last to the first.
unfoldable pub sort_from : List WindowRec → List WindowRec → List WindowRec
sort_from front [] = front
sort_from front (w ∷ ws) = sort_from (swap_down w front) ws

-- A list from the last to the first, in front of another.
abbrev pub turned : {A : Type 0} → List A → List A → List A
turned [] ys = ys
turned (x ∷ xs) ys = turned xs (x ∷ ys)

unfoldable pub sort_windows_by_id : List WindowRec → List WindowRec
sort_windows_by_id ws = turned (sort_from [] ws) []

unfoldable pub clamp_severity : MarkerRec → MarkerRec
clamp_severity m = if ltb 100 m.severity then record m { severity = 100 } else m

-- `b->window_id == 0 && p->wind.count == 1`.
unfoldable pub fill_link : List WindowRec → WaveRec → WaveRec
fill_link (w ∷ []) b = if b.window_id == 0 then record b { window_id = w.window_id } else b
fill_link ws b = b

-- A loop that changes each item, and one that counts.
abbrev pub each : {A : Type 0} → (A → A) → List A → List A
each f [] = []
each f (x ∷ xs) = f x ∷ each f xs

abbrev pub count_if : {A : Type 0} → (A → Bool) → ℕ → List A → ℕ
count_if test n [] = n
count_if test n (x ∷ xs) = count_if test (if test x then u32 (n + 1) else n) xs

unfoldable pub normalize_parsed : Parsed → Parsed × NormalizeStats
normalize_parsed p =
    let wind = sort_windows_by_id p.wind in
    (
      record p {
        wind = wind;
        mark = each clamp_severity p.mark;
        wave = each (fill_link wind) p.wave;
      },
      record {
        sorted_windows = length wind;
        clamped_severity = count_if (λ m. ltb 100 m.severity) 0 p.mark;
        filled_wave_links = count_if (λ b. b.window_id == 0 && length wind == 1) 0 p.wave;
        dropped_zero_routes = count_if (λ r. r.route_id == 0) 0 p.rout;
      },
    )

pub record RepairOptions : Type 0 where
  pub rebuild_summ : Bool
  pub drop_bad_links : Bool
  pub clamp_ranges : Bool
  pub synthesize_missing_names : Bool

-- `rv_repair_options_default`.
abbrev pub repair_options : RepairOptions
repair_options = record {
  rebuild_summ = true;
  drop_bad_links = true;
  clamp_ranges = true;
  synthesize_missing_names = false;
}

unfoldable pub has_marker : ℕ → List MarkerRec → Bool
has_marker id [] = false
has_marker id (m ∷ ms) = m.marker_id == id || has_marker id ms

unfoldable pub keep_link : List MarkerRec → LinkRec → Bool
keep_link marks l = not (l.from_kind == 3) || has_marker l.from_id marks

-- The compaction in place: what is kept moves to the front.
unfoldable pub compact_links : List MarkerRec → List LinkRec → List LinkRec
compact_links marks [] = []
compact_links marks (l ∷ ls) =
    if keep_link marks l then l ∷ compact_links marks ls else compact_links marks ls

unfoldable pub drop_links : Parsed → Parsed
drop_links p = record p { link = compact_links p.mark p.link }

unfoldable pub summarize : Reader → Parsed → Parsed
summarize r p = record p {
  summ = record p.summ {
    route_count = length p.rout;
    window_count = length p.wind;
    marker_count = length p.mark;
    wave_count = length p.wave;
    name_count = length p.snam.entries;
    payload_bytes = length r.backing;
    flags = bit_or p.summ.flags 1;
  };
  has_summ = true;
}

unfoldable pub repair_package : Reader → RepairOptions → Parsed → Parsed
repair_package r o p =
    let p = if o.clamp_ranges then (normalize_parsed p).0 else p in
    let p = if o.drop_bad_links then drop_links p else p in
    if o.rebuild_summ then summarize r p else p
