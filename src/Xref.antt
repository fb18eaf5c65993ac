-- ===== src/Xref.antt =====
-- src/internal/rv_xref.c: the references between the sections of a package.
-- The maps of the index are values here; that their blocks are still the arena's is a precondition of
-- the code's callers. The diagnostics' texts are left out. Pointers are not NULL.
mod Examples
pub mod Resolved
use ray_vault.Base.{
  ℕ, zero, suc, ◌+◌, Bool, true, false, not, ◌&&◌, ◌==◌, if◌then◌else◌, Option, none, some, List,
  [], ◌∷◌, get_elem?, u32, ◌>>=◌,
}
use ray_vault.IdMap
use ray_vault.IdMap.{IdMap}
use ray_vault.Records.{InstRec, CalibRec, WindowRec, MarkerRec, WaveRec, LinkRec}
use ray_vault.Parser.{Parsed}
use ray_vault.Dict.{check_routes, check_instruments, check_markers}

-- The part of `rv_index` that the lookups read; a node has the record that it points to.
pub record Index : Type 0 where
  pub windows : List WindowRec
  pub waves : List WaveRec
  pub markers : List MarkerRec
  pub route_by_id : IdMap
  pub window_by_id : IdMap
  pub wave_by_id : IdMap
  pub ready : Bool

unfoldable pub find_route : Index → ℕ → Option ℕ
find_route idx id = if idx.ready then IdMap.find idx.route_by_id id else none

unfoldable pub find_window : Index → ℕ → Option ℕ
find_window idx id = if idx.ready then IdMap.find idx.window_by_id id else none

unfoldable pub find_wave : Index → ℕ → Option ℕ
find_wave idx id = if idx.ready then IdMap.find idx.wave_by_id id else none

-- The position of the first record with the key, from position i on.
pub position : {A : Type 0} → (A → ℕ) → ℕ → ℕ → List A → Option ℕ
position key id i [] = none
position key id i (x ∷ xs) =
    let rest = position key id (i + 1) xs in if key x == id then some i else rest

unfoldable pub find_inst : Parsed → ℕ → Option ℕ
unfolding position
find_inst p id = position (λ r. r.inst_id) id 0 p.inst

unfoldable pub find_calib : Parsed → ℕ → Option ℕ
unfolding position
find_calib p id = position (λ r. r.calib_id) id 0 p.clbr

pub resolve_calib_for_inst : Parsed → ℕ → Option ℕ
unfolding position
resolve_calib_for_inst p inst_id = position (λ r. r.inst_id) inst_id 0 p.clbr

-- A position of a window outside the nodes would be a read past them; the index has none.
pub resolve_wave_for_window : Index → ℕ → Option ℕ
resolve_wave_for_window idx window_id = do
  wpos ← find_window idx window_id
  w ← get_elem? idx.windows wpos
  find_wave idx w.wave_block_id

pub record XrefReport : Type 0 where
  pub checked : ℕ
  pub failures : ℕ
  pub repaired : ℕ

abbrev pub is_none : {A : Type 0} → Option A → Bool
is_none none = true
is_none (some x) = false

-- The tests of the loops, each of which adds a failure.
unfoldable pub window_tests : Index → Parsed → WindowRec → List Bool
window_tests idx p w =
    is_none (find_route idx w.route_id)
    ∷ is_none (find_inst p w.inst_id)
    ∷ (not (w.calib_id == 0) && is_none (find_calib p w.calib_id))
    ∷ (not (w.wave_block_id == 0) && is_none (find_wave idx w.wave_block_id))
    ∷ []

unfoldable pub marker_tests : Index → MarkerRec → List Bool
marker_tests idx m = is_none (find_window idx m.window_id) ∷ []

unfoldable pub wave_tests : Index → WaveRec → List Bool
wave_tests idx b = (not (b.window_id == 0) && is_none (find_window idx b.window_id)) ∷ []

unfoldable pub link_tests : Index → LinkRec → List Bool
link_tests idx l =
    ((l.from_kind == 1) && is_none (find_route idx l.from_id))
    ∷ ((l.to_kind == 2) && is_none (find_window idx l.to_id))
    ∷ []

unfoldable pub name_tests : Parsed → List Bool
name_tests p =
    not (is_none (check_routes p.snam p.rout))
    ∷ not (is_none (check_instruments p.snam p.inst))
    ∷ not (is_none (check_markers p.snam p.mark))
    ∷ []

-- `if (...) local.failures++;` for each test.
unfoldable pub add_failures : List Bool → ℕ → ℕ
add_failures [] n = n
add_failures (t ∷ ts) n = add_failures ts (if t then u32 (n + 1) else n)

-- A loop of `rv_xref_validate` over a table.
unfoldable pub check_rows : {A : Type 0} → (A → List Bool) → List A → XrefReport → XrefReport
unfolding add_failures
check_rows tests [] rep = rep
check_rows tests (x ∷ xs) rep =
    check_rows tests xs (record rep {
      checked = u32 (rep.checked + 1);
      failures = add_failures (tests x) rep.failures;
    })

abbrev pub no_report : XrefReport
no_report = record { checked = 0; failures = 0; repaired = 0 }

-- `true` is 0.
unfoldable pub xref_validate : Index → Parsed → Bool × XrefReport
unfolding check_rows
xref_validate idx p =
    let rep = check_rows (window_tests idx p) p.wind no_report in
    let rep = check_rows (marker_tests idx) p.mark rep in
    let rep = check_rows (wave_tests idx) p.wave rep in
    let rep = check_rows (link_tests idx) p.link rep in
    let rep = record rep { failures = add_failures (name_tests p) rep.failures } in
    (rep.failures == 0, rep)
