-- ===== src/Merge.antt =====
-- src/internal/rv_merge.c: two decoded packages into one builder.
-- Pointers are not NULL; the samples of a decoded wave are there. The indexes, which the code does
-- not read, are left out. Tables stay where they are meanwhile: the builder does not use the arena.
pub mod Rows
pub mod Added
pub mod Shifted
pub mod Spec
pub mod Steps
pub mod Merged
pub mod Granted
pub mod Names
mod Examples
use ray_vault.Base.{
  ℕ, ◌+◌, Bool, true, false, not, ◌&&◌, ◌||◌, ◌==◌, if◌then◌else◌, Option, none, some, List, [],
  ◌∷◌, ◌++◌, length, u32,
}
use mathlib.Core.List.{map}
use ray_vault.Records.{RouteRec, InstRec, CalibRec, WindowRec, WaveRec, MarkerRec, LinkRec, NoteRec}
use ray_vault.Section.Blobs.{NameEntry, SnamTable}
use ray_vault.Dict.{by_id}
use ray_vault.Parser.{Parsed}
use ray_vault.Builder.{
  Builder, add_route, add_inst, add_calib, add_window, add_wave_copy, add_marker, add_link,
  add_note,
}
use ray_vault.Builder.Names.{add_name}

pub record MergeOptions : Type 0 where
  pub prefer_right_on_conflict : Bool
  pub remap_colliding_ids : Bool
  pub drop_unlinked_markers : Bool
  pub include_notes : Bool

-- `rv_merge_options_default`.
abbrev pub merge_options : MergeOptions
merge_options = record {
  prefer_right_on_conflict = true;
  remap_colliding_ids = true;
  drop_unlinked_markers = true;
  include_notes = true;
}

pub record MergeStats : Type 0 where
  pub routes_merged : ℕ
  pub windows_merged : ℕ
  pub markers_merged : ℕ
  pub waves_merged : ℕ
  pub names_merged : ℕ
  pub ids_remapped : ℕ
  pub markers_dropped : ℕ

abbrev pub no_stats : MergeStats
no_stats = record {
  routes_merged = 0;
  windows_merged = 0;
  markers_merged = 0;
  waves_merged = 0;
  names_merged = 0;
  ids_remapped = 0;
  markers_dropped = 0;
}

-- What a merge changes; a step gives `false` for -1.
pub record Merge : Type 0 where
  pub out : Builder
  pub st : MergeStats

abbrev pub Step : Type 0
Step = Merge → Bool × Merge

-- Steps in their order, up to the first that fails.
abbrev pub then_ : Step → Step → Step
then_ s k m = let (done, m') = s m in if done then k m' else (false, m')

abbrev pub all_of : List Step → Step
all_of [] m = (true, m)
all_of (s ∷ ss) m = then_ s (all_of ss) m

-- What `rv_builder_add_*` gives back, and the count of what was added.
abbrev pub added : (MergeStats → MergeStats) → Bool × Builder → Step
added counted (false, b) m = (false, record m { out = b })
added counted (true, b) m = (true, record m { out = b; st = counted m.st })

abbrev pub same_stats : MergeStats → MergeStats
same_stats st = st

abbrev pub count_wave : MergeStats → MergeStats
count_wave st = record st { waves_merged = u32 (st.waves_merged + 1) }

abbrev pub count_marker : MergeStats → MergeStats
count_marker st = record st { markers_merged = u32 (st.markers_merged + 1) }

-- A C string ends before its first 0.
unfoldable pub c_string : List ℕ → List ℕ
c_string [] = []
c_string (x ∷ xs) = if x == 0 then [] else x ∷ c_string xs

-- The id that is given for `id`, and whether it counts as remapped.
abbrev pub mapped : ℕ → Merge → Option ℕ × Builder → ℕ × Merge
mapped id m (none, b) = (0, record m { out = b })
mapped id m (some nid, b) = (
  nid,
  record m {
    out = b;
    st = if nid == id then m.st else record m.st { ids_remapped = u32 (m.st.ids_remapped + 1) };
  },
)

module _ (bias : ℕ) where
  abbrev pub shift_calib : CalibRec → CalibRec
  shift_calib c = record c { calib_id = u32 (c.calib_id + bias); inst_id = u32 (c.inst_id + bias) }

  -- The flags are not copied.
  abbrev pub shift_window : WindowRec → WindowRec
  shift_window w = record w {
    window_id = u32 (w.window_id + bias);
    route_id = u32 (w.route_id + bias);
    inst_id = u32 (w.inst_id + bias);
    calib_id = u32 (w.calib_id + bias);
    wave_block_id = u32 (w.wave_block_id + bias);
    flags = 0;
  }

  abbrev pub shift_link : LinkRec → LinkRec
  shift_link l = record l {
    link_id = u32 (l.link_id + bias);
    from_id = u32 (l.from_id + bias);
    to_id = u32 (l.to_id + bias);
  }

-- The search for the window of a marker.
unfoldable pub is_linked : ℕ → List WindowRec → Bool
is_linked id [] = false
is_linked id (w ∷ ws) = w.window_id == id || is_linked id ws

module _ (grants : ℕ → Bool) where
  -- `rv_merge_map_name`.
  unfoldable pub map_name : SnamTable → ℕ → Merge → ℕ × Merge
  map_name snam id m = if id == 0 then (0, m) else elim (by_id snam id) [
    | none ↦ (0, m)
    | some e ↦ mapped id m (add_name grants m.out (c_string e.str))
  ]

  unfoldable pub merge_name : NameEntry → Step
  merge_name e m =
      let (nid, b) = add_name grants m.out (c_string e.str) in
      elim nid [
        | none ↦ (false, record m { out = b })
        | some id ↦ (
          true,
          record m { out = b; st = record m.st { names_merged = u32 (m.st.names_merged + 1) } },
        )
      ]

  module _ (p : Parsed) (bias : ℕ) where
    unfoldable pub merge_route : RouteRec → Step
    merge_route r m =
        let (site, m₁) = map_name p.snam r.site_name_id m in
        let (far, m₂) = map_name p.snam r.far_name_id m₁ in
        let r' = record r {
          route_id = u32 (r.route_id + bias);
          site_name_id = site;
          far_name_id = far;
        } in
        added (λ st. record st { routes_merged = u32 (st.routes_merged + 1) })
          (add_route grants m₂.out r') m₂

    unfoldable pub merge_inst : InstRec → Step
    merge_inst i m =
        let (model, m₁) = map_name p.snam i.model_name_id m in
        let (serial, m₂) = map_name p.snam i.serial_name_id m₁ in
        let i' = record i {
          inst_id = u32 (i.inst_id + bias);
          model_name_id = model;
          serial_name_id = serial;
        } in
        added same_stats (add_inst grants m₂.out i') m₂

    unfoldable pub merge_calib : CalibRec → Step
    merge_calib c m = added same_stats (add_calib grants m.out (shift_calib bias c)) m

    unfoldable pub merge_window : WindowRec → Step
    merge_window w m =
        added (λ st. record st { windows_merged = u32 (st.windows_merged + 1) })
          (add_window grants m.out (shift_window bias w)) m

    unfoldable pub merge_wave : WaveRec → Step
    merge_wave b m =
        if b.sample_count == 0
        then (true, m)
        else added count_wave
            (add_wave_copy grants m.out (u32 (b.block_id + bias)) (u32 (b.window_id + bias))
              b.samples b.sample_count b.start_m b.step_m)
            m

    unfoldable pub merge_marker : MergeOptions → MarkerRec → Step
    merge_marker opt k m =
        let (label, m₁) = map_name p.snam k.label_name_id m in
        let k' = record k {
          marker_id = u32 (k.marker_id + bias);
          window_id = u32 (k.window_id + bias);
          label_name_id = label;
        } in
        if opt.drop_unlinked_markers && not (is_linked k.window_id p.wind)
        then (
          true,
          record m₁ { st = record m₁.st { markers_dropped = u32 (m₁.st.markers_dropped + 1) } },
        )
        else added count_marker (add_marker grants m₁.out k') m₁

    unfoldable pub merge_link : LinkRec → Step
    merge_link l m = added same_stats (add_link grants m.out (shift_link bias l)) m

    unfoldable pub merge_note : NoteRec → Step
    merge_note n m =
        let (text, m₁) = map_name p.snam n.text_name_id m in
        let n' = record n {
          note_id = u32 (n.note_id + bias);
          target_id = u32 (n.target_id + bias);
          text_name_id = text;
        } in
        added same_stats (add_note grants m₁.out n') m₁

    unfoldable pub merge_side : MergeOptions → Step
    merge_side opt = all_of (
        all_of (map merge_name p.snam.entries)
        ∷ all_of (map merge_route p.rout)
        ∷ all_of (map merge_inst p.inst)
        ∷ all_of (map merge_calib p.clbr)
        ∷ all_of (map merge_window p.wind)
        ∷ all_of (map merge_wave p.wave)
        ∷ all_of (map (merge_marker opt) p.mark)
        ∷ all_of (map merge_link p.link)
        ∷ all_of (map merge_note (if opt.include_notes then p.note else []))
        ∷ [])

  -- `rv_merge_into_builder`, with the counts that it gives back where it succeeds.
  unfoldable pub merge_into_builder : Builder → Parsed → Parsed → MergeOptions → Bool × Merge
  merge_into_builder out left right opt =
      then_ (merge_side left 0 opt)
        (merge_side right (if opt.remap_colliding_ids then 100000 else 0) opt)
        (record { out = out; st = no_stats })
