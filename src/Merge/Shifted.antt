-- ===== src/Merge/Shifted.antt =====
-- The rows of a package as a merge adds them.
use ray_vault.Base.{ℕ, true, not, ◌&&◌, ◌==◌, List, [], ◌∷◌, if◌then◌else◌, ◌+◌, ◌*◌, u32, take}
use mathlib.Core.List.{map}
use ray_vault.Records.{RouteRec, InstRec, WaveRec, MarkerRec, NoteRec}
use ray_vault.Parser.{Parsed}
use ray_vault.Builder.{Wave}
use ray_vault.Merge.{shift_calib, shift_window, shift_link, is_linked, MergeOptions}
use ray_vault.Merge.Rows.{
  Rows, concat, nameless_route, nameless_inst, nameless_marker, nameless_note,
}

module _ (p : Parsed) (bias : ℕ) where
  -- A wave without samples is left out.
  abbrev pub shifted_wave : WaveRec → List Wave
  shifted_wave b =
      if b.sample_count == 0
      then []
      else record {
        block_id = u32 (b.block_id + bias);
        window_id = u32 (b.window_id + bias);
        sample_count = b.sample_count;
        start_m = b.start_m;
        step_m = b.step_m;
        samples = take (b.sample_count * 2) b.samples;
        samples_owned = true;
        flags = 0;
      }
        ∷ []

  abbrev pub shifted_marker : MergeOptions → MarkerRec → List MarkerRec
  shifted_marker opt k =
      if opt.drop_unlinked_markers && not (is_linked k.window_id p.wind)
      then []
      else nameless_marker
          (record k { marker_id = u32 (k.marker_id + bias); window_id = u32 (k.window_id + bias) })
        ∷ []

  -- The rows of a package, their ids shifted: without the waves that have no samples, the markers of
  -- no window and the notes, where the options say so.
  abbrev pub shifted : MergeOptions → Rows
  shifted opt = record {
    routes =
        map (λ (r : RouteRec). nameless_route (record r { route_id = u32 (r.route_id + bias) }))
          p.rout;
    insts =
        map (λ (i : InstRec). nameless_inst (record i { inst_id = u32 (i.inst_id + bias) })) p.inst;
    calibs = map (shift_calib bias) p.clbr;
    windows = map (shift_window bias) p.wind;
    waves = concat (map shifted_wave p.wave);
    markers = concat (map (shifted_marker opt) p.mark);
    links = map (shift_link bias) p.link;
    notes =
        map
          (λ (n : NoteRec).
            nameless_note
              (record n { note_id = u32 (n.note_id + bias); target_id = u32 (n.target_id + bias) }))
          (if opt.include_notes then p.note else []);
  }
