-- ===== src/Records/Writes.antt =====
-- What each record's writer puts into the buffer.
use ray_vault.Base.{ℕ, Bool}
use ray_vault.Buf.Writes.{Writes, then-Writes}
use ray_vault.Buf.Writes.{
  append_u16-Writes, append_u32-Writes, append_u64-Writes, append_f32-Writes,
}
use ray_vault.Records.{RouteRec, InstRec, CalibRec, WindowRec, MarkerRec, LinkRec, NoteRec}
use ray_vault.Records.Append.{
  append_route_rec, append_inst_rec, append_calib_rec, append_window_rec, append_marker_rec,
  append_link_rec, append_note_rec,
}
use ray_vault.Records.Bytes.{
  route_bytes, inst_bytes, calib_bytes, window_bytes, marker_bytes, link_bytes, note_bytes,
}

module _ (grants : ℕ → Bool) where
  pub append_route_rec-Writes : (r : RouteRec) → Writes (append_route_rec grants r) (route_bytes r)
  unfolding append_route_rec
  append_route_rec-Writes r =
      then-Writes _ _ _ _
        (then-Writes _ _ _ _
          (then-Writes _ _ _ _
            (then-Writes _ _ _ _
              (then-Writes _ _ _ _ (append_u32-Writes grants r.route_id)
                (append_u32-Writes grants r.site_name_id))
              (append_u32-Writes grants r.far_name_id))
            (append_f32-Writes grants r.length_km))
          (append_u32-Writes grants r.fiber_count))
        (append_u32-Writes grants r.flags)

  pub append_inst_rec-Writes : (r : InstRec) → Writes (append_inst_rec grants r) (inst_bytes r)
  unfolding append_inst_rec
  append_inst_rec-Writes r =
      then-Writes _ _ _ _
        (then-Writes _ _ _ _
          (then-Writes _ _ _ _
            (then-Writes _ _ _ _
              (then-Writes _ _ _ _
                (then-Writes _ _ _ _ (append_u32-Writes grants r.inst_id)
                  (append_u32-Writes grants r.model_name_id))
                (append_u32-Writes grants r.serial_name_id))
              (append_u16-Writes grants r.wavelength_nm))
            (append_u16-Writes grants r.pulse_default_ns))
          (append_f32-Writes grants r.dynamic_range_db))
        (append_u32-Writes grants r.flags)

  pub append_calib_rec-Writes : (r : CalibRec) → Writes (append_calib_rec grants r) (calib_bytes r)
  unfolding append_calib_rec
  append_calib_rec-Writes r =
      then-Writes _ _ _ _
        (then-Writes _ _ _ _
          (then-Writes _ _ _ _
            (then-Writes _ _ _ _
              (then-Writes _ _ _ _
                (then-Writes _ _ _ _ (append_u32-Writes grants r.calib_id)
                  (append_u32-Writes grants r.inst_id))
                (append_u64-Writes grants r.calibrated_unix))
              (append_f32-Writes grants r.refractive_index))
            (append_f32-Writes grants r.backscatter_coef))
          (append_f32-Writes grants r.splice_loss_db))
        (append_u32-Writes grants r.flags)

  pub append_window_rec-Writes :
      (r : WindowRec) → Writes (append_window_rec grants r) (window_bytes r)
  unfolding append_window_rec
  append_window_rec-Writes r =
      then-Writes _ _ _ _
        (then-Writes _ _ _ _
          (then-Writes _ _ _ _
            (then-Writes _ _ _ _
              (then-Writes _ _ _ _
                (then-Writes _ _ _ _
                  (then-Writes _ _ _ _
                    (then-Writes _ _ _ _ (append_u32-Writes grants r.window_id)
                      (append_u32-Writes grants r.route_id))
                    (append_u32-Writes grants r.inst_id))
                  (append_u32-Writes grants r.calib_id))
                (append_u32-Writes grants r.wave_block_id))
              (append_f32-Writes grants r.pulse_ns))
            (append_f32-Writes grants r.range_km))
          (append_f32-Writes grants r.resolution_m))
        (append_u64-Writes grants r.acquired_unix)

  pub append_marker_rec-Writes :
      (r : MarkerRec) → Writes (append_marker_rec grants r) (marker_bytes r)
  unfolding append_marker_rec
  append_marker_rec-Writes r =
      then-Writes _ _ _ _
        (then-Writes _ _ _ _
          (then-Writes _ _ _ _
            (then-Writes _ _ _ _
              (then-Writes _ _ _ _
                (then-Writes _ _ _ _
                  (then-Writes _ _ _ _
                    (then-Writes _ _ _ _ (append_u32-Writes grants r.marker_id)
                      (append_u32-Writes grants r.window_id))
                    (append_u32-Writes grants r.label_name_id))
                  (append_f32-Writes grants r.distance_m))
                (append_f32-Writes grants r.loss_db))
              (append_f32-Writes grants r.reflectance_db))
            (append_u16-Writes grants r.kind))
          (append_u16-Writes grants r.severity))
        (append_u32-Writes grants r.flags)

  pub append_link_rec-Writes : (r : LinkRec) → Writes (append_link_rec grants r) (link_bytes r)
  unfolding append_link_rec
  append_link_rec-Writes r =
      then-Writes _ _ _ _
        (then-Writes _ _ _ _
          (then-Writes _ _ _ _
            (then-Writes _ _ _ _
              (then-Writes _ _ _ _ (append_u32-Writes grants r.link_id)
                (append_u32-Writes grants r.from_kind))
              (append_u32-Writes grants r.from_id))
            (append_u32-Writes grants r.to_kind))
          (append_u32-Writes grants r.to_id))
        (append_u32-Writes grants r.flags)

  pub append_note_rec-Writes : (r : NoteRec) → Writes (append_note_rec grants r) (note_bytes r)
  unfolding append_note_rec
  append_note_rec-Writes r =
      then-Writes _ _ _ _
        (then-Writes _ _ _ _
          (then-Writes _ _ _ _
            (then-Writes _ _ _ _ (append_u32-Writes grants r.note_id)
              (append_u32-Writes grants r.target_kind))
            (append_u32-Writes grants r.target_id))
          (append_u32-Writes grants r.text_name_id))
        (append_u32-Writes grants r.flags)
