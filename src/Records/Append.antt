-- ===== src/Records/Append.antt =====
-- src/internal/rv_builder.c: the record bodies of the sections, field by field. Each writer is the
-- chain of `rv_buf_append_*` calls in one round of the section's loop.
use ray_vault.Base.{Bool, ℕ}
use ray_vault.Buf.{Buf, ◌>>◌, append_u16, append_u32, append_u64, append_f32}
use ray_vault.Records.{RouteRec, InstRec, CalibRec, WindowRec, MarkerRec, LinkRec, NoteRec}

module _ (grants : ℕ → Bool) where
  unfoldable pub append_route_rec : RouteRec → Buf → Bool × Buf
  append_route_rec r =
      append_u32 grants r.route_id
      >> append_u32 grants r.site_name_id
      >> append_u32 grants r.far_name_id
      >> append_f32 grants r.length_km
      >> append_u32 grants r.fiber_count
      >> append_u32 grants r.flags

  unfoldable pub append_inst_rec : InstRec → Buf → Bool × Buf
  append_inst_rec r =
      append_u32 grants r.inst_id
      >> append_u32 grants r.model_name_id
      >> append_u32 grants r.serial_name_id
      >> append_u16 grants r.wavelength_nm
      >> append_u16 grants r.pulse_default_ns
      >> append_f32 grants r.dynamic_range_db
      >> append_u32 grants r.flags

  unfoldable pub append_calib_rec : CalibRec → Buf → Bool × Buf
  append_calib_rec r =
      append_u32 grants r.calib_id
      >> append_u32 grants r.inst_id
      >> append_u64 grants r.calibrated_unix
      >> append_f32 grants r.refractive_index
      >> append_f32 grants r.backscatter_coef
      >> append_f32 grants r.splice_loss_db
      >> append_u32 grants r.flags

  unfoldable pub append_window_rec : WindowRec → Buf → Bool × Buf
  append_window_rec r =
      append_u32 grants r.window_id
      >> append_u32 grants r.route_id
      >> append_u32 grants r.inst_id
      >> append_u32 grants r.calib_id
      >> append_u32 grants r.wave_block_id
      >> append_f32 grants r.pulse_ns
      >> append_f32 grants r.range_km
      >> append_f32 grants r.resolution_m
      >> append_u64 grants r.acquired_unix

  unfoldable pub append_marker_rec : MarkerRec → Buf → Bool × Buf
  append_marker_rec r =
      append_u32 grants r.marker_id
      >> append_u32 grants r.window_id
      >> append_u32 grants r.label_name_id
      >> append_f32 grants r.distance_m
      >> append_f32 grants r.loss_db
      >> append_f32 grants r.reflectance_db
      >> append_u16 grants r.kind
      >> append_u16 grants r.severity
      >> append_u32 grants r.flags

  unfoldable pub append_link_rec : LinkRec → Buf → Bool × Buf
  append_link_rec r =
      append_u32 grants r.link_id
      >> append_u32 grants r.from_kind
      >> append_u32 grants r.from_id
      >> append_u32 grants r.to_kind
      >> append_u32 grants r.to_id
      >> append_u32 grants r.flags

  unfoldable pub append_note_rec : NoteRec → Buf → Bool × Buf
  append_note_rec r =
      append_u32 grants r.note_id
      >> append_u32 grants r.target_kind
      >> append_u32 grants r.target_id
      >> append_u32 grants r.text_name_id
      >> append_u32 grants r.flags
