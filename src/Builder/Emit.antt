-- ===== src/Builder/Emit.antt =====
-- src/internal/rv_builder.c: the payload of each section with fixed-size records, and of SUMM.
use ray_vault.Base.{ℕ, Bool, length}
use ray_vault.Buf.{Buf, ◌>>◌, for_each, append_u32, append_u64}
use ray_vault.Records.Append.{
  append_route_rec, append_inst_rec, append_calib_rec, append_window_rec, append_marker_rec,
  append_link_rec, append_note_rec,
}
use ray_vault.Builder.{Builder}

module _ (grants : ℕ → Bool) where
  unfoldable pub append_rout : Builder → Buf → Bool × Buf
  append_rout b =
      append_u32 grants 0x31544f52
      >> append_u32 grants (length b.routes.items)
      >> for_each (append_route_rec grants) b.routes.items

  unfoldable pub append_inst : Builder → Buf → Bool × Buf
  append_inst b =
      append_u32 grants 0x3154534e
      >> append_u32 grants (length b.insts.items)
      >> for_each (append_inst_rec grants) b.insts.items

  unfoldable pub append_clbr : Builder → Buf → Bool × Buf
  append_clbr b =
      append_u32 grants 0x31424c43
      >> append_u32 grants (length b.calibs.items)
      >> for_each (append_calib_rec grants) b.calibs.items

  unfoldable pub append_wind : Builder → Buf → Bool × Buf
  append_wind b =
      append_u32 grants 0x31444e49
      >> append_u32 grants (length b.windows.items)
      >> for_each (append_window_rec grants) b.windows.items

  unfoldable pub append_mark : Builder → Buf → Bool × Buf
  append_mark b =
      append_u32 grants 0x314b524d
      >> append_u32 grants (length b.markers.items)
      >> for_each (append_marker_rec grants) b.markers.items

  unfoldable pub append_link : Builder → Buf → Bool × Buf
  append_link b =
      append_u32 grants 0x314b4e4c
      >> append_u32 grants (length b.links.items)
      >> for_each (append_link_rec grants) b.links.items

  unfoldable pub append_note : Builder → Buf → Bool × Buf
  append_note b =
      append_u32 grants 0x3145544e
      >> append_u32 grants (length b.notes.items)
      >> for_each (append_note_rec grants) b.notes.items

  unfoldable pub append_summ : Builder → Buf → Bool × Buf
  append_summ b =
      append_u32 grants 0x314d4d55
      >> append_u32 grants (length b.routes.items)
      >> append_u32 grants (length b.windows.items)
      >> append_u32 grants (length b.markers.items)
      >> append_u32 grants (length b.waves.items)
      >> append_u32 grants (length b.names.items)
      >> append_u32 grants 0
      >> append_u64 grants 0
      >> append_u32 grants 0
