-- ===== src/Builder/Emitted.antt =====
-- The payload that the builder emits for a section is the frame of the section's table around the
-- bytes of its records.
use ray_vault.Base.{ℕ, Bool, List, length, ◌++◌}
use ray_vault.Buf.{Buf, ◌>>◌, for_each, append_u32}
use ray_vault.Endian.{write_le32, write_le64}
use ray_vault.Buf.Writes.{
  Writes, then-Writes, for_each-Writes, append_u32-Writes, append_u64-Writes,
}
use ray_vault.Records.Bytes.{
  route_bytes, inst_bytes, calib_bytes, window_bytes, marker_bytes, link_bytes, note_bytes,
}
use ray_vault.Records.Append.{
  append_route_rec, append_inst_rec, append_calib_rec, append_window_rec, append_marker_rec,
  append_link_rec, append_note_rec,
}
use ray_vault.Records.Writes.{
  append_route_rec-Writes, append_inst_rec-Writes, append_calib_rec-Writes,
  append_window_rec-Writes, append_marker_rec-Writes, append_link_rec-Writes,
  append_note_rec-Writes,
}
use ray_vault.Records.Bytes.{table_bytes}
use ray_vault.Builder.{Builder}
use ray_vault.Builder.Emit.{
  append_rout, append_inst, append_clbr, append_wind, append_mark, append_link, append_note,
  append_summ,
}
use ray_vault.Builder.Blobs.{
  append_name_rec, append_snam, append_wave_rec, append_wave, name_image, wave_image,
  append_name_rec-Writes, append_wave_rec-Writes,
}

module _ (grants : ℕ → Bool) where
  pub framed :
      {A : Type 0} (put : A → Buf → Bool × Buf) (enc : A → List ℕ)
      → ((x : A) → Writes (put x) (enc x))
      → (magic : ℕ) (xs : List A)
      → Writes
          (append_u32 grants magic >> append_u32 grants (length xs) >> for_each put xs)
          (table_bytes magic enc xs)
  framed put enc w magic xs =
      then-Writes _ _ _ _
        (then-Writes _ _ _ _ (append_u32-Writes grants magic)
          (append_u32-Writes grants (length xs)))
        (for_each-Writes put enc w xs)

module _ (grants : ℕ → Bool) (b : Builder) where
  pub append_rout-Writes :
      Writes (append_rout grants b) (table_bytes 0x31544f52 route_bytes b.routes.items)
  unfolding append_rout
  append_rout-Writes =
      framed grants (append_route_rec grants) route_bytes (append_route_rec-Writes grants)
        0x31544f52 b.routes.items

  pub append_inst-Writes :
      Writes (append_inst grants b) (table_bytes 0x3154534e inst_bytes b.insts.items)
  unfolding append_inst
  append_inst-Writes =
      framed grants (append_inst_rec grants) inst_bytes (append_inst_rec-Writes grants) 0x3154534e
        b.insts.items

  pub append_clbr-Writes :
      Writes (append_clbr grants b) (table_bytes 0x31424c43 calib_bytes b.calibs.items)
  unfolding append_clbr
  append_clbr-Writes =
      framed grants (append_calib_rec grants) calib_bytes (append_calib_rec-Writes grants)
        0x31424c43 b.calibs.items

  pub append_wind-Writes :
      Writes (append_wind grants b) (table_bytes 0x31444e49 window_bytes b.windows.items)
  unfolding append_wind
  append_wind-Writes =
      framed grants (append_window_rec grants) window_bytes (append_window_rec-Writes grants)
        0x31444e49 b.windows.items

  pub append_mark-Writes :
      Writes (append_mark grants b) (table_bytes 0x314b524d marker_bytes b.markers.items)
  unfolding append_mark
  append_mark-Writes =
      framed grants (append_marker_rec grants) marker_bytes (append_marker_rec-Writes grants)
        0x314b524d b.markers.items

  pub append_link-Writes :
      Writes (append_link grants b) (table_bytes 0x314b4e4c link_bytes b.links.items)
  unfolding append_link
  append_link-Writes =
      framed grants (append_link_rec grants) link_bytes (append_link_rec-Writes grants) 0x314b4e4c
        b.links.items

  pub append_note-Writes :
      Writes (append_note grants b) (table_bytes 0x3145544e note_bytes b.notes.items)
  unfolding append_note
  append_note-Writes =
      framed grants (append_note_rec grants) note_bytes (append_note_rec-Writes grants) 0x3145544e
        b.notes.items

  pub append_summ-Writes : Writes (append_summ grants b) (
      write_le32 0x314d4d55
      ++ write_le32 (length b.routes.items)
      ++ write_le32 (length b.windows.items)
      ++ write_le32 (length b.markers.items)
      ++ write_le32 (length b.waves.items)
      ++ write_le32 (length b.names.items)
      ++ write_le32 0
      ++ write_le64 0
      ++ write_le32 0)
  unfolding append_summ
  append_summ-Writes =
      then-Writes _ _ _ _
        (then-Writes _ _ _ _
          (then-Writes _ _ _ _
            (then-Writes _ _ _ _
              (then-Writes _ _ _ _
                (then-Writes _ _ _ _
                  (then-Writes _ _ _ _
                    (then-Writes _ _ _ _ (append_u32-Writes grants 0x314d4d55)
                      (append_u32-Writes grants (length b.routes.items)))
                    (append_u32-Writes grants (length b.windows.items)))
                  (append_u32-Writes grants (length b.markers.items)))
                (append_u32-Writes grants (length b.waves.items)))
              (append_u32-Writes grants (length b.names.items)))
            (append_u32-Writes grants 0))
          (append_u64-Writes grants 0))
        (append_u32-Writes grants 0)

  pub append_wave-Writes :
      Writes (append_wave grants b) (table_bytes 0x31455641 wave_image b.waves.items)
  unfolding append_wave
  append_wave-Writes =
      framed grants (append_wave_rec grants) wave_image (append_wave_rec-Writes grants) 0x31455641
        b.waves.items

  pub append_snam-Writes :
      Writes (append_snam grants b) (table_bytes 0x314d414e name_image b.names.items)
  unfolding append_snam
  append_snam-Writes =
      framed grants (append_name_rec grants) name_image (append_name_rec-Writes grants) 0x314d414e
        b.names.items
