-- ===== src/Export/Waves.antt =====
-- What rv_export_wave of src/internal/rv_export.c writes.
use ray_vault.Base.{
  ℕ, ◌*◌, ◌≡◌, refl, subst, ap₂, Bool, true, List, [], ◌∷◌, ◌++◌, append-nil, length, take,
  take-append, All,
}
use ray_vault.Buf.Writes.{
  Writes, then-Writes, append-Writes, append_u16-Writes, append_u32-Writes, append_f32-Writes,
  concat_map,
}
use ray_vault.Endian.{write_le32}
use ray_vault.Records.{WaveRec}
use ray_vault.Records.Bounds.{IsWave}
use ray_vault.Records.Bytes.{table_bytes, wave_bytes, wave_head_bytes}
use ray_vault.Section.Blobs.RoundTrip.{even}
use ray_vault.Builder.Blobs.{pad, append_pad-Writes}
use ray_vault.Builder.Emitted.{framed}
use ray_vault.Export.{export_wave, export_wave_rec}

-- What is written for a wave: its head, the samples that its count announces, and the padding.
abbrev exported : WaveRec → List ℕ
exported w = wave_head_bytes w ++ take (w.sample_count * 2) w.samples ++ pad (w.sample_count * 2)

exported-wave_bytes : (w : WaveRec) → IsWave w → exported w ≡ wave_bytes w
exported-wave_bytes w v =
    let all : take (w.sample_count * 2) w.samples ≡ w.samples =
      subst (λ n. take n w.samples ≡ w.samples) v.all_samples
        (rw append-nil at (take-append w.samples [])) in
    rw (even w.sample_count, append-nil, all) refl

concat_map-exported :
    (ws : List WaveRec) → All IsWave ws → concat_map exported ws ≡ concat_map wave_bytes ws
concat_map-exported [] v = refl
concat_map-exported (w ∷ ws) v = ap₂ ◌++◌ (exported-wave_bytes w v.0) (concat_map-exported ws v.1)

module _ (grants : ℕ → Bool) where
  export_wave_rec-Writes : (w : WaveRec) → Writes (export_wave_rec grants w) (exported w)
  unfolding export_wave_rec
  export_wave_rec-Writes w =
      then-Writes _ _ _ _
        (then-Writes _ _ _ _
          (then-Writes _ _ _ _
            (then-Writes _ _ _ _
              (then-Writes _ _ _ _
                (then-Writes _ _ _ _
                  (then-Writes _ _ _ _
                    (then-Writes _ _ _ _ (append_u32-Writes grants w.block_id)
                      (append_u32-Writes grants w.window_id))
                    (append_u32-Writes grants w.sample_count))
                  (append_f32-Writes grants w.start_m))
                (append_f32-Writes grants w.step_m))
              (append_u16-Writes grants w.flags))
            (append_u16-Writes grants w.payload_crc))
          (append-Writes grants (take (w.sample_count * 2) w.samples)))
        (append_pad-Writes grants (w.sample_count * 2))

  pub export_wave-Writes :
      (ws : List WaveRec)
      → All IsWave ws
      → Writes (export_wave grants true ws) (table_bytes 0x31455641 wave_bytes ws)
  unfolding export_wave
  export_wave-Writes ws v =
      subst
        (λ rows.
          Writes (export_wave grants true ws)
            (write_le32 0x31455641 ++ write_le32 (length ws) ++ rows))
        (concat_map-exported ws v)
        (framed grants (export_wave_rec grants) exported export_wave_rec-Writes 0x31455641 ws)
