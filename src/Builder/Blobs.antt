-- ===== src/Builder/Blobs.antt =====
-- src/internal/rv_builder.c: the payloads of the sections with records of varying size, SNAM and WAVE.
use ray_vault.Base.{
  ℕ, ◌*◌, ◌%◌, Bool, true, ◌==◌, if◌then◌else◌, List, [], ◌∷◌, ◌++◌, length, take, Bool-cases, inl,
  inr,
}
use ray_vault.Base.{bit_and}
use ray_vault.Endian.{write_le16, write_le32, write_f32}
use ray_vault.Crc.{crc32}
use ray_vault.Buf.{Buf, ◌>>◌, for_each, append, append_u8, append_u16, append_u32, append_f32}
use ray_vault.Buf.Writes.{
  Writes, append-Writes, append_u8-Writes, append_u16-Writes, append_u32-Writes, append_f32-Writes,
  then-Writes, nothing-Writes,
}
use ray_vault.Builder.{Name, Wave, Builder}

-- The padding byte behind an odd number of bytes.
abbrev pub pad : ℕ → List ℕ
pad n = if n % 2 == 0 then [] else 0 ∷ []

-- The bytes of a name and of a block.
abbrev pub name_image : Name → List ℕ
name_image n = write_le32 n.id ++ write_le16 (length n.str) ++ n.str ++ pad (length n.str)

abbrev pub wave_image : Wave → List ℕ
wave_image w =
    write_le32 w.block_id
    ++ write_le32 w.window_id
    ++ write_le32 w.sample_count
    ++ write_f32 w.start_m
    ++ write_f32 w.step_m
    ++ write_le16 w.flags
    ++ write_le16 (bit_and (crc32 (take (w.sample_count * 2) w.samples)) 0xffff)
    ++ take (w.sample_count * 2) w.samples
    ++ pad (w.sample_count * 2)

module _ (grants : ℕ → Bool) where
  unfoldable pub append_pad : ℕ → Buf → Bool × Buf
  append_pad n = if n % 2 == 0 then (λ b. (true, b)) else append_u8 grants 0

  -- One name of `rv_b_append_snam`.
  pub append_name_rec : Name → Buf → Bool × Buf
  append_name_rec n =
      append_u32 grants n.id
      >> append_u16 grants (length n.str)
      >> append grants n.str
      >> append_pad (length n.str)

  unfoldable pub append_snam : Builder → Buf → Bool × Buf
  append_snam b =
      append_u32 grants 0x314d414e
      >> append_u32 grants (length b.names.items)
      >> for_each append_name_rec b.names.items

  -- One block of `rv_b_append_wave`; `pc` is the low half of the samples' checksum.
  pub append_wave_rec : Wave → Buf → Bool × Buf
  append_wave_rec w =
      append_u32 grants w.block_id
      >> append_u32 grants w.window_id
      >> append_u32 grants w.sample_count
      >> append_f32 grants w.start_m
      >> append_f32 grants w.step_m
      >> append_u16 grants w.flags
      >> append_u16 grants (bit_and (crc32 (take (w.sample_count * 2) w.samples)) 0xffff)
      >> append grants (take (w.sample_count * 2) w.samples)
      >> append_pad (w.sample_count * 2)

  unfoldable pub append_wave : Builder → Buf → Bool × Buf
  append_wave b =
      append_u32 grants 0x31455641
      >> append_u32 grants (length b.waves.items)
      >> for_each append_wave_rec b.waves.items

  pub append_pad-Writes : (n : ℕ) → Writes (append_pad n) (pad n)
  unfolding append_pad
  append_pad-Writes n = elim (Bool-cases (n % 2 == 0)) [
    | inl even ↦ rw (append_pad, even) nothing-Writes
    | inr odd ↦ rw (append_pad, odd) (append_u8-Writes grants 0)
  ]

  -- What `rv_b_append_snam` writes for a name.
  pub append_name_rec-Writes : (n : Name) → Writes (append_name_rec n) (name_image n)
  unfolding append_name_rec
  append_name_rec-Writes n =
      then-Writes _ _ _ _
        (then-Writes _ _ _ _
          (then-Writes _ _ _ _ (append_u32-Writes grants n.id)
            (append_u16-Writes grants (length n.str)))
          (append-Writes grants n.str))
        (append_pad-Writes (length n.str))

  -- What `rv_b_append_wave` writes for a block.
  pub append_wave_rec-Writes : (w : Wave) → Writes (append_wave_rec w) (wave_image w)
  unfolding append_wave_rec
  append_wave_rec-Writes w =
      then-Writes _ _ _ _
        (then-Writes _ _ _ _
          (then-Writes _ _ _ _
            (then-Writes _ _ _ _
              (then-Writes _ _ _ _
                (then-Writes _ _ _ _
                  (then-Writes _ _ _ _
                    (then-Writes _ _ _ _ (append_u32-Writes grants w.block_id)
                      (append_u32-Writes grants w.window_id))
                    (append_u32-Writes grants w.sample_count))
                  (append_f32-Writes grants w.start_m))
                (append_f32-Writes grants w.step_m))
              (append_u16-Writes grants w.flags))
            (append_u16-Writes grants
              (bit_and (crc32 (take (w.sample_count * 2) w.samples)) 0xffff)))
          (append-Writes grants (take (w.sample_count * 2) w.samples)))
        (append_pad-Writes (w.sample_count * 2))
