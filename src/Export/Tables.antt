-- ===== src/Export/Tables.antt =====
-- The sections of an exported package, under the decoders of src/internal/rv_section.c.
use ray_vault.Base.{
  ℕ, ◌≤◌, ◌≡◌, refl, subst, Bool, true, ◌∙◌, Option, some, List, [], ◌∷◌, length, All, arith, ◌>>=◌,
}
use ray_vault.Buf
use ray_vault.Buf.{Buf, append, append_u16, append_u32, append_f32, ◌>>◌}
use ray_vault.Buf.Writes.{Writes}
use ray_vault.Arena.{Arena, Heap}
use ray_vault.Decoding.{ok, new_items}
use ray_vault.Endian.{read_le32}
use ray_vault.Endian.RoundTrip.{join32-bytes}
use ray_vault.Records.Bounds.{IsRoute, IsInst, IsCalib, IsWindow, IsWave, IsMarker, IsLink}
use ray_vault.Records.Bytes.{
  table_bytes, route_bytes, inst_bytes, calib_bytes, window_bytes, wave_bytes, marker_bytes,
  link_bytes,
}
use ray_vault.Records.Append.{
  append_route_rec, append_inst_rec, append_calib_rec, append_window_rec, append_marker_rec,
  append_link_rec,
}
use ray_vault.Records.Writes.{
  append_route_rec-Writes, append_inst_rec-Writes, append_calib_rec-Writes,
  append_window_rec-Writes, append_marker_rec-Writes, append_link_rec-Writes,
}
use ray_vault.Records.Read.{read_route, read_inst, read_calib, read_window, read_marker, read_link}
use ray_vault.Records.RoundTrip.{
  read_route-bytes, read_inst-bytes, read_calib-bytes, read_window-bytes, read_marker-bytes,
  read_link-bytes,
}
use ray_vault.Section.{decode_rout, decode_inst, decode_clbr, decode_wind, decode_mark, decode_link}
use ray_vault.Section.Rows.{decode_table-bytes}
use ray_vault.Section.Blobs.{decode_wave}
use ray_vault.Section.Blobs.RoundTrip.{read_waves-bytes}
use ray_vault.Parser.{Parsed}
use ray_vault.Builder.Emitted.{framed}
use ray_vault.Builder.Package.{Sec, granted, new_sec}
use ray_vault.Builder.Package.Layout.{bind_some, written, init_nil}
use ray_vault.Builder.Package.Tags.{Gives}
use ray_vault.Export.{
  export_snam, export_rout, export_inst, export_clbr, export_wind, export_mark, export_link,
  include_wave, table_sections,
}
use ray_vault.Export.Waves.{export_wave-Writes}

-- The fields fit their types, each wave has its samples, and the tables are within the limits of
-- their decoders.
pub record IsExportable (p : Parsed) : Type 0 where
  pub rout_fields : All IsRoute p.rout
  pub rout_few : length p.rout ≤ 50000
  pub inst_fields : All IsInst p.inst
  pub inst_few : length p.inst ≤ 10000
  pub clbr_fields : All IsCalib p.clbr
  pub clbr_few : length p.clbr ≤ 10000
  pub wind_fields : All IsWindow p.wind
  pub wind_few : length p.wind ≤ 200000
  pub wave_fields : All IsWave p.wave
  pub wave_few : length p.wave ≤ 50000
  pub mark_fields : All IsMarker p.mark
  pub mark_few : length p.mark ≤ 500000
  pub link_fields : All IsLink p.link
  pub link_few : length p.link ≤ 200000

-- The arena has room for each of the tables.
pub record HasRoom (h : Heap) (a : Arena) (p : Parsed) : Type 0 where
  pub rout_room : (new_items h (length p.rout) 24 8 a).0 ≡ ok tt
  pub inst_room : (new_items h (length p.inst) 24 8 a).0 ≡ ok tt
  pub clbr_room : (new_items h (length p.clbr) 32 8 a).0 ≡ ok tt
  pub wind_room : (new_items h (length p.wind) 48 8 a).0 ≡ ok tt
  pub wave_room : (new_items h (length p.wave) 40 8 a).0 ≡ ok tt
  pub mark_room : (new_items h (length p.mark) 32 8 a).0 ≡ ok tt
  pub link_room : (new_items h (length p.link) 24 8 a).0 ≡ ok tt

-- The decoders, each on its section, give the tables back.
abbrev pub Decoded : Heap → Arena → Parsed → List Sec → Type 0
Decoded h a p (snam ∷ rout ∷ inst ∷ clbr ∷ wind ∷ wave ∷ mark ∷ link ∷ []) =
    ((decode_rout h rout.body a).0 ≡ ok p.rout)
    × ((decode_inst h inst.body a).0 ≡ ok p.inst)
    × ((decode_clbr h clbr.body a).0 ≡ ok p.clbr)
    × ((decode_wind h wind.body a).0 ≡ ok p.wind)
    × ((decode_wave h wave.body a).0 ≡ ok p.wave)
    × ((decode_mark h mark.body a).0 ≡ ok p.mark)
    × ((decode_link h link.body a).0 ≡ ok p.link)
Decoded h a p _ = ⊥

module _ (grants : ℕ → Bool) where
  with_body :
      (P : List Sec → Type 0) (cap tag : ℕ) (fn : Buf → Bool × Buf) (bs : List ℕ)
      (k : Sec → Option (List Sec))
      → Writes fn bs
      → ((s : Sec) → s.body ≡ bs → Gives P (k s))
      → Gives P (new_sec grants cap tag fn >>= k)
  unfolding new_sec
  with_body P cap tag fn bs k w h ss e =
      let (s, i, e₁) = bind_some (new_sec grants cap tag fn) k ss e in
      let (b₀, i₀, e₂) = bind_some (granted (Buf.init grants cap)) _ s i in
      let (b₁, i₁, e₃) = bind_some (granted (fn b₀)) _ s e₂ in
      let full = written grants fn bs b₀ b₁ w (init_nil grants cap b₀ i₀) i₁ in
      let same : s.body ≡ b₁.data_bytes = ground (arith, e₃) in h s (same ∙ full) ss e₁

  module _ (h : Heap) (a : Arena) (p : Parsed) (v : IsExportable p) (r : HasRoom h a p) where
    -- Where the waves are included.
    decode_wave-export :
        (s : Sec)
        → s.body ≡ table_bytes 0x31455641 wave_bytes p.wave
        → (decode_wave h s.body a).0 ≡ ok p.wave
    unfolding decode_wave new_items read_le32
    decode_wave-export s body =
        let rows = read_waves-bytes p.wave (new_items h (length p.wave) 40 8 a).1 v.wave_fields in
        rw body (
          ground (
            arith,
            rows,
            r.wave_room,
            v.wave_few,
            join32-bytes 0x31455641 (omega arith),
            join32-bytes (length p.wave),
          ))

    tables-Decoded :
        (snam rout inst clbr wind wave mark link : Sec)
        → rout.body ≡ table_bytes 0x31544f52 route_bytes p.rout
        → inst.body ≡ table_bytes 0x3154534e inst_bytes p.inst
        → clbr.body ≡ table_bytes 0x31424c43 calib_bytes p.clbr
        → wind.body ≡ table_bytes 0x31444e49 window_bytes p.wind
        → wave.body ≡ table_bytes 0x31455641 wave_bytes p.wave
        → mark.body ≡ table_bytes 0x314b524d marker_bytes p.mark
        → link.body ≡ table_bytes 0x314b4e4c link_bytes p.link
        → Decoded h a p (snam ∷ rout ∷ inst ∷ clbr ∷ wind ∷ wave ∷ mark ∷ link ∷ [])
    unfolding decode_rout decode_inst decode_clbr decode_wind decode_mark decode_link
    tables-Decoded snam rout inst clbr wind wave mark link b₁ b₂ b₃ b₄ b₅ b₆ b₇ = (
      rw
          (
            b₁,
            decode_table-bytes 0x31544f52 50000 24 24 read_route h route_bytes IsRoute
                read_route-bytes (λ x. refl) (omega arith) (omega arith) p.rout a v.rout_fields
                v.rout_few r.rout_room,
          )
          refl,
      rw
          (
            b₂,
            decode_table-bytes 0x3154534e 10000 24 24 read_inst h inst_bytes IsInst read_inst-bytes
                (λ x. refl) (omega arith) (omega arith) p.inst a v.inst_fields v.inst_few
                r.inst_room,
          )
          refl,
      rw
          (
            b₃,
            decode_table-bytes 0x31424c43 10000 32 32 read_calib h calib_bytes IsCalib
                read_calib-bytes (λ x. refl) (omega arith) (omega arith) p.clbr a v.clbr_fields
                v.clbr_few r.clbr_room,
          )
          refl,
      rw
          (
            b₄,
            decode_table-bytes 0x31444e49 200000 40 48 read_window h window_bytes IsWindow
                read_window-bytes (λ x. refl) (omega arith) (omega arith) p.wind a v.wind_fields
                v.wind_few r.wind_room,
          )
          refl,
      decode_wave-export wave b₅,
      rw
          (
            b₆,
            decode_table-bytes 0x314b524d 500000 32 32 read_marker h marker_bytes IsMarker
                read_marker-bytes (λ x. refl) (omega arith) (omega arith) p.mark a v.mark_fields
                v.mark_few r.mark_room,
          )
          refl,
      rw
          (
            b₇,
            decode_table-bytes 0x314b4e4c 200000 24 24 read_link h link_bytes IsLink read_link-bytes
                (λ x. refl) (omega arith) (omega arith) p.link a v.link_fields v.link_few
                r.link_room,
          )
          refl,
    )

  -- The decoders give back the routes, instruments, calibrations, windows, waves, markers and links of
  -- an exported package, each from its section and with the arena `a` (SNAM and SUMM are left out):
  -- where the sections were written, the flags of the export ask for the waves, the fields fit their
  -- types, the flags of every window are 0 (an export does not keep them), each wave has its samples,
  -- the tables are within the decoders' limits, and the arena has room for each.
  pub decode-table_sections :
      (p : Parsed) (flags : ℕ) (h : Heap) (a : Arena) (secs : List Sec)
      → table_sections grants p flags ≡ some secs
      → include_wave flags ≡ true
      → IsExportable p
      → HasRoom h a p
      → Decoded h a p secs
  unfolding table_sections export_rout export_inst export_clbr export_wind export_mark export_link
  decode-table_sections p flags h a secs made full v r =
      let P = Decoded h a p in
      let (snam, i, e) =
        bind_some (new_sec grants 256 0x4d414e53 (export_snam grants p.snam.entries)) _ secs made in
      with_body P _ _ _ _ _
        (framed grants (append_route_rec grants) route_bytes (append_route_rec-Writes grants)
          0x31544f52 p.rout)
        (λ s₁ b₁.
          with_body P _ _ _ _ _
            (framed grants (append_inst_rec grants) inst_bytes (append_inst_rec-Writes grants)
              0x3154534e p.inst)
            (λ s₂ b₂.
              with_body P _ _ _ _ _
                (framed grants (append_calib_rec grants) calib_bytes
                  (append_calib_rec-Writes grants) 0x31424c43 p.clbr)
                (λ s₃ b₃.
                  with_body P _ _ _ _ _
                    (framed grants (append_window_rec grants) window_bytes
                      (append_window_rec-Writes grants) 0x31444e49 p.wind)
                    (λ s₄ b₄.
                      with_body P _ _ _ _ _
                        (rw full (export_wave-Writes grants p.wave v.wave_fields))
                        (λ s₅ b₅.
                          with_body P _ _ _ _ _
                            (framed grants (append_marker_rec grants) marker_bytes
                              (append_marker_rec-Writes grants) 0x314b524d p.mark)
                            (λ s₆ b₆.
                              with_body P _ _ _ _ _
                                (framed grants (append_link_rec grants) link_bytes
                                  (append_link_rec-Writes grants) 0x314b4e4c p.link)
                                (λ s₇ b₇ ss e'.
                                  let same : snam ∷ s₁ ∷ s₂ ∷ s₃ ∷ s₄ ∷ s₅ ∷ s₆ ∷ s₇ ∷ [] ≡ ss =
                                    cc in
                                  subst P same (
                                    tables-Decoded h a p v r snam s₁ s₂ s₃ s₄ s₅ s₆ s₇ b₁ b₂ b₃ b₄
                                      b₅ b₆ b₇))))))))
        secs e
