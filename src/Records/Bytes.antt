-- ===== src/Records/Bytes.antt =====
-- The bytes that src/internal/rv_builder.c stores for each record.
use ray_vault.Base.{ℕ, List, ◌++◌, length}
use ray_vault.Buf.Writes.{concat_map}
use ray_vault.Endian.{write_le16, write_le32, write_le64, write_f32}
use ray_vault.Records.{
  RouteRec, InstRec, CalibRec, WindowRec, MarkerRec, LinkRec, NoteRec, WaveRec, SummRec,
}

abbrev pub route_bytes : RouteRec → List ℕ
route_bytes r =
    write_le32 r.route_id
    ++ write_le32 r.site_name_id
    ++ write_le32 r.far_name_id
    ++ write_f32 r.length_km
    ++ write_le32 r.fiber_count
    ++ write_le32 r.flags

abbrev pub inst_bytes : InstRec → List ℕ
inst_bytes r =
    write_le32 r.inst_id
    ++ write_le32 r.model_name_id
    ++ write_le32 r.serial_name_id
    ++ write_le16 r.wavelength_nm
    ++ write_le16 r.pulse_default_ns
    ++ write_f32 r.dynamic_range_db
    ++ write_le32 r.flags

abbrev pub calib_bytes : CalibRec → List ℕ
calib_bytes r =
    write_le32 r.calib_id
    ++ write_le32 r.inst_id
    ++ write_le64 r.calibrated_unix
    ++ write_f32 r.refractive_index
    ++ write_f32 r.backscatter_coef
    ++ write_f32 r.splice_loss_db
    ++ write_le32 r.flags

abbrev pub window_bytes : WindowRec → List ℕ
window_bytes r =
    write_le32 r.window_id
    ++ write_le32 r.route_id
    ++ write_le32 r.inst_id
    ++ write_le32 r.calib_id
    ++ write_le32 r.wave_block_id
    ++ write_f32 r.pulse_ns
    ++ write_f32 r.range_km
    ++ write_f32 r.resolution_m
    ++ write_le64 r.acquired_unix

abbrev pub marker_bytes : MarkerRec → List ℕ
marker_bytes r =
    write_le32 r.marker_id
    ++ write_le32 r.window_id
    ++ write_le32 r.label_name_id
    ++ write_f32 r.distance_m
    ++ write_f32 r.loss_db
    ++ write_f32 r.reflectance_db
    ++ write_le16 r.kind
    ++ write_le16 r.severity
    ++ write_le32 r.flags

abbrev pub link_bytes : LinkRec → List ℕ
link_bytes r =
    write_le32 r.link_id
    ++ write_le32 r.from_kind
    ++ write_le32 r.from_id
    ++ write_le32 r.to_kind
    ++ write_le32 r.to_id
    ++ write_le32 r.flags

abbrev pub note_bytes : NoteRec → List ℕ
note_bytes r =
    write_le32 r.note_id
    ++ write_le32 r.target_kind
    ++ write_le32 r.target_id
    ++ write_le32 r.text_name_id
    ++ write_le32 r.flags

-- The part of a block in front of its samples, and the block.
abbrev pub wave_head_bytes : WaveRec → List ℕ
wave_head_bytes w =
    write_le32 w.block_id
    ++ write_le32 w.window_id
    ++ write_le32 w.sample_count
    ++ write_f32 w.start_m
    ++ write_f32 w.step_m
    ++ write_le16 w.flags
    ++ write_le16 w.payload_crc

abbrev pub wave_bytes : WaveRec → List ℕ
wave_bytes w = wave_head_bytes w ++ w.samples

abbrev pub summ_bytes : SummRec → List ℕ
summ_bytes r =
    write_le32 r.route_count
    ++ write_le32 r.window_count
    ++ write_le32 r.marker_count
    ++ write_le32 r.wave_count
    ++ write_le32 r.name_count
    ++ write_le32 r.package_crc
    ++ write_le64 r.payload_bytes
    ++ write_le32 r.flags

-- The frame of a table: its magic number, its count and its records.
abbrev pub table_bytes : {A : Type 0} → ℕ → (A → List ℕ) → List A → List ℕ
table_bytes magic enc xs = write_le32 magic ++ write_le32 (length xs) ++ concat_map enc xs
