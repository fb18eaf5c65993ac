-- ===== src/Records/RoundTrip.antt =====
-- A record read back from its own bytes, and reads that stay inside the payload.
use ray_vault.Base.{ℕ, ◌≡◌, List, [], ◌++◌, some, arith}
use ray_vault.Endian.{read_le16, read_le32, read_le64, read_f32}
use ray_vault.Endian.RoundTrip.{join16-bytes, join32-bytes, join64-bytes}
use ray_vault.Records.{RouteRec, InstRec, CalibRec, WindowRec, MarkerRec, LinkRec, NoteRec, WaveRec}
use ray_vault.Records.Bounds.{IsRoute, IsInst, IsCalib, IsWindow, IsMarker, IsLink, IsNote, IsWave}
use ray_vault.Records.Read.{
  read_route, read_inst, read_calib, read_window, read_marker, read_link, read_note, read_wave,
}
use ray_vault.Records.Bytes.{
  route_bytes, inst_bytes, calib_bytes, window_bytes, marker_bytes, link_bytes, note_bytes,
  wave_head_bytes,
}

pub read_route-bytes :
    (r : RouteRec) (rest : List ℕ) → IsRoute r → read_route (route_bytes r ++ rest) ≡ some r
unfolding read_route read_le32 read_f32
read_route-bytes r rest v = ground (
  arith,
  join32-bytes r.route_id v.route_id_word,
  join32-bytes r.site_name_id v.site_name_id_word,
  join32-bytes r.far_name_id v.far_name_id_word,
  join32-bytes r.length_km v.length_km_word,
  join32-bytes r.fiber_count v.fiber_count_word,
  join32-bytes r.flags v.flags_word,
)

pub read_inst-bytes :
    (r : InstRec) (rest : List ℕ) → IsInst r → read_inst (inst_bytes r ++ rest) ≡ some r
unfolding read_inst read_le16 read_le32 read_f32
read_inst-bytes r rest v = ground (
  arith,
  join32-bytes r.inst_id v.inst_id_word,
  join32-bytes r.model_name_id v.model_name_id_word,
  join32-bytes r.serial_name_id v.serial_name_id_word,
  join16-bytes r.wavelength_nm v.wavelength_nm_word,
  join16-bytes r.pulse_default_ns v.pulse_default_ns_word,
  join32-bytes r.dynamic_range_db v.dynamic_range_db_word,
  join32-bytes r.flags v.flags_word,
)

pub read_calib-bytes :
    (r : CalibRec) (rest : List ℕ) → IsCalib r → read_calib (calib_bytes r ++ rest) ≡ some r
unfolding read_calib read_le32 read_le64 read_f32
read_calib-bytes r rest v = ground (
  arith,
  join32-bytes r.calib_id v.calib_id_word,
  join32-bytes r.inst_id v.inst_id_word,
  join64-bytes r.calibrated_unix v.calibrated_unix_word,
  join32-bytes r.refractive_index v.refractive_index_word,
  join32-bytes r.backscatter_coef v.backscatter_coef_word,
  join32-bytes r.splice_loss_db v.splice_loss_db_word,
  join32-bytes r.flags v.flags_word,
)

pub read_window-bytes :
    (r : WindowRec) (rest : List ℕ) → IsWindow r → read_window (window_bytes r ++ rest) ≡ some r
unfolding read_window read_le32 read_le64 read_f32
read_window-bytes r rest v = ground (
  arith,
  join32-bytes r.window_id v.window_id_word,
  join32-bytes r.route_id v.route_id_word,
  join32-bytes r.inst_id v.inst_id_word,
  join32-bytes r.calib_id v.calib_id_word,
  join32-bytes r.wave_block_id v.wave_block_id_word,
  join32-bytes r.pulse_ns v.pulse_ns_word,
  join32-bytes r.range_km v.range_km_word,
  join32-bytes r.resolution_m v.resolution_m_word,
  join64-bytes r.acquired_unix v.acquired_unix_word,
)

pub read_marker-bytes :
    (r : MarkerRec) (rest : List ℕ) → IsMarker r → read_marker (marker_bytes r ++ rest) ≡ some r
unfolding read_marker read_le16 read_le32 read_f32
read_marker-bytes r rest v = ground (
  arith,
  join32-bytes r.marker_id v.marker_id_word,
  join32-bytes r.window_id v.window_id_word,
  join32-bytes r.label_name_id v.label_name_id_word,
  join32-bytes r.distance_m v.distance_m_word,
  join32-bytes r.loss_db v.loss_db_word,
  join32-bytes r.reflectance_db v.reflectance_db_word,
  join16-bytes r.kind v.kind_word,
  join16-bytes r.severity v.severity_word,
  join32-bytes r.flags v.flags_word,
)

pub read_link-bytes :
    (r : LinkRec) (rest : List ℕ) → IsLink r → read_link (link_bytes r ++ rest) ≡ some r
unfolding read_link read_le32 read_f32
read_link-bytes r rest v = ground (
  arith,
  join32-bytes r.link_id v.link_id_word,
  join32-bytes r.from_kind v.from_kind_word,
  join32-bytes r.from_id v.from_id_word,
  join32-bytes r.to_kind v.to_kind_word,
  join32-bytes r.to_id v.to_id_word,
  join32-bytes r.flags v.flags_word,
)

pub read_note-bytes :
    (r : NoteRec) (rest : List ℕ) → IsNote r → read_note (note_bytes r ++ rest) ≡ some r
unfolding read_note read_le32 read_f32
read_note-bytes r rest v = ground (
  arith,
  join32-bytes r.note_id v.note_id_word,
  join32-bytes r.target_kind v.target_kind_word,
  join32-bytes r.target_id v.target_id_word,
  join32-bytes r.text_name_id v.text_name_id_word,
  join32-bytes r.flags v.flags_word,
)

pub read_wave-bytes :
    (w : WaveRec) (rest : List ℕ)
    → IsWave w
    → read_wave (wave_head_bytes w ++ rest) ≡ some (record w { samples = [] })
unfolding read_wave read_le16 read_le32 read_f32
read_wave-bytes w rest v = ground (
  arith,
  join32-bytes w.block_id v.block_id_word,
  join32-bytes w.window_id v.window_id_word,
  join32-bytes w.sample_count (omega arith),
  join32-bytes w.start_m v.start_m_word,
  join32-bytes w.step_m v.step_m_word,
  join16-bytes w.flags v.flags_word,
  join16-bytes w.payload_crc v.payload_crc_word,
)
