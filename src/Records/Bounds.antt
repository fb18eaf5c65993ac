-- ===== src/Records/Bounds.antt =====
-- Each field of a table record is within its C type.
use ray_vault.Base.{◌*◌, ◌≤◌, ◌≡◌, length, IsU16, IsU32, IsU64}
use ray_vault.Records.{
  RouteRec, InstRec, CalibRec, WindowRec, MarkerRec, LinkRec, NoteRec, WaveRec, SummRec,
}

pub record IsRoute (r : RouteRec) : Type 0 where
  pub route_id_word : IsU32 r.route_id
  pub site_name_id_word : IsU32 r.site_name_id
  pub far_name_id_word : IsU32 r.far_name_id
  pub length_km_word : IsU32 r.length_km
  pub fiber_count_word : IsU32 r.fiber_count
  pub flags_word : IsU32 r.flags

pub record IsInst (r : InstRec) : Type 0 where
  pub inst_id_word : IsU32 r.inst_id
  pub model_name_id_word : IsU32 r.model_name_id
  pub serial_name_id_word : IsU32 r.serial_name_id
  pub wavelength_nm_word : IsU16 r.wavelength_nm
  pub pulse_default_ns_word : IsU16 r.pulse_default_ns
  pub dynamic_range_db_word : IsU32 r.dynamic_range_db
  pub flags_word : IsU32 r.flags

pub record IsCalib (r : CalibRec) : Type 0 where
  pub calib_id_word : IsU32 r.calib_id
  pub inst_id_word : IsU32 r.inst_id
  pub calibrated_unix_word : IsU64 r.calibrated_unix
  pub refractive_index_word : IsU32 r.refractive_index
  pub backscatter_coef_word : IsU32 r.backscatter_coef
  pub splice_loss_db_word : IsU32 r.splice_loss_db
  pub flags_word : IsU32 r.flags

-- `rv_builder_window` has no flags: its record has 0 there.
pub record IsWindow (r : WindowRec) : Type 0 where
  pub window_id_word : IsU32 r.window_id
  pub route_id_word : IsU32 r.route_id
  pub inst_id_word : IsU32 r.inst_id
  pub calib_id_word : IsU32 r.calib_id
  pub wave_block_id_word : IsU32 r.wave_block_id
  pub pulse_ns_word : IsU32 r.pulse_ns
  pub range_km_word : IsU32 r.range_km
  pub resolution_m_word : IsU32 r.resolution_m
  pub acquired_unix_word : IsU64 r.acquired_unix
  pub no_flags : r.flags ≡ 0

pub record IsMarker (r : MarkerRec) : Type 0 where
  pub marker_id_word : IsU32 r.marker_id
  pub window_id_word : IsU32 r.window_id
  pub label_name_id_word : IsU32 r.label_name_id
  pub distance_m_word : IsU32 r.distance_m
  pub loss_db_word : IsU32 r.loss_db
  pub reflectance_db_word : IsU32 r.reflectance_db
  pub kind_word : IsU16 r.kind
  pub severity_word : IsU16 r.severity
  pub flags_word : IsU32 r.flags

pub record IsLink (r : LinkRec) : Type 0 where
  pub link_id_word : IsU32 r.link_id
  pub from_kind_word : IsU32 r.from_kind
  pub from_id_word : IsU32 r.from_id
  pub to_kind_word : IsU32 r.to_kind
  pub to_id_word : IsU32 r.to_id
  pub flags_word : IsU32 r.flags

pub record IsNote (r : NoteRec) : Type 0 where
  pub note_id_word : IsU32 r.note_id
  pub target_kind_word : IsU32 r.target_kind
  pub target_id_word : IsU32 r.target_id
  pub text_name_id_word : IsU32 r.text_name_id
  pub flags_word : IsU32 r.flags

pub record IsSumm (r : SummRec) : Type 0 where
  pub route_count_word : IsU32 r.route_count
  pub window_count_word : IsU32 r.window_count
  pub marker_count_word : IsU32 r.marker_count
  pub wave_count_word : IsU32 r.wave_count
  pub name_count_word : IsU32 r.name_count
  pub package_crc_word : IsU32 r.package_crc
  pub payload_bytes_word : IsU64 r.payload_bytes
  pub flags_word : IsU32 r.flags

-- The samples are two bytes each.
pub record IsWave (w : WaveRec) : Type 0 where
  pub block_id_word : IsU32 w.block_id
  pub window_id_word : IsU32 w.window_id
  pub few_samples : w.sample_count ≤ 2000000
  pub start_m_word : IsU32 w.start_m
  pub step_m_word : IsU32 w.step_m
  pub all_samples : length w.samples ≡ w.sample_count * 2
  pub flags_word : IsU16 w.flags
  pub payload_crc_word : IsU16 w.payload_crc
