-- ===== src/Records.antt =====
-- src/internal/rv_format.h and rv_builder.h: the records of the section tables.
-- A record of the builder with the fields of the decoded one is the same type here. A float field
-- is its 32 bits; padding fields are left out.
pub mod Bounds
pub mod Read
pub mod Bytes
pub mod RoundTrip
pub mod Append
pub mod Writes
pub mod Inside
use ray_vault.Base.{ℕ, List}

pub record RouteRec : Type 0 where
  pub route_id : ℕ
  pub site_name_id : ℕ
  pub far_name_id : ℕ
  pub length_km : ℕ
  pub fiber_count : ℕ
  pub flags : ℕ

pub record InstRec : Type 0 where
  pub inst_id : ℕ
  pub model_name_id : ℕ
  pub serial_name_id : ℕ
  pub wavelength_nm : ℕ
  pub pulse_default_ns : ℕ
  pub dynamic_range_db : ℕ
  pub flags : ℕ

pub record CalibRec : Type 0 where
  pub calib_id : ℕ
  pub inst_id : ℕ
  pub calibrated_unix : ℕ
  pub refractive_index : ℕ
  pub backscatter_coef : ℕ
  pub splice_loss_db : ℕ
  pub flags : ℕ

pub record WindowRec : Type 0 where
  pub window_id : ℕ
  pub route_id : ℕ
  pub inst_id : ℕ
  pub calib_id : ℕ
  pub wave_block_id : ℕ
  pub pulse_ns : ℕ
  pub range_km : ℕ
  pub resolution_m : ℕ
  pub acquired_unix : ℕ
  pub flags : ℕ

pub record MarkerRec : Type 0 where
  pub marker_id : ℕ
  pub window_id : ℕ
  pub label_name_id : ℕ
  pub distance_m : ℕ
  pub loss_db : ℕ
  pub reflectance_db : ℕ
  pub kind : ℕ
  pub severity : ℕ
  pub flags : ℕ

pub record LinkRec : Type 0 where
  pub link_id : ℕ
  pub from_kind : ℕ
  pub from_id : ℕ
  pub to_kind : ℕ
  pub to_id : ℕ
  pub flags : ℕ

pub record NoteRec : Type 0 where
  pub note_id : ℕ
  pub target_kind : ℕ
  pub target_id : ℕ
  pub text_name_id : ℕ
  pub flags : ℕ

-- `samples` is the borrowed bytes of the samples.
pub record WaveRec : Type 0 where
  pub block_id : ℕ
  pub window_id : ℕ
  pub sample_count : ℕ
  pub start_m : ℕ
  pub step_m : ℕ
  pub samples : List ℕ
  pub flags : ℕ
  pub payload_crc : ℕ

pub record SummRec : Type 0 where
  pub route_count : ℕ
  pub window_count : ℕ
  pub marker_count : ℕ
  pub wave_count : ℕ
  pub name_count : ℕ
  pub package_crc : ℕ
  pub payload_bytes : ℕ
  pub flags : ℕ
