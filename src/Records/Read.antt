-- ===== src/Records/Read.antt =====
-- src/internal/rv_section.c: the bodies of the decoders' loops, one record from the bytes at `p`.
-- `none` is a read past the end of the payload.
use ray_vault.Base.{ℕ, List, [], Option, some, drop, ◌>>=◌}
use ray_vault.Endian.{read_le16, read_le32, read_le64, read_f32}
use ray_vault.Records.{RouteRec, InstRec, CalibRec, WindowRec, MarkerRec, LinkRec, NoteRec, WaveRec}

unfoldable pub read_route : List ℕ → Option RouteRec
read_route p = do
  route_id ← read_le32 p
  site_name_id ← read_le32 (drop 4 p)
  far_name_id ← read_le32 (drop 8 p)
  length_km ← read_f32 (drop 12 p)
  fiber_count ← read_le32 (drop 16 p)
  flags ← read_le32 (drop 20 p)
  some (record {
    route_id = route_id;
    site_name_id = site_name_id;
    far_name_id = far_name_id;
    length_km = length_km;
    fiber_count = fiber_count;
    flags = flags;
  })

unfoldable pub read_inst : List ℕ → Option InstRec
read_inst p = do
  inst_id ← read_le32 p
  model_name_id ← read_le32 (drop 4 p)
  serial_name_id ← read_le32 (drop 8 p)
  wavelength_nm ← read_le16 (drop 12 p)
  pulse_default_ns ← read_le16 (drop 14 p)
  dynamic_range_db ← read_f32 (drop 16 p)
  flags ← read_le32 (drop 20 p)
  some (record {
    inst_id = inst_id;
    model_name_id = model_name_id;
    serial_name_id = serial_name_id;
    wavelength_nm = wavelength_nm;
    pulse_default_ns = pulse_default_ns;
    dynamic_range_db = dynamic_range_db;
    flags = flags;
  })

unfoldable pub read_calib : List ℕ → Option CalibRec
read_calib p = do
  calib_id ← read_le32 p
  inst_id ← read_le32 (drop 4 p)
  calibrated_unix ← read_le64 (drop 8 p)
  refractive_index ← read_f32 (drop 16 p)
  backscatter_coef ← read_f32 (drop 20 p)
  splice_loss_db ← read_f32 (drop 24 p)
  flags ← read_le32 (drop 28 p)
  some (record {
    calib_id = calib_id;
    inst_id = inst_id;
    calibrated_unix = calibrated_unix;
    refractive_index = refractive_index;
    backscatter_coef = backscatter_coef;
    splice_loss_db = splice_loss_db;
    flags = flags;
  })

unfoldable pub read_window : List ℕ → Option WindowRec
read_window p = do
  window_id ← read_le32 p
  route_id ← read_le32 (drop 4 p)
  inst_id ← read_le32 (drop 8 p)
  calib_id ← read_le32 (drop 12 p)
  wave_block_id ← read_le32 (drop 16 p)
  pulse_ns ← read_f32 (drop 20 p)
  range_km ← read_f32 (drop 24 p)
  resolution_m ← read_f32 (drop 28 p)
  acquired_unix ← read_le64 (drop 32 p)
  some (record {
    window_id = window_id;
    route_id = route_id;
    inst_id = inst_id;
    calib_id = calib_id;
    wave_block_id = wave_block_id;
    pulse_ns = pulse_ns;
    range_km = range_km;
    resolution_m = resolution_m;
    acquired_unix = acquired_unix;
    flags = 0;
  })

unfoldable pub read_marker : List ℕ → Option MarkerRec
read_marker p = do
  marker_id ← read_le32 p
  window_id ← read_le32 (drop 4 p)
  label_name_id ← read_le32 (drop 8 p)
  distance_m ← read_f32 (drop 12 p)
  loss_db ← read_f32 (drop 16 p)
  reflectance_db ← read_f32 (drop 20 p)
  kind ← read_le16 (drop 24 p)
  severity ← read_le16 (drop 26 p)
  flags ← read_le32 (drop 28 p)
  some (record {
    marker_id = marker_id;
    window_id = window_id;
    label_name_id = label_name_id;
    distance_m = distance_m;
    loss_db = loss_db;
    reflectance_db = reflectance_db;
    kind = kind;
    severity = severity;
    flags = flags;
  })

unfoldable pub read_link : List ℕ → Option LinkRec
read_link p = do
  link_id ← read_le32 p
  from_kind ← read_le32 (drop 4 p)
  from_id ← read_le32 (drop 8 p)
  to_kind ← read_le32 (drop 12 p)
  to_id ← read_le32 (drop 16 p)
  flags ← read_le32 (drop 20 p)
  some (record {
    link_id = link_id;
    from_kind = from_kind;
    from_id = from_id;
    to_kind = to_kind;
    to_id = to_id;
    flags = flags;
  })

unfoldable pub read_note : List ℕ → Option NoteRec
read_note p = do
  note_id ← read_le32 p
  target_kind ← read_le32 (drop 4 p)
  target_id ← read_le32 (drop 8 p)
  text_name_id ← read_le32 (drop 12 p)
  flags ← read_le32 (drop 16 p)
  some (record {
    note_id = note_id;
    target_kind = target_kind;
    target_id = target_id;
    text_name_id = text_name_id;
    flags = flags;
  })

-- The 24 bytes in front of the samples of a block.
unfoldable pub read_wave : List ℕ → Option WaveRec
read_wave p = do
  block_id ← read_le32 p
  window_id ← read_le32 (drop 4 p)
  sample_count ← read_le32 (drop 8 p)
  start_m ← read_f32 (drop 12 p)
  step_m ← read_f32 (drop 16 p)
  flags ← read_le16 (drop 20 p)
  payload_crc ← read_le16 (drop 22 p)
  some (record {
    block_id = block_id;
    window_id = window_id;
    sample_count = sample_count;
    start_m = start_m;
    step_m = step_m;
    samples = [];
    flags = flags;
    payload_crc = payload_crc;
  })
