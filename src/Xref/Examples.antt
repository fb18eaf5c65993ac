-- ===== src/Xref/Examples.antt =====
-- A package with one route, instrument, window and wave, each with the id 1.
use ray_vault.Base.{◌≡◌, refl, true, some, [], ◌∷◌, arith}
use ray_vault.IdMap.{IdMap, find}
use ray_vault.Records.{InstRec, WindowRec, WaveRec}
use ray_vault.Parser.{Parsed, unparsed}
use ray_vault.Dict.{check_routes, check_instruments, check_markers, is_bad}
use ray_vault.Xref.{
  Index, find_route, find_window, find_wave, find_inst, find_calib, position, xref_validate,
  check_rows, add_failures, window_tests, marker_tests, wave_tests, link_tests, name_tests,
}
use ray_vault.Xref.Resolved.{Resolved, xref_validate-Resolved}

abbrev map_of_1 : IdMap
map_of_1 = record { cells = 0 ∷ 1 ∷ []; block = some 1000 }

abbrev inst : InstRec
inst = record {
  inst_id = 1;
  model_name_id = 0;
  serial_name_id = 0;
  wavelength_nm = 1550;
  pulse_default_ns = 10;
  dynamic_range_db = 0;
  flags = 0;
}

abbrev window : WindowRec
window = record {
  window_id = 1;
  route_id = 1;
  inst_id = 1;
  calib_id = 0;
  wave_block_id = 1;
  pulse_ns = 0;
  range_km = 0;
  resolution_m = 0;
  acquired_unix = 0;
  flags = 0;
}

abbrev wave : WaveRec
wave = record {
  block_id = 1;
  window_id = 1;
  sample_count = 0;
  start_m = 0;
  step_m = 1065353216;
  samples = [];
  flags = 0;
  payload_crc = 0;
}

abbrev index : Index
index = record {
  windows = window ∷ [];
  waves = wave ∷ [];
  route_by_id = map_of_1;
  window_by_id = map_of_1;
  wave_by_id = map_of_1;
  markers = [];
  ready = true;
}

abbrev tables : Parsed
tables = record unparsed { inst = inst ∷ []; wind = window ∷ []; wave = wave ∷ [] }

succeeds : (xref_validate index tables).0 ≡ true
unfolding xref_validate check_rows add_failures window_tests marker_tests wave_tests link_tests
    name_tests find_route find_window find_wave find_inst find_calib position find check_routes
    check_instruments check_markers is_bad
succeeds = refl

xref_validate-Resolved_example : Resolved index tables
xref_validate-Resolved_example =
    xref_validate-Resolved index tables (omega arith, omega arith, omega arith, omega arith)
      succeeds
