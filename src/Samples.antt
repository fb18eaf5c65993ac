-- ===== src/Samples.antt =====
-- Records, tables and an arena that the runs on concrete inputs share.
use ray_vault.Base.{ℕ, refl, Bool, true, false, [], ◌∷◌, some, arith}
use ray_vault.Arena.{Arena, Heap}
use ray_vault.Records.{RouteRec, WindowRec, WaveRec, MarkerRec, LinkRec}
use ray_vault.Records.Bounds.{IsRoute, IsWindow, IsWave, IsMarker, IsLink}
use ray_vault.Reader.{Reader}
use ray_vault.Parser.{Parsed, at_done, no_names, no_summ}

abbrev pub all_granted : ℕ → Bool
all_granted n = true

abbrev pub heap : Heap
heap = record { malloc = λ n. some 1000; realloc = λ base n. some 2000 }

abbrev pub arena : Arena
arena = record {
  base = some 1000;
  size = 4096;
  used = 0;
  peak = 0;
  max_bytes = 65536;
  epoch = 1;
  grow_count = 0;
  owns_base = true;
}

abbrev pub route : RouteRec
route = record {
  route_id = 5;
  site_name_id = 1;
  far_name_id = 2;
  length_km = 1092616192;
  fiber_count = 12;
  flags = 0;
}

abbrev pub window : WindowRec
window = record {
  window_id = 3;
  route_id = 5;
  inst_id = 2;
  calib_id = 9;
  wave_block_id = 7;
  pulse_ns = 1120403456;
  range_km = 1092616192;
  resolution_m = 1065353216;
  acquired_unix = 1700000001;
  flags = 0;
}

abbrev pub marker : MarkerRec
marker = record {
  marker_id = 4;
  window_id = 3;
  label_name_id = 6;
  distance_m = 1148846080;
  loss_db = 1050253722;
  reflectance_db = 3258187776;
  kind = 1;
  severity = 2;
  flags = 0;
}

abbrev pub link : LinkRec
link = record { link_id = 1; from_kind = 1; from_id = 3; to_kind = 2; to_id = 5; flags = 0 }

abbrev pub wave : WaveRec
wave = record {
  block_id = 7;
  window_id = 3;
  sample_count = 1;
  start_m = 0;
  step_m = 1065353216;
  samples = 1 ∷ 2 ∷ [];
  flags = 0;
  payload_crc = 9;
}

abbrev pub tables : Parsed
tables = record {
  snam = no_names;
  rout = route ∷ [];
  inst = [];
  clbr = [];
  wind = window ∷ [];
  wave = wave ∷ [];
  mark = marker ∷ [];
  link = link ∷ [];
  note = [];
  summ = no_summ;
  has_summ = false;
  phase = at_done;
  sections_seen = 9;
  feature_bits = 0;
}

pub route-IsRoute : IsRoute route
route-IsRoute = record {
  route_id_word = omega arith;
  site_name_id_word = omega arith;
  far_name_id_word = omega arith;
  length_km_word = omega arith;
  fiber_count_word = omega arith;
  flags_word = omega arith;
}

pub window-IsWindow : IsWindow window
window-IsWindow = record {
  window_id_word = omega arith;
  route_id_word = omega arith;
  inst_id_word = omega arith;
  calib_id_word = omega arith;
  wave_block_id_word = omega arith;
  pulse_ns_word = omega arith;
  range_km_word = omega arith;
  resolution_m_word = omega arith;
  acquired_unix_word = omega arith;
  no_flags = refl;
}

pub marker-IsMarker : IsMarker marker
marker-IsMarker = record {
  marker_id_word = omega arith;
  window_id_word = omega arith;
  label_name_id_word = omega arith;
  distance_m_word = omega arith;
  loss_db_word = omega arith;
  reflectance_db_word = omega arith;
  kind_word = omega arith;
  severity_word = omega arith;
  flags_word = omega arith;
}

pub link-IsLink : IsLink link
link-IsLink = record {
  link_id_word = omega arith;
  from_kind_word = omega arith;
  from_id_word = omega arith;
  to_kind_word = omega arith;
  to_id_word = omega arith;
  flags_word = omega arith;
}

pub wave-IsWave : IsWave wave
wave-IsWave = record {
  block_id_word = omega arith;
  window_id_word = omega arith;
  few_samples = omega arith;
  start_m_word = omega arith;
  step_m_word = omega arith;
  all_samples = refl;
  flags_word = omega arith;
  payload_crc_word = omega arith;
}

abbrev pub reader : Reader
reader = record {
  backing = [];
  header = record {
    magic0 = 0x52;
    magic1 = 0x56;
    magic2 = 0x50;
    magic3 = 0x4b;
    ver_major = 2;
    ver_minor = 3;
    flags = 0;
    header_crc = 0;
    created_unix = 0;
    section_count = 0;
    dir_offset = 64;
    total_size = 64;
    feature_bits = 0;
    reserved0 = 0;
    reserved1 = 0;
  };
  dir = [];
}
