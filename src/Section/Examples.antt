-- ===== src/Section/Examples.antt =====
-- A builder with one record in each table, written and decoded.
use ray_vault.Base.{ℕ, ◌≡◌, ◌≢◌, refl, Bool, true, List, [], ◌∷◌, some, arith}
use ray_vault.Arena.{Arena, Heap, alloc, calloc, align_up, alignment}
use ray_vault.Buf.{Buf}
use ray_vault.Buf.Writes.{IsValid}
use ray_vault.Decoding.{ok, fault, new_items}
use ray_vault.Records.{RouteRec, InstRec, CalibRec, WindowRec, MarkerRec, LinkRec, NoteRec}
use ray_vault.Records.Bounds.{IsRoute}
use ray_vault.Builder.{Builder, no_items}
use ray_vault.Builder.Emit.{append_rout}
use ray_vault.Builder.Emitted.{append_rout-Writes}
use ray_vault.Section.{
  decode_rout, decode_inst, decode_clbr, decode_wind, decode_mark, decode_link, decode_note,
  decode_summ,
}
use ray_vault.Section.Tables.{decode_tables-Inside, Inside}
use ray_vault.Section.RoundTrip.{decode_rout-append}

abbrev all_granted : ℕ → Bool
all_granted n = true

abbrev heap : Heap
heap = record { malloc = λ n. some 1000; realloc = λ base n. some 2000 }

abbrev arena : Arena
arena = record {
  base = some 1000;
  size = 4096;
  used = 0;
  peak = 0;
  max_bytes = 65536;
  epoch = 1;
  grow_count = 0;
  owns_base = true;
}

abbrev out : Buf
out = record { data_bytes = []; cap = 256; owned = true }

out-IsValid : IsValid out
out-IsValid = record { fits = omega arith; word = omega arith }

abbrev route : RouteRec
route = record {
  route_id = 5;
  site_name_id = 1;
  far_name_id = 2;
  length_km = 1092616192;
  fiber_count = 12;
  flags = 0;
}

abbrev inst : InstRec
inst = record {
  inst_id = 2;
  model_name_id = 3;
  serial_name_id = 4;
  wavelength_nm = 1550;
  pulse_default_ns = 100;
  dynamic_range_db = 1109393408;
  flags = 1;
}

abbrev calib : CalibRec
calib = record {
  calib_id = 9;
  inst_id = 2;
  calibrated_unix = 1700000000;
  refractive_index = 1069279085;
  backscatter_coef = 3265396736;
  splice_loss_db = 1036831949;
  flags = 0;
}

abbrev window : WindowRec
window = record {
  window_id = 3;
  route_id = 5;
  inst_id = 2;
  calib_id = 9;
  wave_block_id = 7;
  pulse_ns = 1120403456;
  range_km = 1092616192;
  resolution_m = 1065353216;
  acquired_unix = 1700000001;
  flags = 0;
}

abbrev marker : MarkerRec
marker = record {
  marker_id = 4;
  window_id = 3;
  label_name_id = 6;
  distance_m = 1148846080;
  loss_db = 1050253722;
  reflectance_db = 3258187776;
  kind = 1;
  severity = 2;
  flags = 0;
}

abbrev link : LinkRec
link = record { link_id = 1; from_kind = 1; from_id = 3; to_kind = 2; to_id = 5; flags = 0 }

abbrev note : NoteRec
note = record { note_id = 1; target_kind = 1; target_id = 3; text_name_id = 8; flags = 0 }

abbrev bundle : Builder
bundle = record {
  names = no_items;
  routes = record { items = route ∷ []; cap = 8 };
  insts = record { items = inst ∷ []; cap = 8 };
  calibs = record { items = calib ∷ []; cap = 8 };
  windows = record { items = window ∷ []; cap = 8 };
  waves = no_items;
  markers = record { items = marker ∷ []; cap = 8 };
  links = record { items = link ∷ []; cap = 8 };
  notes = record { items = note ∷ []; cap = 8 };
  next_name_id = 1;
  ver_major = 2;
  ver_minor = 3;
  feature_bits = 0;
  created_unix = 0;
  include_summ = true;
  include_notes = true;
}

route-IsRoute : IsRoute route
route-IsRoute = record {
  route_id_word = omega arith;
  site_name_id_word = omega arith;
  far_name_id_word = omega arith;
  length_km_word = omega arith;
  fiber_count_word = omega arith;
  flags_word = omega arith;
}

room_rout : (new_items heap 1 24 8 arena).0 ≡ ok tt
unfolding new_items calloc alloc align_up alignment
room_rout = refl

decode_rout-append_example :
    decode_rout heap (append_rout all_granted bundle out).1.data_bytes arena
    ≡ (ok (route ∷ []), (new_items heap 1 24 8 arena).1)
decode_rout-append_example =
    decode_rout-append all_granted bundle out heap arena refl
      ((append_rout-Writes all_granted bundle).works out out-IsValid (omega arith))
      (route-IsRoute, tt) (omega arith) room_rout

room_inst : (new_items heap 1 24 8 arena).0 ≡ ok tt
unfolding new_items calloc alloc align_up alignment
room_inst = refl

room_clbr : (new_items heap 1 32 8 arena).0 ≡ ok tt
unfolding new_items calloc alloc align_up alignment
room_clbr = refl

room_wind : (new_items heap 1 48 8 arena).0 ≡ ok tt
unfolding new_items calloc alloc align_up alignment
room_wind = refl

room_mark : (new_items heap 1 32 8 arena).0 ≡ ok tt
unfolding new_items calloc alloc align_up alignment
room_mark = refl

room_link : (new_items heap 1 24 8 arena).0 ≡ ok tt
unfolding new_items calloc alloc align_up alignment
room_link = refl

room_note : (new_items heap 1 20 8 arena).0 ≡ ok tt
unfolding new_items calloc alloc align_up alignment
room_note = refl

abbrev bytes : List ℕ
bytes = (append_rout all_granted bundle out).1.data_bytes

decode_tables-Inside_example :
    Inside 50000 24 bytes (decode_rout heap bytes arena).0
    × Inside 10000 24 bytes (decode_inst heap bytes arena).0
    × Inside 10000 32 bytes (decode_clbr heap bytes arena).0
    × Inside 200000 40 bytes (decode_wind heap bytes arena).0
    × Inside 500000 32 bytes (decode_mark heap bytes arena).0
    × Inside 200000 24 bytes (decode_link heap bytes arena).0
    × Inside 50000 20 bytes (decode_note heap bytes arena).0
    × ((decode_summ bytes arena).0 ≢ fault)
decode_tables-Inside_example = decode_tables-Inside heap bytes arena
