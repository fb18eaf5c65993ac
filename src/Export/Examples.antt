-- ===== src/Export/Examples.antt =====
-- An export of small tables.
use ray_vault.Base.{◌≡◌, true, false, refl, none, some, List, [], length, arith, Option}
use ray_vault.Arena.{alloc, calloc, align_up, alignment}
use ray_vault.Buf
use ray_vault.Buf.{
  Buf, append, reserve, reserve_loop, for_each, append_u16, append_f32, append_u32, append_u64,
}
use ray_vault.Records.Append.{
  append_route_rec, append_window_rec, append_marker_rec, append_link_rec,
}
use ray_vault.Builder.Blobs.{append_pad}
use ray_vault.Decoding.{Result, ok, new_items}
use ray_vault.Parser.{Parsed}
use ray_vault.Builder.Package.{
  Sec, assemble, new_sec, entries_from, payload_start, end_of, append_dir, append_package,
}
use ray_vault.Builder.Package.Loaded.{LoadedAs}
use ray_vault.Export.{
  DerivedSummary, export_build, export_sections, table_sections, export_stamps, export_snam,
  export_rout, export_inst, export_clbr, export_wind, export_wave, export_wave_rec, export_mark,
  export_link, export_summ, include_wave, export_counts, labels_reachable,
}
use ray_vault.Export.Tables.{IsExportable, HasRoom, Decoded, decode-table_sections}
use ray_vault.Export.Loaded.{load_directory-export_build}
use ray_vault.Samples.{
  all_granted, heap, arena, tables, route-IsRoute, window-IsWindow, wave-IsWave, marker-IsMarker,
  link-IsLink,
}

abbrev no_summary : DerivedSummary
no_summary = record {
  routes = 0;
  windows = 0;
  markers = 0;
  wave_blocks = 0;
  name_entries = 0;
  label_count = 0;
  block = none;
  valid = false;
}

abbrev empty_tables : Parsed
empty_tables = record tables { rout = []; wind = []; wave = []; mark = []; link = [] }

abbrev buffer_of : Result Buf → Buf
buffer_of (ok b) = b
buffer_of other = Buf.released

abbrev exported : Buf
exported = buffer_of (export_build all_granted empty_tables no_summary none 1)

is_exported : export_build all_granted empty_tables no_summary none 1 ≡ ok exported
unfolding export_build labels_reachable export_counts export_sections table_sections export_stamps
    export_snam export_rout export_inst export_clbr export_wind export_wave export_mark export_link
    export_summ include_wave assemble new_sec entries_from payload_start end_of append_dir
    append_package Buf.init append reserve reserve_loop for_each append_u32 append_u64
is_exported = refl

exported_size : length exported.data_bytes ≡ 384
unfolding export_build labels_reachable export_counts export_sections table_sections export_stamps
    export_snam export_rout export_inst export_clbr export_wind export_wave export_mark export_link
    export_summ include_wave assemble new_sec entries_from payload_start end_of append_dir
    append_package Buf.init append reserve reserve_loop for_each append_u32 append_u64
exported_size = refl

load_directory-export_build_example :
    (secs : List Sec) × (export_sections all_granted empty_tables no_summary 1 ≡ some secs)
    × LoadedAs exported.data_bytes (export_stamps empty_tables) secs
load_directory-export_build_example =
    load_directory-export_build all_granted empty_tables no_summary none 1 exported is_exported
      (omega (arith, exported_size)) (omega arith)

abbrev sections_or_none : Option (List Sec) → List Sec
sections_or_none none = []
sections_or_none (some ss) = ss

abbrev written_tables : List Sec
written_tables = sections_or_none (table_sections all_granted tables 1)

tables_written : table_sections all_granted tables 1 ≡ some written_tables
unfolding export_build labels_reachable export_counts export_sections table_sections export_stamps
    export_snam export_rout export_inst export_clbr export_wind export_wave export_mark export_link
    export_summ include_wave assemble new_sec entries_from payload_start end_of append_dir
    append_package Buf.init append reserve reserve_loop for_each append_u32 append_u64 append_u16
    append_f32 append_route_rec append_window_rec append_marker_rec append_link_rec export_wave_rec
    append_pad
tables_written = refl

all_included : include_wave 1 ≡ true
unfolding include_wave
all_included = refl

tables-IsExportable : IsExportable tables
tables-IsExportable = record {
  rout_fields = (route-IsRoute, tt);
  rout_few = omega arith;
  inst_fields = tt;
  inst_few = omega arith;
  clbr_fields = tt;
  clbr_few = omega arith;
  wind_fields = (window-IsWindow, tt);
  wind_few = omega arith;
  wave_fields = (wave-IsWave, tt);
  wave_few = omega arith;
  mark_fields = (marker-IsMarker, tt);
  mark_few = omega arith;
  link_fields = (link-IsLink, tt);
  link_few = omega arith;
}

arena-HasRoom : HasRoom heap arena tables
unfolding new_items calloc alloc align_up alignment
arena-HasRoom = record {
  rout_room = refl;
  inst_room = refl;
  clbr_room = refl;
  wind_room = refl;
  wave_room = refl;
  mark_room = refl;
  link_room = refl;
}

decode-table_sections_example : Decoded heap arena tables written_tables
decode-table_sections_example =
    decode-table_sections all_granted tables 1 heap arena written_tables tables_written all_included
      tables-IsExportable arena-HasRoom
