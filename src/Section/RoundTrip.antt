-- ===== src/Section/RoundTrip.antt =====
-- A table that src/internal/rv_builder.c emits is decoded by src/internal/rv_section.c into the
-- same records.
use ray_vault.Base.{ℕ, ◌≤◌, ◌≡◌, Bool, true, [], All, length, refl, arith}
use ray_vault.Arena.{Arena, Heap}
use ray_vault.Buf.{Buf}
use ray_vault.Decoding.{ok, new_items}
use ray_vault.Endian.{read_le32, read_le64}
use ray_vault.Endian.RoundTrip.{join32-bytes, join64-bytes}
use ray_vault.Records.{SummRec}
use ray_vault.Records.Bounds.{IsSumm, IsRoute, IsInst, IsCalib, IsWindow, IsMarker, IsLink, IsNote}
use ray_vault.Records.Bytes.{
  route_bytes, inst_bytes, calib_bytes, window_bytes, marker_bytes, link_bytes, note_bytes,
}
use ray_vault.Records.Read.{
  read_route, read_inst, read_calib, read_window, read_marker, read_link, read_note,
}
use ray_vault.Records.RoundTrip.{
  read_route-bytes, read_inst-bytes, read_calib-bytes, read_window-bytes, read_marker-bytes,
  read_link-bytes, read_note-bytes,
}
use ray_vault.Builder.{Builder}
use ray_vault.Builder.Emit.{
  append_summ, append_rout, append_inst, append_clbr, append_wind, append_mark, append_link,
  append_note,
}
use ray_vault.Builder.Emitted.{
  append_rout-Writes, append_inst-Writes, append_clbr-Writes, append_wind-Writes,
  append_mark-Writes, append_link-Writes, append_note-Writes, append_summ-Writes,
}
use ray_vault.Section.{
  decode_rout, decode_inst, decode_clbr, decode_wind, decode_mark, decode_link, decode_note,
  decode_summ,
}
use ray_vault.Section.Rows.{decode_table-bytes}

module _ (grants : ℕ → Bool) (b : Builder) (out : Buf) (h : Heap) (a : Arena) where
  -- If the builder's ROUT section was written to an empty buffer, its decoder gives back the
  -- records, where they number at most 50000, each field fits its type, and the arena has room.
  pub decode_rout-append :
      out.data_bytes ≡ []
      → (append_rout grants b out).0 ≡ true
      → All IsRoute b.routes.items
      → length b.routes.items ≤ 50000
      → (new_items h (length b.routes.items) 24 8 a).0 ≡ ok tt
      → decode_rout h (append_rout grants b out).1.data_bytes a
        ≡ (ok b.routes.items, (new_items h (length b.routes.items) 24 8 a).1)
  unfolding decode_rout
  decode_rout-append empty written fields few room =
      rw ((append_rout-Writes grants b).puts out written, empty)
        (decode_table-bytes 0x31544f52 50000 24 24 read_route h route_bytes IsRoute read_route-bytes
          (λ r. refl) (omega arith) (omega arith) b.routes.items a fields few room)

  -- If the builder's INST section was written to an empty buffer, its decoder gives back the
  -- records, where they number at most 10000, each field fits its type, and the arena has room.
  pub decode_inst-append :
      out.data_bytes ≡ []
      → (append_inst grants b out).0 ≡ true
      → All IsInst b.insts.items
      → length b.insts.items ≤ 10000
      → (new_items h (length b.insts.items) 24 8 a).0 ≡ ok tt
      → decode_inst h (append_inst grants b out).1.data_bytes a
        ≡ (ok b.insts.items, (new_items h (length b.insts.items) 24 8 a).1)
  unfolding decode_inst
  decode_inst-append empty written fields few room =
      rw ((append_inst-Writes grants b).puts out written, empty)
        (decode_table-bytes 0x3154534e 10000 24 24 read_inst h inst_bytes IsInst read_inst-bytes
          (λ r. refl) (omega arith) (omega arith) b.insts.items a fields few room)

  -- If the builder's CLBR section was written to an empty buffer, its decoder gives back the
  -- records, where they number at most 10000, each field fits its type, and the arena has room.
  pub decode_clbr-append :
      out.data_bytes ≡ []
      → (append_clbr grants b out).0 ≡ true
      → All IsCalib b.calibs.items
      → length b.calibs.items ≤ 10000
      → (new_items h (length b.calibs.items) 32 8 a).0 ≡ ok tt
      → decode_clbr h (append_clbr grants b out).1.data_bytes a
        ≡ (ok b.calibs.items, (new_items h (length b.calibs.items) 32 8 a).1)
  unfolding decode_clbr
  decode_clbr-append empty written fields few room =
      rw ((append_clbr-Writes grants b).puts out written, empty)
        (decode_table-bytes 0x31424c43 10000 32 32 read_calib h calib_bytes IsCalib read_calib-bytes
          (λ r. refl) (omega arith) (omega arith) b.calibs.items a fields few room)

  -- If the builder's WIND section was written to an empty buffer, its decoder gives back the
  -- records, where they number at most 200000, each field fits its type, and the arena has room.
  pub decode_wind-append :
      out.data_bytes ≡ []
      → (append_wind grants b out).0 ≡ true
      → All IsWindow b.windows.items
      → length b.windows.items ≤ 200000
      → (new_items h (length b.windows.items) 48 8 a).0 ≡ ok tt
      → decode_wind h (append_wind grants b out).1.data_bytes a
        ≡ (ok b.windows.items, (new_items h (length b.windows.items) 48 8 a).1)
  unfolding decode_wind
  decode_wind-append empty written fields few room =
      rw ((append_wind-Writes grants b).puts out written, empty)
        (decode_table-bytes 0x31444e49 200000 40 48 read_window h window_bytes IsWindow
          read_window-bytes (λ r. refl) (omega arith) (omega arith) b.windows.items a fields few
          room)

  -- If the builder's MARK section was written to an empty buffer, its decoder gives back the
  -- records, where they number at most 500000, each field fits its type, and the arena has room.
  pub decode_mark-append :
      out.data_bytes ≡ []
      → (append_mark grants b out).0 ≡ true
      → All IsMarker b.markers.items
      → length b.markers.items ≤ 500000
      → (new_items h (length b.markers.items) 32 8 a).0 ≡ ok tt
      → decode_mark h (append_mark grants b out).1.data_bytes a
        ≡ (ok b.markers.items, (new_items h (length b.markers.items) 32 8 a).1)
  unfolding decode_mark
  decode_mark-append empty written fields few room =
      rw ((append_mark-Writes grants b).puts out written, empty)
        (decode_table-bytes 0x314b524d 500000 32 32 read_marker h marker_bytes IsMarker
          read_marker-bytes (λ r. refl) (omega arith) (omega arith) b.markers.items a fields few
          room)

  -- If the builder's LINK section was written to an empty buffer, its decoder gives back the
  -- records, where they number at most 200000, each field fits its type, and the arena has room.
  pub decode_link-append :
      out.data_bytes ≡ []
      → (append_link grants b out).0 ≡ true
      → All IsLink b.links.items
      → length b.links.items ≤ 200000
      → (new_items h (length b.links.items) 24 8 a).0 ≡ ok tt
      → decode_link h (append_link grants b out).1.data_bytes a
        ≡ (ok b.links.items, (new_items h (length b.links.items) 24 8 a).1)
  unfolding decode_link
  decode_link-append empty written fields few room =
      rw ((append_link-Writes grants b).puts out written, empty)
        (decode_table-bytes 0x314b4e4c 200000 24 24 read_link h link_bytes IsLink read_link-bytes
          (λ r. refl) (omega arith) (omega arith) b.links.items a fields few room)

  -- If the builder's NOTE section was written to an empty buffer, its decoder gives back the
  -- records, where they number at most 50000, each field fits its type, and the arena has room.
  pub decode_note-append :
      out.data_bytes ≡ []
      → (append_note grants b out).0 ≡ true
      → All IsNote b.notes.items
      → length b.notes.items ≤ 50000
      → (new_items h (length b.notes.items) 20 8 a).0 ≡ ok tt
      → decode_note h (append_note grants b out).1.data_bytes a
        ≡ (ok b.notes.items, (new_items h (length b.notes.items) 20 8 a).1)
  unfolding decode_note
  decode_note-append empty written fields few room =
      rw ((append_note-Writes grants b).puts out written, empty)
        (decode_table-bytes 0x3145544e 50000 20 20 read_note h note_bytes IsNote read_note-bytes
          (λ r. refl) (omega arith) (omega arith) b.notes.items a fields few room)

module _ (grants : ℕ → Bool) (b : Builder) (out : Buf) (a : Arena) where
  -- The sizes of the builder's tables.
  abbrev pub counts : SummRec
  counts = record {
    route_count = length b.routes.items;
    window_count = length b.windows.items;
    marker_count = length b.markers.items;
    wave_count = length b.waves.items;
    name_count = length b.names.items;
    package_crc = 0;
    payload_bytes = 0;
    flags = 0;
  }

  -- If the builder's SUMM section was written to an empty buffer, its decoder gives the sizes of the
  -- builder's tables, with no checksum, no payload size and no flags, where each size fits 32 bits.
  pub decode_summ-append :
      out.data_bytes ≡ []
      → (append_summ grants b out).0 ≡ true
      → IsSumm counts
      → decode_summ (append_summ grants b out).1.data_bytes a ≡ (ok counts, a)
  unfolding decode_summ read_le32 read_le64
  decode_summ-append empty written v =
      rw ((append_summ-Writes grants b).puts out written, empty)
        (ground (
          arith,
          join32-bytes (length b.routes.items) v.route_count_word,
          join32-bytes (length b.windows.items) v.window_count_word,
          join32-bytes (length b.markers.items) v.marker_count_word,
          join32-bytes (length b.waves.items) v.wave_count_word,
          join32-bytes (length b.names.items) v.name_count_word,
          join32-bytes 0x314d4d55 (omega arith),
          join32-bytes 0 (omega arith),
          join64-bytes 0 (omega arith),
        ))
