-- ===== src/Validate/Examples.antt =====
-- A section with a checksum, and tables that refer to each other.
use ray_vault.Base.{ℕ, ltb, leb, ◌≡◌, Bool, true, some, [], ◌∷◌, u32, ◌++◌}
use ray_vault.Buf.Writes.{concat_map}
use ray_vault.Crc.{crc32}
use ray_vault.Format.{FileHeader, DirEntry}
use ray_vault.Endian.{write_le32}
use ray_vault.Reader.{Reader}
use ray_vault.Parser.{Parsed, no_names, no_summ}
use ray_vault.Records.{InstRec, CalibRec}
use ray_vault.Section.Blobs.{NameEntry}
use ray_vault.Samples.{tables, window, wave, marker, link}
use ray_vault.Xref.{Index}
use ray_vault.Xref.Resolved.{Resolved}
use ray_vault.Validate.{section_digest}
use ray_vault.Validate.Sections.{section_digest-crc32}

abbrev header : FileHeader
header = record {
  magic0 = 0x52;
  magic1 = 0x56;
  magic2 = 0x50;
  magic3 = 0x4b;
  ver_major = 2;
  ver_minor = 3;
  flags = 0;
  header_crc = 0;
  created_unix = 0;
  section_count = 1;
  dir_offset = 64;
  total_size = 4;
  feature_bits = 0;
  reserved0 = 0;
  reserved1 = 0;
}

abbrev entry : DirEntry
entry = record { tag = 0x54554f52; flags = 0; offset = 0; len = 4; crc = 3057449933 }

abbrev reader : Reader
reader = record { backing = 1 ∷ 2 ∷ 3 ∷ 4 ∷ []; header = header; dir = entry ∷ [] }

abbrev index : Index
index = record {
  windows = window ∷ [];
  waves = wave ∷ [];
  route_by_id = record { cells = 0 ∷ 0 ∷ 0 ∷ 0 ∷ 0 ∷ 1 ∷ []; block = some 1000 };
  window_by_id = record { cells = 0 ∷ 0 ∷ 0 ∷ 1 ∷ []; block = some 1000 };
  wave_by_id = record { cells = 0 ∷ 0 ∷ 0 ∷ 0 ∷ 0 ∷ 0 ∷ 0 ∷ 1 ∷ []; block = some 1000 };
  markers = marker ∷ [];
  ready = true;
}

abbrev instrument : InstRec
instrument = record {
  inst_id = 2;
  model_name_id = 1;
  serial_name_id = 2;
  wavelength_nm = 1550;
  pulse_default_ns = 100;
  dynamic_range_db = 0;
  flags = 0;
}

abbrev calibration : CalibRec
calibration = record {
  calib_id = 9;
  inst_id = 2;
  calibrated_unix = 0;
  refractive_index = 0;
  backscatter_coef = 0;
  splice_loss_db = 0;
  flags = 0;
}

abbrev name : ℕ → NameEntry
name id = record { id = id; hash = 0; str = id ∷ [] }

abbrev linked : Parsed
linked = record tables {
  snam = record no_names { entries = name 1 ∷ name 2 ∷ name 6 ∷ [] };
  inst = instrument ∷ [];
  clbr = calibration ∷ [];
  link = record link { from_id = 5; to_id = 3 } ∷ [];
  summ = record no_summ {
    route_count = 1;
    window_count = 1;
    marker_count = 1;
    wave_count = 1;
    name_count = 3;
  };
  has_summ = true;
}

-- The comparisons of floats that are not negative, on their bits.
abbrev below : ℕ → ℕ → Bool
below a b = ltb a b

abbrev at_most : ℕ → ℕ → Bool
at_most a b = leb a b

section_digest-crc32_example :
    section_digest reader
    ≡ crc32 (
        concat_map
          (λ (e : DirEntry).
            write_le32 e.tag ++ write_le32 e.len ++ write_le32 (u32 e.offset) ++ write_le32 e.crc)
          reader.dir)
section_digest-crc32_example = section_digest-crc32 reader
