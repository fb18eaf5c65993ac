-- ===== src/Format/Examples.antt =====
-- A header with one directory entry behind it, as the builder stores them.
use ray_vault.Base.{ℕ, List, ◌++◌, arith, All, IsU8}
use ray_vault.Format.{FileHeader, DirEntry, image, entry_bytes, parse_file_header}
use ray_vault.Format.Header.{Checked, parse_file_header_lem}

abbrev entry : DirEntry
entry = record { tag = 0x54554f52; flags = 0; offset = 88; len = 8; crc = 0x01020304 }

abbrev unsealed : FileHeader
unsealed = record {
  magic0 = 0x52;
  magic1 = 0x56;
  magic2 = 0x50;
  magic3 = 0x4b;
  ver_major = 2;
  ver_minor = 3;
  flags = 0;
  header_crc = 0;
  created_unix = 1700000000;
  section_count = 1;
  dir_offset = 64;
  total_size = 96;
  feature_bits = 0;
  reserved0 = 0;
  reserved1 = 0;
}

abbrev stored : List ℕ
stored = image 0 unsealed ++ entry_bytes entry

stored-IsU8 : All IsU8 stored
stored-IsU8 = ground arith

parse_file_header_lem_example : Checked 88 (parse_file_header stored)
parse_file_header_lem_example = parse_file_header_lem stored (omega arith) stored-IsU8
