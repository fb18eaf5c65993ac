-- ===== src/Reader/Examples.antt =====
-- A package with one section of eight bytes.
use ray_vault.Base.{ℕ, ◌≡◌, refl, some, List, [], ◌∷◌, ◌++◌, All, IsU8, arith}
use ray_vault.Format.{FileHeader, DirEntry, image, entry_bytes}
use ray_vault.Reader.{Reader, find_section, find_entry, load_directory}
use ray_vault.Reader.Directory.{Safe, Sliced, load_directory-Safe}

abbrev section_entry : DirEntry
section_entry = record { tag = 0x54554f52; flags = 0; offset = 88; len = 8; crc = 0 }

abbrev plain : FileHeader
plain = record {
  magic0 = 0x52;
  magic1 = 0x56;
  magic2 = 0x50;
  magic3 = 0x4b;
  ver_major = 2;
  ver_minor = 3;
  flags = 0;
  header_crc = 0;
  created_unix = 0;
  section_count = 1;
  dir_offset = 64;
  total_size = 96;
  feature_bits = 0;
  reserved0 = 0;
  reserved1 = 0;
}

abbrev bytes : List ℕ
bytes =
    image 0 plain ++ entry_bytes section_entry ++ (0x31 ∷ 0x54 ∷ 0x4f ∷ 0x52 ∷ 0 ∷ 0 ∷ 0 ∷ 0 ∷ [])

bytes-IsU8 : All IsU8 bytes
bytes-IsU8 = ground arith

load_directory-Safe_example : Safe (λ r. All (Sliced r.backing) r.dir) (load_directory bytes)
load_directory-Safe_example = load_directory-Safe bytes (omega arith) bytes-IsU8

abbrev reader : Reader
reader = record { backing = bytes; header = plain; dir = section_entry ∷ section_entry ∷ [] }

find_second : find_section reader 0x54554f52 1 ≡ some section_entry
unfolding find_section find_entry
find_second = refl
