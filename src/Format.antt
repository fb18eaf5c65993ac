-- ===== src/Format.antt =====
-- src/internal/rv_format.c: the file header and the directory entries of a package.
-- A header that is refused leaves the caller's record in an unspecified state, which is left out.
pub mod Header
mod Examples
use ray_vault.Base.{
  ℕ, ◌+◌, ◌*◌, ◌^◌, Bool, true, false, not, ◌&&◌, ◌||◌, ◌==◌, ltb, if◌then◌else◌, Option, none,
  some, ◌>>=◌, List, [], ◌∷◌, ◌++◌, length, get_elem?, drop, u64,
}
use ray_vault.Endian.{read_le16, read_le32, read_le64, write_le16, write_le32, write_le64}
use ray_vault.Crc.{crc32}

pub record FileHeader : Type 0 where
  pub magic0 : ℕ
  pub magic1 : ℕ
  pub magic2 : ℕ
  pub magic3 : ℕ
  pub ver_major : ℕ
  pub ver_minor : ℕ
  pub flags : ℕ
  pub header_crc : ℕ
  pub created_unix : ℕ
  pub section_count : ℕ
  pub dir_offset : ℕ
  pub total_size : ℕ
  pub feature_bits : ℕ
  pub reserved0 : ℕ
  pub reserved1 : ℕ

pub record DirEntry : Type 0 where
  pub tag : ℕ
  pub flags : ℕ
  pub offset : ℕ
  pub len : ℕ
  pub crc : ℕ

-- `refused` is the status -1, `bad_crc` is -2, `outside` a read past the data.
pub data Outcome (A : Type 0) : Type 0 where
  parsed : A → Outcome A
  refused : Outcome A
  bad_crc : Outcome A
  outside : Outcome A

-- The 64 bytes of a header with the checksum `crc`.
abbrev pub image : ℕ → FileHeader → List ℕ
image crc h =
    (h.magic0 ∷ h.magic1 ∷ h.magic2 ∷ h.magic3 ∷ [])
    ++ write_le16 h.ver_major
    ++ write_le16 h.ver_minor
    ++ write_le32 h.flags
    ++ write_le32 crc
    ++ write_le64 h.created_unix
    ++ write_le32 h.section_count
    ++ write_le32 h.dir_offset
    ++ write_le64 h.total_size
    ++ write_le32 h.feature_bits
    ++ write_le32 h.reserved0
    ++ write_le64 h.reserved1
    ++ write_le64 0

-- The 24 bytes of a directory entry, as `rv_builder_serialize` stores them.
abbrev pub entry_bytes : DirEntry → List ℕ
entry_bytes e =
    write_le32 e.tag
    ++ write_le32 e.flags
    ++ write_le64 e.offset
    ++ write_le32 e.len
    ++ write_le32 e.crc

-- `rv_header_crc_compute`
unfoldable pub header_crc_compute : FileHeader → ℕ
header_crc_compute h = crc32 (image 0 h)

pub is_magic : ℕ → ℕ → ℕ → ℕ → Bool
is_magic a b c d = (a == 0x52) && (b == 0x56) && (c == 0x50) && (d == 0x4b)

-- The fields behind the magic number.
pub read_fields : ℕ → ℕ → ℕ → ℕ → List ℕ → Option FileHeader
read_fields a b c d data_bytes = do
  ver_major ← read_le16 (drop 4 data_bytes)
  ver_minor ← read_le16 (drop 6 data_bytes)
  flags ← read_le32 (drop 8 data_bytes)
  header_crc ← read_le32 (drop 12 data_bytes)
  created_unix ← read_le64 (drop 16 data_bytes)
  section_count ← read_le32 (drop 24 data_bytes)
  dir_offset ← read_le32 (drop 28 data_bytes)
  total_size ← read_le64 (drop 32 data_bytes)
  feature_bits ← read_le32 (drop 40 data_bytes)
  reserved0 ← read_le32 (drop 44 data_bytes)
  reserved1 ← read_le64 (drop 48 data_bytes)
  some (record {
    magic0 = a;
    magic1 = b;
    magic2 = c;
    magic3 = d;
    ver_major = ver_major;
    ver_minor = ver_minor;
    flags = flags;
    header_crc = header_crc;
    created_unix = created_unix;
    section_count = section_count;
    dir_offset = dir_offset;
    total_size = total_size;
    feature_bits = feature_bits;
    reserved0 = reserved0;
    reserved1 = reserved1;
  })

-- The tests on the fields, with the size of the data.
pub check_fields : ℕ → FileHeader → Outcome FileHeader
check_fields size h =
    if ltb 64 h.section_count
    then refused
    else if ltb h.dir_offset 64
    then refused
    else if ltb size (u64 (h.dir_offset + u64 (h.section_count * 24)))
    then refused
    else if not (h.header_crc == 0) && not (h.header_crc == header_crc_compute h)
    then bad_crc
    else parsed h

-- The magic number, and then the fields of the whole data.
pub parse_magic : List ℕ → List ℕ → Outcome FileHeader
parse_magic (a ∷ b ∷ c ∷ d ∷ rest) data_bytes =
    if not (is_magic a b c d) then refused else elim (read_fields a b c d data_bytes) [
      | none ↦ outside
      | some h ↦ check_fields (length data_bytes) h
    ]
parse_magic _ data_bytes = outside

pub parse_file_header : List ℕ → Outcome FileHeader
parse_file_header data_bytes =
    if ltb (length data_bytes) 64 then refused else parse_magic data_bytes data_bytes

read_entry : List ℕ → Option DirEntry
read_entry data_bytes = do
  tag ← read_le32 data_bytes
  flags ← read_le32 (drop 4 data_bytes)
  offset ← read_le64 (drop 8 data_bytes)
  len ← read_le32 (drop 16 data_bytes)
  crc ← read_le32 (drop 20 data_bytes)
  some (record { tag = tag; flags = flags; offset = offset; len = len; crc = crc })

-- `size` is what the caller says of the bytes at `data_bytes`.
pub parse_dir_entry : List ℕ → ℕ → Outcome DirEntry
unfolding read_entry
parse_dir_entry data_bytes size =
    if ltb size 24
    then refused
    else elim (read_entry data_bytes) [ none ↦ outside | some e ↦ parsed e ]
