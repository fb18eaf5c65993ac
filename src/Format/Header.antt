-- ===== src/Format/Header.antt =====
-- Parsing of headers and directory entries: what is accepted, and the way back from the bytes.
use ray_vault.Base.{
  ℕ, ◌+◌, ◌*◌, ◌^◌, ◌≤◌, ◌<◌, ◌≡◌, ◌≢◌, ◌⊎◌, refl, none, List, [], ◌∷◌, ◌++◌, length, arith, IsU16,
  IsU32, IsU64, IsU8, some, Option-cases, inl, inr, All, Bool-cases, ltb, ltb→le, u64, not, ◌&&◌,
  ◌==◌, Option, ◌>>=◌, drop, zero, suc,
}
use ray_vault.Endian.{read_le16, read_le32, read_le64}
use ray_vault.Endian.Inside.{read_le16_inside, read_le32_inside, read_le64_inside}
use ray_vault.Endian.RoundTrip.{join16-bytes, join32-bytes, join64-bytes, join32-lt}
use ray_vault.Format.{
  FileHeader, DirEntry, Outcome, parsed, refused, bad_crc, outside, image, header_crc_compute,
  is_magic, read_fields, check_fields, parse_magic, parse_file_header, parse_dir_entry, read_entry,
  entry_bytes,
}

-- The magic number `RVPK`, and fields within their types.
pub record IsHeader (h : FileHeader) : Type 0 where
  pub is_r : h.magic0 ≡ 0x52
  pub is_v : h.magic1 ≡ 0x56
  pub is_p : h.magic2 ≡ 0x50
  pub is_k : h.magic3 ≡ 0x4b
  pub ver_major_word : IsU16 h.ver_major
  pub ver_minor_word : IsU16 h.ver_minor
  pub flags_word : IsU32 h.flags
  pub header_crc_word : IsU32 h.header_crc
  pub created_unix_word : IsU64 h.created_unix
  pub section_count_word : IsU32 h.section_count
  pub dir_offset_word : IsU32 h.dir_offset
  pub total_size_word : IsU64 h.total_size
  pub feature_bits_word : IsU32 h.feature_bits
  pub reserved0_word : IsU32 h.reserved0
  pub reserved1_word : IsU64 h.reserved1

read_fields-image :
    (h : FileHeader) (rest : List ℕ)
    → IsHeader h
    → read_fields h.magic0 h.magic1 h.magic2 h.magic3 (image h.header_crc h ++ rest) ≡ some h
unfolding read_fields read_le16 read_le32 read_le64
read_fields-image h rest v = ground (
  arith,
  join16-bytes h.ver_major v.ver_major_word,
  join16-bytes h.ver_minor v.ver_minor_word,
  join32-bytes h.flags v.flags_word,
  join32-bytes h.header_crc v.header_crc_word,
  join64-bytes h.created_unix v.created_unix_word,
  join32-bytes h.section_count v.section_count_word,
  join32-bytes h.dir_offset v.dir_offset_word,
  join64-bytes h.total_size v.total_size_word,
  join32-bytes h.feature_bits v.feature_bits_word,
  join32-bytes h.reserved0 v.reserved0_word,
  join64-bytes h.reserved1 v.reserved1_word,
)

-- What the accepted headers have in common: a directory of at most 64 entries, that lies behind the
-- header and inside the data, and a checksum that is absent (0) or right.
pub record Accepted (size : ℕ) (h : FileHeader) : Type 0 where
  pub few : h.section_count ≤ 64
  pub behind : 64 ≤ h.dir_offset
  pub inside : h.dir_offset + h.section_count * 24 ≤ size
  pub sealed : (h.header_crc ≡ 0) ⊎ (h.header_crc ≡ header_crc_compute h)

-- The image of a header, with anything behind it, is parsed into the header, where its fields fit
-- their types, its magic number is RVPK, its directory has at most 64 entries and lies behind the
-- header and inside the data, and its checksum is 0 or right.
pub parse_file_header-image :
    (h : FileHeader) (rest : List ℕ)
    → IsHeader h
    → Accepted (64 + length rest) h
    → parse_file_header (image h.header_crc h ++ rest) ≡ parsed h
unfolding parse_file_header parse_magic check_fields is_magic
parse_file_header-image h rest v ok =
    ground (arith, read_fields-image h rest v, v.is_r, v.is_v, v.is_p, v.is_k, ok.sealed)

-- A directory entry with 64-bit offset, and 32 bits in the other fields.
pub record IsEntry (e : DirEntry) : Type 0 where
  pub tag_word : IsU32 e.tag
  pub flags_word : IsU32 e.flags
  pub offset_word : IsU64 e.offset
  pub len_word : IsU32 e.len
  pub crc_word : IsU32 e.crc

-- The bytes that `rv_builder_serialize` stores for an entry (with flags 0 there) are parsed into it,
-- whatever follows, where its fields fit their types.
pub parse_dir_entry-bytes :
    (e : DirEntry) (rest : List ℕ)
    → IsEntry e
    → parse_dir_entry (entry_bytes e ++ rest) 24 ≡ parsed e
unfolding parse_dir_entry read_le32 read_le64
parse_dir_entry-bytes e rest v = ground (
  arith,
  join32-bytes e.tag v.tag_word,
  join32-bytes e.flags v.flags_word,
  join64-bytes e.offset v.offset_word,
  join32-bytes e.len v.len_word,
  join32-bytes e.crc v.crc_word,
)

All-drop : (k : ℕ) (p : List ℕ) → All IsU8 p → All IsU8 (drop k p)
All-drop zero p h = h
All-drop (suc k) [] h = h
All-drop (suc k) (x ∷ p) h = All-drop k p h.1

le32_word : (p : List ℕ) (v : ℕ) → All IsU8 p → read_le32 p ≡ some v → IsU32 v
unfolding read_le32
le32_word [] v h e = cc
le32_word (a ∷ []) v h e = cc
le32_word (a ∷ b ∷ []) v h e = cc
le32_word (a ∷ b ∷ c ∷ []) v h e = cc
le32_word (a ∷ b ∷ c ∷ d ∷ p) v (ha, (hb, (hc, (hd, r)))) e =
    ground (arith, join32-lt a b c d ha hb hc hd)

bound :
    {A B : Type 0} (m : Option A) (f : A → Option B) (b : B)
    → (m >>= f) ≡ some b
    → (x : A) × (m ≡ some x) × (f x ≡ some b)
bound none f b e = cc
bound (some x) f b e = (x, refl, e)

read_fields_word :
    (a b c d : ℕ) (p : List ℕ) (h : FileHeader)
    → All IsU8 p
    → read_fields a b c d p ≡ some h
    → IsU32 h.dir_offset
unfolding read_fields
read_fields_word a b c d p h bytes e =
    let (v1, e1, r1) = bound (read_le16 (drop 4 p)) _ h e in
    let (v2, e2, r2) = bound (read_le16 (drop 6 p)) _ h r1 in
    let (v3, e3, r3) = bound (read_le32 (drop 8 p)) _ h r2 in
    let (v4, e4, r4) = bound (read_le32 (drop 12 p)) _ h r3 in
    let (v5, e5, r5) = bound (read_le64 (drop 16 p)) _ h r4 in
    let (v6, e6, r6) = bound (read_le32 (drop 24 p)) _ h r5 in
    let (v7, e7, r7) = bound (read_le32 (drop 28 p)) _ h r6 in
    let (v8, e8, r8) = bound (read_le64 (drop 32 p)) _ h r7 in
    let (v9, e9, r9) = bound (read_le32 (drop 40 p)) _ h r8 in
    let (v10, e10, r10) = bound (read_le32 (drop 44 p)) _ h r9 in
    let (v11, e11, r11) = bound (read_le64 (drop 48 p)) _ h r10 in
    ground (arith, r11, le32_word (drop 28 p) v7 (All-drop 28 p bytes) e7)

read_fields_inside : (a b c d : ℕ) (p : List ℕ) → 64 ≤ length p → read_fields a b c d p ≢ none
unfolding read_fields
read_fields_inside a b c d p h = ground (
  arith,
  read_le16_inside 4 p,
  read_le16_inside 6 p,
  read_le32_inside 8 p,
  read_le32_inside 12 p,
  read_le64_inside 16 p,
  read_le32_inside 24 p,
  read_le32_inside 28 p,
  read_le64_inside 32 p,
  read_le32_inside 40 p,
  read_le32_inside 44 p,
  read_le64_inside 48 p,
)

-- What an outcome of `rv_parse_file_header` says of the data.
abbrev pub Checked : ℕ → Outcome FileHeader → Type 0
Checked size (parsed h) = Accepted size h
Checked size refused = Unit
Checked size bad_crc = Unit
Checked size outside = ⊥

check_fields_lem :
    (size : ℕ) (h : FileHeader)
    → size < 2 ^ 64
    → IsU32 h.dir_offset
    → Checked size (check_fields size h)
unfolding check_fields
check_fields_lem size h s w = elim (Bool-cases (ltb 64 h.section_count)) [
  | inl many ↦ rw many tt
  | inr few ↦ elim (Bool-cases (ltb h.dir_offset 64)) [
    | inl early ↦ rw (few, early) tt
    | inr behind ↦ elim (Bool-cases (ltb size (u64 (h.dir_offset + u64 (h.section_count * 24))))) [
      | inl past ↦ rw (few, behind, past) tt
      | inr inside ↦
          elim (Bool-cases
            (not (h.header_crc == 0) && not (h.header_crc == header_crc_compute h))) [
              | inl wrong ↦ rw (few, behind, inside, wrong) tt
              | inr right ↦
                  rw (few, behind, inside, right)
                    (record {
                      few = ltb→le 64 h.section_count few;
                      behind = ltb→le h.dir_offset 64 behind;
                      inside = ground arith;
                      sealed = ground arith;
                    })
            ]
    ]
  ]
]

parse_magic_lem :
    (p data_bytes : List ℕ)
    → 4 ≤ length p
    → 64 ≤ length data_bytes
    → length data_bytes < 2 ^ 64
    → All IsU8 data_bytes
    → Checked (length data_bytes) (parse_magic p data_bytes)
unfolding parse_magic
parse_magic_lem (a ∷ b ∷ c ∷ d ∷ rest) data_bytes l m s bytes =
    elim (Option-cases (read_fields a b c d data_bytes)) [
      | inl past ↦ absurd (read_fields_inside a b c d data_bytes m past)
      | inr (h, e) ↦ elim (Bool-cases (is_magic a b c d)) [
        | inl magic ↦
            rw (magic, e)
              (check_fields_lem (length data_bytes) h s
                (read_fields_word a b c d data_bytes h bytes e))
        | inr other ↦ rw other tt
      ]
    ]
parse_magic_lem _ data_bytes l m s bytes = absurd (omega arith)

-- For every data of less than 2^64 bytes, `rv_parse_file_header` reads nothing past the data, and a
-- header that it accepts has a directory of at most 64 entries, behind the header and inside the
-- data, and a checksum that is 0 or right.
pub parse_file_header_lem :
    (data_bytes : List ℕ)
    → length data_bytes < 2 ^ 64
    → All IsU8 data_bytes
    → Checked (length data_bytes) (parse_file_header data_bytes)
unfolding parse_file_header
parse_file_header_lem data_bytes s bytes = elim (Bool-cases (ltb (length data_bytes) 64)) [
  | inl short ↦ rw short tt
  | inr enough ↦
      let m : 64 ≤ length data_bytes = ltb→le (length data_bytes) 64 enough in
      rw enough (parse_magic_lem data_bytes data_bytes (omega arith) m s bytes)
]

-- A directory entry is read inside the bytes that are said to be there.
pub parse_dir_entry-ne-outside :
    (p : List ℕ) (size : ℕ) → size ≤ length p → parse_dir_entry p size ≢ outside
unfolding parse_dir_entry read_entry
parse_dir_entry-ne-outside p size fits e = ground (
  arith,
  fits,
  read_le32_inside 0 p,
  read_le32_inside 4 p,
  read_le64_inside 8 p,
  read_le32_inside 16 p,
  read_le32_inside 20 p,
)
