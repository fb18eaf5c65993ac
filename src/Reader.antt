-- ===== src/Reader.antt =====
-- src/internal/rv_reader.c: the directory of a package in memory, and the slices of its sections.
-- `backing` holds the bytes of the package. The diagnostics' texts, the path and the flags are left
-- out; an outcome says which check failed.
pub mod Directory
pub mod Lookup
mod Examples
use ray_vault.Base.{
  ℕ, zero, suc, ◌+◌, ◌^◌, Bool, true, false, ◌==◌, ltb, if◌then◌else◌, Option, none, some, List, [],
  ◌∷◌, length, take, drop, u64,
}
use ray_vault.Buf.{slice_sub}
use ray_vault.Crc.{crc32}
use ray_vault.Format.{
  FileHeader, DirEntry, Outcome, parsed, refused, bad_crc, outside, parse_file_header,
  parse_dir_entry,
}

pub record Reader : Type 0 where
  pub backing : List ℕ
  pub header : FileHeader
  pub dir : List DirEntry

-- `past` is a read past the package; the other failures are the status -1.
pub data Loading (A : Type 0) : Type 0 where
  loaded : A → Loading A
  invalid_header : Loading A
  unsupported : Loading A
  too_old : Loading A
  truncated : Loading A
  bad_entry : Loading A
  out_of_range : Loading A
  past : Loading A

-- The test of `rv_reader_load_directory` on an entry, in 64 bits.
unfoldable pub in_range : List ℕ → DirEntry → Bool
in_range data_bytes e = if ltb (length data_bytes) (u64 (e.offset + e.len)) then false else true

abbrev pub in_front : DirEntry → Loading (List DirEntry) → Loading (List DirEntry)
in_front e (loaded es) = loaded (e ∷ es)
in_front e failure = failure

-- An entry and what the loop makes of the entries behind it.
unfoldable pub after_entry :
    List ℕ → Outcome DirEntry → Loading (List DirEntry) → Loading (List DirEntry)
after_entry data_bytes (parsed e) rest =
    if in_range data_bytes e then in_front e rest else out_of_range
after_entry data_bytes refused rest = bad_entry
after_entry data_bytes bad_crc rest = bad_entry
after_entry data_bytes outside rest = past

-- The loop over `n` entries from `off` on.
unfoldable pub load_entries : ℕ → ℕ → List ℕ → Loading (List DirEntry)
load_entries zero off data_bytes = loaded []
load_entries (suc n) off data_bytes =
    let rest = load_entries n (u64 (off + 24)) data_bytes in
    if ltb (length data_bytes) (u64 (off + 24))
    then truncated
    else after_entry data_bytes (parse_dir_entry (drop off data_bytes) 24) rest

abbrev pub reader_of : List ℕ → FileHeader → Loading (List DirEntry) → Loading Reader
reader_of data_bytes h (loaded es) = loaded (record { backing = data_bytes; header = h; dir = es })
reader_of data_bytes h invalid_header = invalid_header
reader_of data_bytes h unsupported = unsupported
reader_of data_bytes h too_old = too_old
reader_of data_bytes h truncated = truncated
reader_of data_bytes h bad_entry = bad_entry
reader_of data_bytes h out_of_range = out_of_range
reader_of data_bytes h past = past

-- `rv_reader_load_directory` behind the header.
unfoldable pub load_versioned : List ℕ → FileHeader → Loading Reader
load_versioned data_bytes h =
    if ltb 2 h.ver_major
    then unsupported
    else if ltb h.ver_major 1
    then too_old
    else reader_of data_bytes h (load_entries h.section_count h.dir_offset data_bytes)

unfoldable pub after_header : List ℕ → Outcome FileHeader → Loading Reader
after_header data_bytes (parsed h) = load_versioned data_bytes h
after_header data_bytes refused = invalid_header
after_header data_bytes bad_crc = invalid_header
after_header data_bytes outside = past

unfoldable pub load_directory : List ℕ → Loading Reader
load_directory data_bytes = after_header data_bytes (parse_file_header data_bytes)

-- The loop of `rv_reader_find_section`.
unfoldable pub find_entry : ℕ → ℕ → ℕ → List DirEntry → Option DirEntry
find_entry tag nth seen [] = none
find_entry tag nth seen (e ∷ es) =
    let rest = find_entry tag nth (if e.tag == tag then seen + 1 else seen) es in
    if e.tag == tag then (if seen == nth then some e else rest) else rest

unfoldable pub find_section : Reader → ℕ → ℕ → Option DirEntry
unfolding find_entry
find_section r tag nth = find_entry tag nth 0 r.dir

unfoldable pub section_slice : Reader → DirEntry → Option (List ℕ)
section_slice r e = slice_sub r.backing e.offset e.len

-- `true` is 0.
unfoldable pub verify_section_crc : Reader → DirEntry → Bool
verify_section_crc r e =
    if e.crc == 0
    then true
    else elim (section_slice r e) [ none ↦ false | some s ↦ crc32 s == e.crc ]
