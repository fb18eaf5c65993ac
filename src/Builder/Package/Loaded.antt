-- ===== src/Builder/Package/Loaded.antt =====
-- An assembled package, under `rv_reader_load_directory`.
use ray_vault.Base.{
  ℕ, suc, ◌+◌, ◌^◌, ◌≤◌, ◌<◌, ◌≡◌, inr, refl, ap, sym, subst, Bool, true, false, Option, some, List,
  [], ◌∷◌, ◌++◌, append_assoc, length, length-append, u64, arith, ltb, IsU16, IsU32, IsU64,
}
use ray_vault.Crc.Stream.{crc32-lt}
use ray_vault.Format.{
  FileHeader, DirEntry, image, entry_bytes, parsed, parse_file_header, header_crc_compute,
}
use ray_vault.Format.Header.{IsHeader, Accepted, parse_file_header-image}
use ray_vault.Buf.{Buf}
use ray_vault.Buf.Writes.{concat_map}
use ray_vault.Reader.{loaded, after_header, load_entries, load_directory, load_versioned}
use ray_vault.Builder.{Builder}
use ray_vault.Builder.Package.{
  Sec, entries_from, end_of, payload_start, header_of, sections, serialize, Stamps, stamps_of,
  assemble,
}
use ray_vault.Builder.Package.Layout.{
  package_bytes, Laid, serialize-assemble, assemble-Laid, entries_length,
}
use ray_vault.Builder.Package.Tags.{Tagged, sections-Tagged}
use ray_vault.Builder.Package.Entries.{load_entries-entries, entries_Fit}

end_of_word : (ss : List Sec) (off : ℕ) → IsU64 off → IsU64 (end_of off ss)
unfolding end_of
end_of_word [] off h = h
end_of_word (s ∷ ss) off h = end_of_word ss (u64 (off + length s.body)) (omega arith)

total_word :
    (st : Stamps) (secs : List Sec) → length secs ≤ 10 → IsU64 (end_of (payload_start secs) secs)
unfolding payload_start
total_word st secs few = end_of_word secs (payload_start secs) (omega (arith, few))

-- The stamps fit their types, and the reader knows the version.
pub record IsReadable (st : Stamps) : Type 0 where
  pub old : 1 ≤ st.ver_major
  pub new : st.ver_major ≤ 2
  pub minor_word : IsU16 st.ver_minor
  pub created_word : IsU64 st.created_unix
  pub features_word : IsU32 st.feature_bits

header_of-IsHeader :
    (st : Stamps) (secs : List Sec)
    → IsReadable st
    → length secs ≤ 10
    → IsHeader (header_of st secs)
unfolding header_of header_crc_compute
header_of-IsHeader st secs v few = record {
  is_r = refl;
  is_v = refl;
  is_p = refl;
  is_k = refl;
  ver_major_word = omega (arith, v.new);
  ver_minor_word = v.minor_word;
  flags_word = omega arith;
  header_crc_word = crc32-lt _;
  created_unix_word = v.created_word;
  section_count_word = omega (arith, few);
  dir_offset_word = omega arith;
  total_size_word = total_word st secs few;
  feature_bits_word = v.features_word;
  reserved0_word = omega arith;
  reserved1_word = omega arith;
}

loaded_reader :
    (bytes : List ℕ) (h : FileHeader) (es : List DirEntry)
    → parse_file_header bytes ≡ parsed h
    → ltb 2 h.ver_major ≡ false
    → ltb h.ver_major 1 ≡ false
    → load_entries h.section_count h.dir_offset bytes ≡ loaded es
    → load_directory bytes ≡ loaded (record { backing = bytes; header = h; dir = es })
unfolding load_directory after_header load_versioned
loaded_reader bytes h es parse new old rest = rw (parse, new, old, rest) refl

entries_count : (ss : List Sec) (off : ℕ) → length (entries_from off ss) ≡ length ss
unfolding entries_from
entries_count [] off = refl
entries_count (s ∷ ss) off = ap suc (entries_count ss (u64 (off + length s.body)))

-- The package as the header's image, the directory and the payloads.
package_parts :
    (st : Stamps) (secs : List Sec)
    → package_bytes st secs
      ≡ image (header_of st secs).header_crc (header_of st secs)
        ++ (concat_map entry_bytes (entries_from (payload_start secs) secs)
            ++ concat_map (λ (s : Sec). s.body) secs)
package_parts st secs =
    append_assoc (image (header_of st secs).header_crc (header_of st secs))
      (concat_map entry_bytes (entries_from (payload_start secs) secs))
      (concat_map (λ (s : Sec). s.body) secs)

package-loaded :
    (st : Stamps) (secs : List Sec)
    → IsReadable st
    → Tagged secs
    → length (package_bytes st secs) < 2 ^ 32
    → load_directory (package_bytes st secs)
      ≡ loaded (record {
        backing = package_bytes st secs;
        header = header_of st secs;
        dir = entries_from (payload_start secs) secs;
      })
unfolding header_of payload_start header_crc_compute
package-loaded st secs v (tags, few) small =
    let h = header_of st secs in
    let dir = entries_from (payload_start secs) secs in
    let head = image h.header_crc h in
    let dir_bytes = concat_map entry_bytes dir in
    let payloads = concat_map (λ (s : Sec). s.body) secs in
    let dir_size = entries_length secs (payload_start secs) in
    let inner = length-append dir_bytes payloads in
    let parts = package_parts st secs in
    let size = ap length parts in
    let accepted : Accepted (64 + length (dir_bytes ++ payloads)) h = record {
      few = omega (arith, few);
      behind = omega arith;
      inside = omega (arith, inner, dir_size);
      sealed = inr refl;
    } in
    let parse : parse_file_header (package_bytes st secs) ≡ parsed h =
      subst (λ bytes. parse_file_header bytes ≡ parsed h) (sym parts)
        (parse_file_header-image h (dir_bytes ++ payloads) (header_of-IsHeader st secs v few)
          accepted) in
    let entries : load_entries (length secs) 64 (package_bytes st secs) ≡ loaded dir =
      subst (λ bytes. load_entries (length secs) 64 bytes ≡ loaded dir) (sym parts)
        (subst (λ n. load_entries n 64 (head ++ (dir_bytes ++ payloads)) ≡ loaded dir)
          (entries_count secs (payload_start secs))
          (load_entries-entries dir head payloads 64 (length (package_bytes st secs)) refl
            (sym size)
            (entries_Fit secs (payload_start secs) (length (package_bytes st secs)) tags
              (omega (arith, size, inner, dir_size)) small)
            (omega (arith, small)))) in
    loaded_reader (package_bytes st secs) h dir parse (ground (arith, v.new))
      (ground (arith, v.old)) entries

-- What the reader makes of a package with the header, whose sections are `secs`.
abbrev pub LoadedAs : List ℕ → Stamps → List Sec → Type 0
LoadedAs bytes st secs =
    (load_directory bytes
      ≡ loaded (record {
        backing = bytes;
        header = header_of st secs;
        dir = entries_from (payload_start secs) secs;
      }))
    × Laid bytes (entries_from (payload_start secs) secs) secs

module _ (grants : ℕ → Bool) where
  pub load_directory-assemble :
      (st : Stamps) (all : Option (List Sec)) (out : Buf)
      → assemble grants st all ≡ some out
      → length out.data_bytes < 2 ^ 32
      → IsReadable st
      → ((secs : List Sec) → all ≡ some secs → Tagged secs)
      → (secs : List Sec) × (all ≡ some secs) × LoadedAs out.data_bytes st secs
  load_directory-assemble st all out e small v tagged =
      let (secs, given, bytes, laid) = assemble-Laid grants st all out e small in
      let read =
        package-loaded st secs v (tagged secs given)
          (subst (λ bs. length bs < 2 ^ 32) bytes small) in
      (
        secs,
        given,
        (
          subst
              (λ bs.
                load_directory bs
                ≡ loaded (record {
                  backing = bs;
                  header = header_of st secs;
                  dir = entries_from (payload_start secs) secs;
                }))
              (sym bytes) read,
          laid,
        ),
      )

  -- The reader loads the directory of a package that the builder assembled, where the package has
  -- fewer than 2^32 bytes, the version is 1 or 2, and the builder's stamps fit their types: the header
  -- is the one that was written, the directory has one entry for each section, in their order, and
  -- each entry has the tag and the checksum of its section and leads to the slice that is its payload.
  pub load_directory-serialize :
      (b : Builder) (out : Buf)
      → serialize grants b ≡ (true, out)
      → length out.data_bytes < 2 ^ 32
      → IsReadable (stamps_of b)
      → (secs : List Sec) × (sections grants b ≡ some secs)
        × LoadedAs out.data_bytes (stamps_of b) secs
  load_directory-serialize b out e small v =
      load_directory-assemble (stamps_of b) (sections grants b) out
        (serialize-assemble grants b out e) small v (sections-Tagged grants b)
