-- ===== src/Reader/Directory.antt =====
-- What a loaded directory is worth: memory safety of the loading, and the slices of its sections.
use ray_vault.Base.{
  ℕ, zero, suc, ◌+◌, ◌*◌, ◌^◌, ◌≤◌, ◌<◌, ◌≡◌, ◌≢◌, ◌⊎◌, refl, true, none, some, List, length, take,
  drop, length-take, length-drop, All, IsU8, u64, ltb, ltb→le, ltb→lt, Bool-cases, inl, inr, arith,
}
use ray_vault.Buf.{slice_sub}
use ray_vault.Format.{
  FileHeader, DirEntry, Outcome, parsed, refused, bad_crc, outside, parse_file_header,
  parse_dir_entry,
}
use ray_vault.Format.Header.{Checked, Accepted, parse_file_header_lem, parse_dir_entry-ne-outside}
use ray_vault.Reader.{
  Loading, loaded, invalid_header, unsupported, too_old, truncated, bad_entry, out_of_range, past,
  in_range, load_entries, load_versioned, load_directory, reader_of, in_front, after_entry,
  after_header,
}

-- An entry whose end does not wrap has a slice of its length.
abbrev pub Sliced : List ℕ → DirEntry → Type 0
Sliced data_bytes e =
    (2 ^ 64 ≤ e.offset + e.len)
    ⊎ ((s : List ℕ) × (slice_sub data_bytes e.offset e.len ≡ some s) × (length s ≡ e.len))

abbrev pub Safe : {A : Type 0} → (A → Type 0) → Loading A → Type 0
Safe P (loaded x) = P x
Safe P past = ⊥
Safe P _ = Unit

in_range-Sliced :
    (data_bytes : List ℕ) (e : DirEntry) → in_range data_bytes e ≡ true → Sliced data_bytes e
unfolding in_range slice_sub
in_range-Sliced data_bytes e h = elim (Bool-cases (ltb (e.offset + e.len) (2 ^ 64))) [
  | inr wraps ↦ inl (ltb→le (e.offset + e.len) (2 ^ 64) wraps)
  | inl fits ↦
      let small = ltb→lt (e.offset + e.len) (2 ^ 64) fits in
      let inside : e.offset + e.len ≤ length data_bytes = ground (arith, small) in
      inr (
        take e.len (drop e.offset data_bytes),
        ground (arith, inside),
        length-take e.len (drop e.offset data_bytes)
            (omega (arith, inside, length-drop e.offset data_bytes)),
      )
]

in_front-Safe :
    (data_bytes : List ℕ) (e : DirEntry) (rest : Loading (List DirEntry))
    → Sliced data_bytes e
    → Safe (All (Sliced data_bytes)) rest
    → Safe (All (Sliced data_bytes)) (in_front e rest)
in_front-Safe data_bytes e (loaded es) s r = (s, r)
in_front-Safe data_bytes e invalid_header s r = r
in_front-Safe data_bytes e unsupported s r = r
in_front-Safe data_bytes e too_old s r = r
in_front-Safe data_bytes e truncated s r = r
in_front-Safe data_bytes e bad_entry s r = r
in_front-Safe data_bytes e out_of_range s r = r
in_front-Safe data_bytes e past s r = r

after_entry-Safe :
    (data_bytes : List ℕ) (o : Outcome DirEntry) (rest : Loading (List DirEntry))
    → o ≢ outside
    → Safe (All (Sliced data_bytes)) rest
    → Safe (All (Sliced data_bytes)) (after_entry data_bytes o rest)
unfolding after_entry
after_entry-Safe data_bytes (parsed e) rest read r = elim (Bool-cases (in_range data_bytes e)) [
  | inl ranged ↦ rw ranged (in_front-Safe data_bytes e rest (in_range-Sliced data_bytes e ranged) r)
  | inr far ↦ rw far tt
]
after_entry-Safe data_bytes refused rest read r = tt
after_entry-Safe data_bytes bad_crc rest read r = tt
after_entry-Safe data_bytes outside rest read r = absurd (read refl)

load_entries-Safe :
    (n off : ℕ) (data_bytes : List ℕ)
    → off + n * 24 ≤ length data_bytes
    → length data_bytes < 2 ^ 64
    → Safe (All (Sliced data_bytes)) (load_entries n off data_bytes)
unfolding load_entries
load_entries-Safe zero off data_bytes h s = tt
load_entries-Safe (suc n) off data_bytes h s =
    let p = drop off data_bytes in
    let rest = load_entries-Safe n (u64 (off + 24)) data_bytes (omega arith) s in
    elim (Bool-cases (ltb (length data_bytes) (u64 (off + 24)))) [
      | inl short ↦ rw short tt
      | inr enough ↦ rw enough (
          after_entry-Safe data_bytes (parse_dir_entry p 24) _
            (parse_dir_entry-ne-outside p 24 (omega (arith, h, length-drop off data_bytes))) rest)
    ]

reader_of-Safe :
    (data_bytes : List ℕ) (h : FileHeader) (es : Loading (List DirEntry))
    → Safe (All (Sliced data_bytes)) es
    → Safe (λ r. All (Sliced r.backing) r.dir) (reader_of data_bytes h es)
reader_of-Safe data_bytes h (loaded es) s = s
reader_of-Safe data_bytes h invalid_header s = s
reader_of-Safe data_bytes h unsupported s = s
reader_of-Safe data_bytes h too_old s = s
reader_of-Safe data_bytes h truncated s = s
reader_of-Safe data_bytes h bad_entry s = s
reader_of-Safe data_bytes h out_of_range s = s
reader_of-Safe data_bytes h past s = s

load_versioned-Safe :
    (data_bytes : List ℕ) (h : FileHeader)
    → Accepted (length data_bytes) h
    → length data_bytes < 2 ^ 64
    → Safe (λ r. All (Sliced r.backing) r.dir) (load_versioned data_bytes h)
unfolding load_versioned
load_versioned-Safe data_bytes h a s = elim (Bool-cases (ltb 2 h.ver_major)) [
  | inl new ↦ rw new tt
  | inr known ↦ elim (Bool-cases (ltb h.ver_major 1)) [
    | inl old ↦ rw (known, old) tt
    | inr recent ↦
        rw (known, recent)
          (reader_of-Safe data_bytes h _
            (load_entries-Safe h.section_count h.dir_offset data_bytes a.inside s))
  ]
]

after_header-Safe :
    (data_bytes : List ℕ) (o : Outcome FileHeader)
    → Checked (length data_bytes) o
    → length data_bytes < 2 ^ 64
    → Safe (λ r. All (Sliced r.backing) r.dir) (after_header data_bytes o)
unfolding after_header
after_header-Safe data_bytes (parsed h) c s = load_versioned-Safe data_bytes h c s
after_header-Safe data_bytes refused c s = tt
after_header-Safe data_bytes bad_crc c s = tt
after_header-Safe data_bytes outside c s = c

-- For every package of less than 2^64 bytes, `rv_reader_load_directory` reads nothing past the
-- package; in a directory that it loads, each entry whose offset and length have a sum below 2^64
-- has a slice of that length inside the package.
pub load_directory-Safe :
    (data_bytes : List ℕ)
    → length data_bytes < 2 ^ 64
    → All IsU8 data_bytes
    → Safe (λ r. All (Sliced r.backing) r.dir) (load_directory data_bytes)
unfolding load_directory
load_directory-Safe data_bytes s bytes =
    after_header-Safe data_bytes (parse_file_header data_bytes)
      (parse_file_header_lem data_bytes s bytes) s

-- The test of `rv_reader_load_directory` wraps: it lets every entry through whose offset and length
-- have the sum 2^64, though such an entry that starts behind the package has no slice.
pub in_range-wrapped :
    (data_bytes : List ℕ) (e : DirEntry)
    → e.offset + e.len ≡ 2 ^ 64
    → length data_bytes < e.offset
    → (in_range data_bytes e ≡ true) × (slice_sub data_bytes e.offset e.len ≡ none)
unfolding in_range slice_sub
in_range-wrapped data_bytes e wraps behind = (ground (arith, wraps), ground (arith, wraps))
