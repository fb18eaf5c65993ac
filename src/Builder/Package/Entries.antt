-- ===== src/Builder/Package/Entries.antt =====
-- The directory entries of an assembled package, under the loop of `rv_reader_load_directory`.
use ray_vault.Base.{
  ℕ, suc, ◌+◌, ◌^◌, ◌≤◌, ◌<◌, ◌≡◌, refl, ap, sym, ◌∙◌, subst, false, List, [], ◌∷◌, ◌++◌,
  append_assoc, length, length-append, drop, drop-append, u64, arith, All, ltb, IsU32,
}
use ray_vault.Crc.Stream.{crc32-lt}
use ray_vault.Format.{DirEntry, entry_bytes, parsed, parse_dir_entry}
use ray_vault.Format.Header.{IsEntry, parse_dir_entry-bytes}
use ray_vault.Buf.Writes.{concat_map}
use ray_vault.Reader.{loaded, in_range, after_entry, load_entries}
use ray_vault.Builder.Package.{Sec, entries_from}

-- An entry that the loop takes in.
abbrev pub Fit : ℕ → DirEntry → Type 0
Fit size e = IsEntry e × (e.offset + e.len ≤ size)

after_entry-Fit :
    (bytes : List ℕ) (e : DirEntry) (es : List DirEntry)
    → Fit (length bytes) e
    → length bytes < 2 ^ 63
    → after_entry bytes (parsed e) (loaded es) ≡ loaded (e ∷ es)
unfolding after_entry in_range
after_entry-Fit bytes e es fit small = ground (arith, fit, small)

load_step :
    (n off : ℕ) (bytes : List ℕ) (e : DirEntry) (es : List DirEntry)
    → ltb (length bytes) (u64 (off + 24)) ≡ false
    → parse_dir_entry (drop off bytes) 24 ≡ parsed e
    → load_entries n (u64 (off + 24)) bytes ≡ loaded es
    → Fit (length bytes) e
    → length bytes < 2 ^ 63
    → load_entries (suc n) off bytes ≡ loaded (e ∷ es)
unfolding load_entries
load_step n off bytes e es room here later fit small =
    rw (room, here, later) (after_entry-Fit bytes e es fit small)

pub load_entries-entries :
    (es : List DirEntry) (front rest : List ℕ) (off size : ℕ)
    → off ≡ length front
    → length (front ++ (concat_map entry_bytes es ++ rest)) ≡ size
    → All (Fit size) es
    → size < 2 ^ 63
    → load_entries (length es) off (front ++ (concat_map entry_bytes es ++ rest)) ≡ loaded es
unfolding load_entries
load_entries-entries [] front rest off size at all fits small = refl
load_entries-entries (e ∷ es) front rest off size at all fits small =
    let others = concat_map entry_bytes es ++ rest in
    let bytes = front ++ ((entry_bytes e ++ concat_map entry_bytes es) ++ rest) in
    let shape : front ++ ((entry_bytes e ++ concat_map entry_bytes es) ++ rest)
        ≡ (front ++ entry_bytes e) ++ others =
      sym (append_assoc front (entry_bytes e) others) in
    let here : parse_dir_entry (drop off bytes) 24 ≡ parsed e =
      rw (at, drop-append front ((entry_bytes e ++ concat_map entry_bytes es) ++ rest))
        (subst (λ b. parse_dir_entry b 24 ≡ parsed e)
          (sym (append_assoc (entry_bytes e) (concat_map entry_bytes es) rest))
          (parse_dir_entry-bytes e (concat_map entry_bytes es ++ rest) fits.0.0)) in
    let on : u64 (off + 24) ≡ length (front ++ entry_bytes e) = omega (
      arith,
      at,
      all,
      small,
      ap length shape,
      length-append (front ++ entry_bytes e) others,
      length-append front (entry_bytes e),
    ) in
    let room : ltb (length bytes) (u64 (off + 24)) ≡ false =
      ground (
        arith,
        at,
        all,
        small,
        on,
        ap length shape,
        length-append (front ++ entry_bytes e) others,
      ) in
    let later : load_entries (length es) (u64 (off + 24)) bytes ≡ loaded es =
      subst (λ b. load_entries (length es) (u64 (off + 24)) b ≡ loaded es) (sym shape)
        (load_entries-entries es (front ++ entry_bytes e) rest (u64 (off + 24)) size on
          (ap length (sym shape) ∙ all) fits.1 small) in
    load_step (length es) off bytes e es room here later (subst (λ k. Fit k e) (sym all) fits.0)
      (subst (λ k. k < 2 ^ 63) (sym all) small)

pub entries_Fit :
    (ss : List Sec) (off size : ℕ)
    → All (λ (s : Sec). IsU32 s.tag) ss
    → off + length (concat_map (λ (s : Sec). s.body) ss) ≤ size
    → size < 2 ^ 32
    → All (Fit size) (entries_from off ss)
unfolding entries_from
entries_Fit [] off size words room small = tt
entries_Fit (s ∷ ss) off size words room small =
    let rest = concat_map (λ (s : Sec). s.body) ss in
    let fits = length-append s.body rest in
    (
      (
        record {
          tag_word = words.0;
          flags_word = omega arith;
          offset_word = omega (arith, room, small);
          len_word = omega (arith, room, small, fits);
          crc_word = crc32-lt s.body;
        },
        omega (arith, room, small, fits),
      ),
      entries_Fit ss (u64 (off + length s.body)) size words.1 (omega (arith, room, small, fits))
          small,
    )
