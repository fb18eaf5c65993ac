-- ===== src/Section/Blobs/Inside.antt =====
-- Memory safety of the decoders of SNAM and WAVE.
use ray_vault.Base.{
  ℕ, u32, ◌∙◌, refl, if◌then◌else◌, zero, suc, ◌+◌, ◌-◌, ◌*◌, ◌%◌, ◌≤◌, ◌≡◌, ◌≢◌, not, ◌==◌, ltb,
  ltb→le, List, [], length, length-drop, drop, arith, Bool-cases, Option-cases, inl, inr, false,
  Option,
}
use ray_vault.Arena.Stays.{Stays, calloc-base, strdup-base}
use ray_vault.Arena.{Arena, Heap, calloc, strdup}
use ray_vault.Endian.{split_at, read_le16, read_le32}
use ray_vault.Endian.Inside.{read_le16_inside, read_le32_inside, split_at_inside}
use ray_vault.Decoding.{
  fault, touch, new_items, done, load, Safe, done-Safe, load-Safe, fail_if-Safe, >>=-Safe,
  touch-Safe, current-Safe, new_items-Safe,
}
use ray_vault.Records.Read.{read_wave}
use ray_vault.Records.Inside.{read_wave_inside}
use ray_vault.Section.Blobs.{
  skip_pad, read_waves, decode_wave, read_lp_string, new_string, skip_odd, read_names, decode_snam,
  bucket_count, snam_of, decode_names,
}

module _ (P : Arena → Type 0) where
  skip_pad-Safe : (bytes left : ℕ) (p : List ℕ) → Safe P (skip_pad bytes left p)
  unfolding skip_pad
  skip_pad-Safe bytes left p = elim (Bool-cases (bytes % 2 == 0)) [
    | inl even ↦ rw even (done-Safe P p)
    | inr odd ↦ rw odd (fail_if-Safe P _ _ (λ t. done-Safe P (drop 1 p)))
  ]

  read_waves-Safe : (n : ℕ) (p : List ℕ) → Safe P (read_waves n p)
  unfolding read_waves
  read_waves-Safe zero p = done-Safe P []
  read_waves-Safe (suc n) p = fail_if-Safe P (ltb (length p) 24) _ λ short.
      >>=-Safe P (load (read_wave p)) _
        (load-Safe P (read_wave p) (read_wave_inside p (ltb→le (length p) 24 short)))
        λ w. fail_if-Safe P (ltb 2000000 w.sample_count) _ λ long.
          fail_if-Safe P (ltb (length p - 24) (w.sample_count * 2)) _ λ past.
            >>=-Safe P (load (split_at (w.sample_count * 2) (drop 24 p))) _
              (load-Safe P (split_at (w.sample_count * 2) (drop 24 p)) (
                split_at_inside (w.sample_count * 2) (drop 24 p) (
                  omega
                    (arith, ltb→le (length p - 24) (w.sample_count * 2) past, length-drop 24 p))))
              λ parts.
                >>=-Safe P (skip_pad (w.sample_count * 2) n parts.1) _
                  (skip_pad-Safe (w.sample_count * 2) n parts.1)
                  λ rest.
                    >>=-Safe P (read_waves n rest) _ (read_waves-Safe n rest) λ more. done-Safe P _

-- The arena's block is `block`.
abbrev pub At : Option ℕ → Arena → Type 0
At block a = a.base ≡ block

le32-Safe :
    (P : Arena → Type 0) (k : ℕ) (p : List ℕ)
    → k + 4 ≤ length p
    → Safe P (load (read_le32 (drop k p)))
le32-Safe P k p fits = load-Safe P (read_le32 (drop k p)) (read_le32_inside k p fits)

-- A payload that is not shorter than eight bytes has both words of its head.
eight : (p : List ℕ) → ltb (length p) 8 ≡ false → (4 ≤ length p) × (8 ≤ length p)
eight p long = (ground arith, ground arith)

module _ (h : Heap) (stays : Stays h) (block : Option ℕ) where
  table-Safe : (count size align : ℕ) → Safe (At block) (new_items h count size align)
  table-Safe count size align =
      new_items-Safe (At block) h count size align
        λ a at. calloc-base h stays a count size align ∙ at

  -- An empty array is not read.
  names-Safe : (count : ℕ) → Safe (At block) (if count == 0 then done tt else touch block)
  names-Safe count = elim (Bool-cases (count == 0)) [
    | inl empty ↦ rw empty (done-Safe (At block) tt)
    | inr some_names ↦ rw some_names (touch-Safe block)
  ]

  new_string-Safe : (n : ℕ) → Safe (At block) (new_string h n)
  unfolding new_string
  new_string-Safe n = record {
    runs = λ a at. ground (arith, at, strdup-base h stays a n, Option-cases (strdup h a n).0);
  }

  read_lp_string-Safe : (p : List ℕ) → Safe (At block) (read_lp_string p)
  unfolding read_lp_string
  read_lp_string-Safe p = fail_if-Safe (At block) (ltb (length p) 2) _ λ short.
      >>=-Safe (At block) (load (read_le16 p)) _
        (load-Safe (At block) (read_le16 p) (read_le16_inside 0 p (ltb→le (length p) 2 short)))
        λ n. fail_if-Safe (At block) (ltb (length p) (n + 2)) _ λ long.
          load-Safe (At block) (split_at n (drop 2 p)) (
            split_at_inside n (drop 2 p)
              (omega (arith, ltb→le (length p) (n + 2) long, length-drop 2 p)))

  skip_odd-Safe : (used : ℕ) (p : List ℕ) → Safe (At block) (skip_odd used p)
  unfolding skip_odd
  skip_odd-Safe used p = elim (Bool-cases (used % 2 == 0)) [
    | inl even ↦ rw even (done-Safe (At block) p)
    | inr odd ↦ rw odd (
        fail_if-Safe (At block) (length p == 0) _ λ t.
          >>=-Safe (At block) (load (split_at 1 p)) _
            (load-Safe (At block) (split_at 1 p) (split_at_inside 1 p (ground (arith, t))))
            λ parts. done-Safe (At block) parts.1)
  ]

  read_names-Safe : (n : ℕ) (p : List ℕ) → Safe (At block) (read_names h block n p)
  unfolding read_names
  read_names-Safe zero p = done-Safe (At block) []
  read_names-Safe (suc n) p = fail_if-Safe (At block) (ltb (length p) 4) _ λ short.
      >>=-Safe (At block) (load (read_le32 p)) _
        (load-Safe (At block) (read_le32 p) (read_le32_inside 0 p (ltb→le (length p) 4 short)))
        λ id. >>=-Safe (At block) (touch block) _ (touch-Safe block) λ t.
          >>=-Safe (At block) (read_lp_string (drop 4 p)) _ (read_lp_string-Safe (drop 4 p))
            λ parts.
              >>=-Safe (At block) (new_string h (length parts.0)) _
                (new_string-Safe (length parts.0))
                λ u. >>=-Safe (At block) (touch block) _ (touch-Safe block) λ t.
                  >>=-Safe (At block) (skip_odd (2 + length parts.0) parts.1) _
                    (skip_odd-Safe (2 + length parts.0) parts.1)
                    λ rest.
                      >>=-Safe (At block) (read_names h block n rest) _ (read_names-Safe n rest)
                        λ more. done-Safe (At block) _

  decode_names-Safe : (count : ℕ) (p : List ℕ) → Safe (At block) (decode_names h count p block)
  unfolding decode_names
  decode_names-Safe count p =
      let buckets = bucket_count 33 (u32 (count * 2 + 8)) 1 in
      >>=-Safe (At block) (read_names h block count p) _ (read_names-Safe count p) λ entries.
        >>=-Safe (At block) (new_items h buckets 4 4) _ (table-Safe buckets 4 4) λ u.
          >>=-Safe (At block) (if count == 0 then done tt else touch block) _ (names-Safe count)
            λ u.
              current-Safe block (λ b. done (snam_of entries buckets b))
                (done-Safe (At block) (snam_of entries buckets block))

  decode_snam-Safe : (payload : List ℕ) → Safe (At block) (decode_snam h payload)
  unfolding decode_snam
  decode_snam-Safe payload = fail_if-Safe (At block) (ltb (length payload) 8) _ λ short.
      >>=-Safe (At block) (load (read_le32 payload)) _
        (le32-Safe (At block) 0 payload (eight payload short).0)
        λ m. fail_if-Safe (At block) (not (m == 0x314d414e)) _ λ magic.
          >>=-Safe (At block) (load (read_le32 (drop 4 payload))) _
            (le32-Safe (At block) 4 payload (eight payload short).1)
            λ count. fail_if-Safe (At block) (ltb 100000 count) _ λ few.
              >>=-Safe (At block) (new_items h count 24 8) _ (table-Safe count 24 8) λ u.
                current-Safe block (decode_names h count (drop 8 payload))
                  (decode_names-Safe count (drop 8 payload))

decode_wave-Safe :
    (P : Arena → Type 0) (h : Heap) (payload : List ℕ)
    → ((a : Arena) → (count size align : ℕ) → P a → P (calloc h a count size align).1)
    → Safe P (decode_wave h payload)
unfolding decode_wave
decode_wave-Safe P h payload keep = fail_if-Safe P (ltb (length payload) 8) _ λ short.
    >>=-Safe P (load (read_le32 payload)) _ (le32-Safe P 0 payload (eight payload short).0) λ m.
      fail_if-Safe P (not (m == 0x31455641)) _ λ magic.
        >>=-Safe P (load (read_le32 (drop 4 payload))) _
          (le32-Safe P 4 payload (eight payload short).1)
          λ count. fail_if-Safe P (ltb 50000 count) _ λ few.
            >>=-Safe P (new_items h count 40 8) _
              (new_items-Safe P h count 40 8 (λ a p. keep a count 40 8 p))
              λ u. read_waves-Safe P count (drop 8 payload)

-- Every WAVE payload is read within its bounds.
pub decode_wave_inside :
    (h : Heap) (payload : List ℕ) (a : Arena) → (decode_wave h payload a).0 ≢ fault
decode_wave_inside h payload a =
    ((decode_wave-Safe (λ a. Unit) h payload (λ a count size align p. tt)).runs a tt).0

-- With a heap that never moves a block, every SNAM payload is read within its bounds, and the entries
-- are written to the block that they were allocated in.
pub decode_snam_inside :
    (h : Heap) → Stays h → (payload : List ℕ) (a : Arena) → (decode_snam h payload a).0 ≢ fault
decode_snam_inside h stays payload a = ((decode_snam-Safe h stays a.base payload).runs a refl).0
