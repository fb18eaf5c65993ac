-- ===== src/Builder/Package/Layout.antt =====
-- The layout of an assembled package: where the directory puts the sections.
use ray_vault.Base.{
  ℕ, ◌+◌, ◌*◌, ◌^◌, ◌<◌, ◌≡◌, inl, inr, refl, ap, sym, ◌∙◌, subst, Bool, true, false, if◌then◌else◌,
  Option, none, some, Option-cases, Bool-cases, List, [], ◌∷◌, ◌++◌, append_assoc, length,
  length-append, take-append, drop-append, u32, u64, arith, ◌>>=◌, ◌==◌,
}
use ray_vault.Crc.{crc32}
use ray_vault.Format.{DirEntry, image, entry_bytes}
use ray_vault.Buf
use ray_vault.Buf.{Buf, slice_sub, append, for_each}
use ray_vault.Buf.Writes.{Writes, concat_map, then-Writes, for_each-Writes, append-Writes}
use ray_vault.Builder.{Builder}
use ray_vault.Builder.Package.{
  Sec, Stamps, granted, entries_from, end_of, payload_start, header_of, append_dir, append_package,
  assemble, serialize, sections, stamps_of,
}

-- The bytes of the package that has these sections.
abbrev pub package_bytes : Stamps → List Sec → List ℕ
package_bytes st secs =
    (image (header_of st secs).header_crc (header_of st secs)
      ++ concat_map entry_bytes (entries_from (payload_start secs) secs))
    ++ concat_map (λ (s : Sec). s.body) secs

-- Each entry has its section's tag and checksum, and its slice of the package is the payload.
abbrev pub Laid : List ℕ → List DirEntry → List Sec → Type 0
Laid bytes [] [] = Unit
Laid bytes (e ∷ es) (s ∷ ss) =
    (e.tag ≡ s.tag)
    × (e.crc ≡ crc32 s.body)
    × (slice_sub bytes e.offset e.len ≡ some s.body)
    × Laid bytes es ss
Laid bytes _ _ = ⊥

slice_sub_middle :
    (front body rest : List ℕ)
    → slice_sub (front ++ (body ++ rest)) (length front) (length body) ≡ some body
unfolding slice_sub
slice_sub_middle front body rest = ground (
  arith,
  length-append front (body ++ rest),
  length-append body rest,
  drop-append front (body ++ rest),
  take-append body rest,
)

payloads_Laid :
    (ss : List Sec) (front : List ℕ) (off : ℕ)
    → off ≡ length front
    → length front + length (concat_map (λ (s : Sec). s.body) ss) < 2 ^ 32
    → Laid (front ++ concat_map (λ (s : Sec). s.body) ss) (entries_from off ss) ss
unfolding entries_from
payloads_Laid [] front off at small = tt
payloads_Laid (s ∷ ss) front off at small =
    let rest = concat_map (λ (s : Sec). s.body) ss in
    let fits = length-append s.body rest in
    let len : u32 (length s.body) ≡ length s.body = omega (arith, fits, small) in
    let next : u64 (off + length s.body) ≡ length (front ++ s.body) =
      omega (arith, at, length-append front s.body, fits, small) in
    (
      refl,
      refl,
      rw (len, at) (slice_sub_middle front s.body rest),
      subst (λ bytes. Laid bytes (entries_from (u64 (off + length s.body)) ss) ss)
          (append_assoc front s.body rest)
          (payloads_Laid ss (front ++ s.body) (u64 (off + length s.body)) next
            (omega (arith, length-append front s.body, fits, small))),
    )

pub entries_length :
    (ss : List Sec) (off : ℕ)
    → length (concat_map entry_bytes (entries_from off ss)) ≡ length ss * 24
unfolding entries_from
entries_length [] off = omega arith
entries_length (s ∷ ss) off = omega (arith, entries_length ss (u64 (off + length s.body)))

-- In a package of fewer than 2^32 bytes.
pub package_Laid :
    (st : Stamps) (secs : List Sec)
    → length (package_bytes st secs) < 2 ^ 32
    → Laid (package_bytes st secs) (entries_from (payload_start secs) secs) secs
unfolding payload_start
package_Laid st secs small =
    let h = header_of st secs in
    let dir = concat_map entry_bytes (entries_from (payload_start secs) secs) in
    let front = image h.header_crc h ++ dir in
    let size : payload_start secs ≡ length front =
      omega (
        arith,
        length-append (image h.header_crc h) dir,
        entries_length secs (payload_start secs),
      ) in
    payloads_Laid secs front (payload_start secs) size
      (omega (arith, small, length-append front (concat_map (λ (s : Sec). s.body) secs)))

granted-some : (m : Bool × Buf) (buf : Buf) → granted m ≡ some buf → (m.0 ≡ true) × (m.1 ≡ buf)
granted-some (true, b) buf e = (refl, cc)
granted-some (false, b) buf e = cc

pub bind_some :
    {A B : Type 0} (o : Option A) (f : A → Option B) (y : B)
    → (o >>= f) ≡ some y
    → (x : A) × (o ≡ some x) × (f x ≡ some y)
bind_some none f y e = cc
bind_some (some x) f y e = (x, refl, e)

module _ (grants : ℕ → Bool) where
  pub init_nil :
      (cap : ℕ) (buf : Buf) → granted (Buf.init grants cap) ≡ some buf → buf.data_bytes ≡ []
  unfolding Buf.init
  init_nil cap buf e = elim (Bool-cases (grants (if cap == 0 then 64 else cap))) [
    | inl yes_it ↦ ground (arith, yes_it, e)
    | inr no_it ↦ ground (arith, no_it, e)
  ]

  append_dir-Writes :
      (secs : List Sec)
      → Writes
          (append_dir grants secs)
          (concat_map entry_bytes (entries_from (payload_start secs) secs))
  unfolding append_dir
  append_dir-Writes secs =
      for_each-Writes (λ e. append grants (entry_bytes e)) entry_bytes
        (λ e. append-Writes grants (entry_bytes e)) (entries_from (payload_start secs) secs)

  append_package-Writes :
      (st : Stamps) (secs : List Sec) (dir : List ℕ)
      → Writes (append_package grants st secs dir) (
          (image (header_of st secs).header_crc (header_of st secs) ++ dir)
          ++ concat_map (λ (s : Sec). s.body) secs)
  unfolding append_package
  append_package-Writes st secs dir =
      then-Writes _ _ _ _
        (then-Writes _ _ _ _
          (append-Writes grants (image (header_of st secs).header_crc (header_of st secs)))
          (append-Writes grants dir))
        (for_each-Writes (λ s. append grants s.body) (λ (s : Sec). s.body)
          (λ s. append-Writes grants s.body) secs)

  pub written :
      (w : Buf → Bool × Buf) (bs : List ℕ) (buf buf' : Buf)
      → Writes w bs
      → buf.data_bytes ≡ []
      → granted (w buf) ≡ some buf'
      → buf'.data_bytes ≡ bs
  written w bs buf buf' h empty e =
      let (yes_it, same) = granted-some (w buf) buf' e in
      ap (λ (x : Buf). x.data_bytes) (sym same) ∙ h.puts buf yes_it ∙ ap (λ xs. xs ++ bs) empty

  -- A package that is assembled consists of its header, the directory and the payloads.
  assemble-bytes :
      (st : Stamps) (all : Option (List Sec)) (out : Buf)
      → assemble grants st all ≡ some out
      → (secs : List Sec) × (all ≡ some secs) × (out.data_bytes ≡ package_bytes st secs)
  unfolding assemble
  assemble-bytes st all out done =
      let (d₀, i₀, e₁) = bind_some (granted (Buf.init grants 256)) _ out done in
      let (secs, i₁, e₂) = bind_some all _ out e₁ in
      let (dir, i₂, e₃) = bind_some (granted (append_dir grants secs d₀)) _ out e₂ in
      let (o₀, i₃, e₄) =
        bind_some (granted (Buf.init grants (end_of (payload_start secs) secs))) _ out e₃ in
      let dir_bytes =
        written (append_dir grants secs) _ d₀ dir (append_dir-Writes secs) (init_nil 256 d₀ i₀)
          i₂ in
      let out_bytes =
        written (append_package grants st secs dir.data_bytes) _ o₀ out
          (append_package-Writes st secs dir.data_bytes)
          (init_nil (end_of (payload_start secs) secs) o₀ i₃) e₄ in
      (
        secs,
        i₁,
        out_bytes
            ∙ ap
                (λ d.
                  (image (header_of st secs).header_crc (header_of st secs) ++ d)
                  ++ concat_map (λ (s : Sec). s.body) secs)
                dir_bytes,
      )

  pub serialize-assemble :
      (b : Builder) (out : Buf)
      → serialize grants b ≡ (true, out)
      → assemble grants (stamps_of b) (sections grants b) ≡ some out
  unfolding serialize
  serialize-assemble b out e =
      elim (Option-cases (assemble grants (stamps_of b) (sections grants b))) [
        | inl fails ↦ ground (arith, fails, e)
        | inr (out', done) ↦ ground (arith, done, e)
      ]

  -- A package of fewer than 2^32 bytes that is assembled consists of its header, its directory and
  -- the payloads of its sections, and each entry of the directory has the tag and the checksum of its
  -- section and leads to the slice that is the section's payload.
  pub assemble-Laid :
      (st : Stamps) (all : Option (List Sec)) (out : Buf)
      → assemble grants st all ≡ some out
      → length out.data_bytes < 2 ^ 32
      → (secs : List Sec) × (all ≡ some secs)
        × (out.data_bytes ≡ package_bytes st secs)
        × Laid out.data_bytes (entries_from (payload_start secs) secs) secs
  assemble-Laid st all out e small =
      let (secs, given, bytes) = assemble-bytes st all out e in
      let laid = package_Laid st secs (subst (λ bs. length bs < 2 ^ 32) bytes small) in
      (
        secs,
        given,
        bytes,
        subst (λ bs. Laid bs (entries_from (payload_start secs) secs) secs) (sym bytes) laid,
      )
