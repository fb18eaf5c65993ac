-- ===== src/Builder/Package.antt =====
-- src/internal/rv_builder.c: `rv_builder_serialize`, which assembles a package from its sections.
-- The buffers that a failure releases are out of reach after it; `none` stands for `goto fail`.
pub mod Layout
mod Entries
pub mod Loaded
pub mod Tags
mod Examples
use ray_vault.Base.{
  ℕ, ◌+◌, ◌*◌, Bool, true, false, if◌then◌else◌, Option, none, some, List, [], ◌∷◌, ◌++◌, length,
  u32, u64, ◌>>=◌,
}
use ray_vault.Crc.{crc32}
use ray_vault.Format.{FileHeader, DirEntry, image, entry_bytes, header_crc_compute}
use ray_vault.Buf
use ray_vault.Buf.{Buf, released, append, for_each, ◌>>◌}
use ray_vault.Builder.{Builder}
use ray_vault.Builder.Blobs.{append_snam, append_wave}
use ray_vault.Builder.Emit.{
  append_rout, append_inst, append_clbr, append_wind, append_mark, append_link, append_note,
  append_summ,
}

-- A section: its tag and the bytes of its buffer.
pub record Sec : Type 0 where
  pub tag : ℕ
  pub body : List ℕ

abbrev pub granted : Bool × Buf → Option Buf
granted (true, b) = some b
granted (false, b) = none

-- The entries of the sections whose payloads follow one another from `payload_off` on.
unfoldable pub entries_from : ℕ → List Sec → List DirEntry
entries_from payload_off [] = []
entries_from payload_off (s ∷ ss) =
    record {
      tag = s.tag;
      flags = 0;
      offset = payload_off;
      len = u32 (length s.body);
      crc = crc32 s.body;
    }
    ∷ entries_from (u64 (payload_off + length s.body)) ss

-- `payload_off` behind the last section.
unfoldable pub end_of : ℕ → List Sec → ℕ
end_of payload_off [] = payload_off
end_of payload_off (s ∷ ss) = end_of (u64 (payload_off + length s.body)) ss

unfoldable pub payload_start : List Sec → ℕ
payload_start secs = 64 + length secs * 24

-- What a header says of its package: the version, the time and the features.
pub record Stamps : Type 0 where
  pub ver_major : ℕ
  pub ver_minor : ℕ
  pub created_unix : ℕ
  pub feature_bits : ℕ

abbrev pub stamps_of : Builder → Stamps
stamps_of b = record {
  ver_major = b.ver_major;
  ver_minor = b.ver_minor;
  created_unix = b.created_unix;
  feature_bits = b.feature_bits;
}

-- The header, with the checksum of its image with the checksum 0.
unfoldable pub header_of : Stamps → List Sec → FileHeader
header_of st secs =
    let h : FileHeader = record {
      magic0 = 0x52;
      magic1 = 0x56;
      magic2 = 0x50;
      magic3 = 0x4b;
      ver_major = st.ver_major;
      ver_minor = st.ver_minor;
      flags = 0;
      header_crc = 0;
      created_unix = st.created_unix;
      section_count = length secs;
      dir_offset = 64;
      total_size = end_of (payload_start secs) secs;
      feature_bits = st.feature_bits;
      reserved0 = 0;
      reserved1 = 0;
    } in
    record h { header_crc = header_crc_compute h }

module _ (grants : ℕ → Bool) where
  -- A section whose buffer starts with the capacity `cap`.
  unfoldable pub new_sec : ℕ → ℕ → (Buf → Bool × Buf) → Option Sec
  new_sec cap tag fn = do
    fresh ← granted (Buf.init grants cap)
    full ← granted (fn fresh)
    some (record { tag = tag; body = full.data_bytes })

  -- `RV_PUSH_SEC`.
  abbrev pub push_sec : ℕ → (Buf → Bool × Buf) → Option Sec
  push_sec = new_sec 128

  abbrev pub push_if : Bool → ℕ → (Buf → Bool × Buf) → Option (List Sec)
  push_if wanted tag fn = if wanted then (push_sec tag fn >>= λ s. some (s ∷ [])) else some []

  unfoldable pub sections : Builder → Option (List Sec)
  sections b = do
    snam ← push_sec 0x4d414e53 (append_snam grants b)
    rout ← push_sec 0x54554f52 (append_rout grants b)
    inst ← push_sec 0x54534e49 (append_inst grants b)
    clbr ← push_sec 0x52424c43 (append_clbr grants b)
    wind ← push_sec 0x444e4957 (append_wind grants b)
    wave ← push_sec 0x45564157 (append_wave grants b)
    mark ← push_sec 0x4b52414d (append_mark grants b)
    link ← push_sec 0x4b4e494c (append_link grants b)
    note ← push_if b.include_notes 0x45544f4e (append_note grants b)
    summ ← push_if b.include_summ 0x4d4d5553 (append_summ grants b)
    some (snam ∷ rout ∷ inst ∷ clbr ∷ wind ∷ wave ∷ mark ∷ link ∷ note ++ summ)

  -- The directory's buffer.
  unfoldable pub append_dir : List Sec → Buf → Bool × Buf
  append_dir secs =
      for_each (λ e. append grants (entry_bytes e)) (entries_from (payload_start secs) secs)

  unfoldable pub append_package : Stamps → List Sec → List ℕ → Buf → Bool × Buf
  append_package st secs dir =
      let h = header_of st secs in
      append grants (image h.header_crc h)
      >> append grants dir
      >> for_each (λ s. append grants s.body) secs

  -- A package of the sections `all`, where `none` says that they failed.
  unfoldable pub assemble : Stamps → Option (List Sec) → Option Buf
  assemble st all = do
    dir ← granted (Buf.init grants 256)
    secs ← all
    dir ← granted (append_dir secs dir)
    out ← granted (Buf.init grants (end_of (payload_start secs) secs))
    granted (append_package st secs dir.data_bytes out)

  unfoldable pub serialize : Builder → Bool × Buf
  serialize b = elim (assemble (stamps_of b) (sections b)) [
    | none ↦ (false, released)
    | some out ↦ (true, out)
  ]
