-- ===== src/Validate/Sections.antt =====
-- What a validation that succeeds has checked, and the digest of the directory.
use ray_vault.Base.{◌⊎◌, ℕ, ◌≡◌, ◌∙◌, sym, some, List, [], ◌∷◌, ◌++◌, All, u32, IsU8, IsU32, arith}
use ray_vault.Buf.Writes.{concat_map}
use ray_vault.Crc.{crc32, crc32_update}
use ray_vault.Crc.Stream.{crc32_update-append, crc32_update-lt, crc32_update-nil}
use ray_vault.Endian.{write_le32}
use ray_vault.Format.{DirEntry}
use ray_vault.Buf.{slice_sub}
use ray_vault.Reader.{Reader}
use ray_vault.Xref.Resolved.{Resolved}
use ray_vault.Validate.{digest_bytes, digest_from, section_digest}

-- An entry without a checksum, or one whose bytes have it.
abbrev pub Intact : Reader → DirEntry → Type 0
Intact r e =
    (e.crc ≡ 0) ⊎ ((s : List ℕ) × (slice_sub r.backing e.offset e.len ≡ some s) × (crc32 s ≡ e.crc))

All-append : (xs ys : List ℕ) → All IsU8 xs → All IsU8 ys → All IsU8 (xs ++ ys)
All-append [] ys h k = k
All-append (x ∷ xs) ys h k = (h.0, All-append xs ys h.1 k)

word-IsU8 : (v : ℕ) → All IsU8 (write_le32 v)
word-IsU8 v = (omega arith, (omega arith, (omega arith, (omega arith, tt))))

digest_bytes-IsU8 : (e : DirEntry) → All IsU8 (digest_bytes e)
unfolding digest_bytes
digest_bytes-IsU8 e =
    All-append (write_le32 e.tag ++ write_le32 e.len ++ write_le32 (u32 e.offset))
      (write_le32 e.crc)
      (All-append (write_le32 e.tag ++ write_le32 e.len) (write_le32 (u32 e.offset))
        (All-append (write_le32 e.tag) (write_le32 e.len) (word-IsU8 e.tag) (word-IsU8 e.len))
        (word-IsU8 (u32 e.offset)))
      (word-IsU8 e.crc)

digest_from-concat_map :
    (h : ℕ) (es : List DirEntry)
    → IsU32 h
    → digest_from h es ≡ crc32_update h (concat_map digest_bytes es)
unfolding digest_from
digest_from-concat_map h [] small = sym (crc32_update-nil h small)
digest_from-concat_map h (e ∷ es) small =
    digest_from-concat_map (crc32_update h (digest_bytes e)) es (crc32_update-lt h (digest_bytes e))
    ∙ crc32_update-append h (digest_bytes e) (concat_map digest_bytes es) small
        (digest_bytes-IsU8 e)

-- Of each entry of the directory 16 bytes are digested: the tag, the length, the low word of the offset
-- and the checksum, in this order. The digest, which goes entry by entry, is the checksum of these
-- bytes of all entries together.
pub section_digest-crc32 :
    (r : Reader)
    → section_digest r
      ≡ crc32 (
          concat_map
            (λ (e : DirEntry).
              write_le32 e.tag ++ write_le32 e.len ++ write_le32 (u32 e.offset) ++ write_le32 e.crc)
            r.dir)
unfolding section_digest crc32 digest_bytes
section_digest-crc32 r = digest_from-concat_map 0 r.dir (omega arith)
