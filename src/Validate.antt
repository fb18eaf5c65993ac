-- ===== src/Validate.antt =====
-- src/internal/rv_validate.c and rv_footer.c: the checks of an opened package.
-- `below a b` and `at_most a b` are the comparisons `a < b` and `a <= b` of floats, which the machine
-- makes on their bits; 0x43fa0000 is 500.0f. The diagnostics' texts are left out, and `false` is -1.
mod Examples
pub mod Sections
use ray_vault.Base.{
  ℕ, ◌+◌, Bool, true, false, not, ◌&&◌, ◌||◌, ◌==◌, if◌then◌else◌, Option, none, some, List, [],
  ◌∷◌, ◌++◌, length, u32,
}
use ray_vault.Crc.{crc32, crc32_update}
use ray_vault.Endian.{write_le32}
use ray_vault.Format.{DirEntry}
use ray_vault.Records.{RouteRec, WindowRec, WaveRec, MarkerRec, SummRec}
use ray_vault.Reader.{Reader, verify_section_crc}
use ray_vault.Parser.{Parsed}
use ray_vault.Dict.{check_routes, check_instruments, check_markers}
use ray_vault.Xref.{Index, is_none, xref_validate}

pub record ValidateOptions : Type 0 where
  pub check_crc : Bool
  pub check_xref : Bool
  pub check_summ : Bool
  pub check_ranges : Bool
  pub check_names : Bool

pub options_default : ValidateOptions
options_default = record {
  check_crc = true;
  check_xref = true;
  check_summ = true;
  check_ranges = true;
  check_names = true;
}

unfoldable pub header_consistency : Reader → Bool
header_consistency r =
    if not (r.header.total_size == 0) && not (r.header.total_size == length r.backing)
    then false
    else r.header.section_count == length r.dir

-- A count of the summary that is not 0 has to be that of the table.
abbrev pub counts : {A : Type 0} → ℕ → List A → Bool
counts n xs = (n == 0) || (n == length xs)

unfoldable pub summ_counts : Parsed → Bool
summ_counts p =
    if not p.has_summ
    then true
    else counts p.summ.route_count p.rout
      && counts p.summ.window_count p.wind
      && counts p.summ.marker_count p.mark
      && counts p.summ.wave_count p.wave
      && counts p.summ.name_count p.snam.entries

abbrev pub every : {A : Type 0} → (A → Bool) → List A → Bool
every test [] = true
every test (x ∷ xs) = test x && every test xs

module _ (below at_most : ℕ → ℕ → Bool) where
  unfoldable pub physical_ranges : Parsed → Bool
  physical_ranges p =
      every (λ r. not (below r.length_km 0) && not (below 0x43fa0000 r.length_km)) p.rout
      && every (λ w. not (below w.pulse_ns 0) && not (below w.range_km 0)) p.wind
      && every (λ b. not (at_most b.step_m 0)) p.wave
      && every (λ m. not (below m.distance_m 0)) p.mark

  unfoldable pub names_check : Parsed → Bool
  names_check p =
      is_none (check_routes p.snam p.rout)
      && is_none (check_instruments p.snam p.inst)
      && is_none (check_markers p.snam p.mark)

  -- The test of `idx && idx->ready` and the check behind it.
  unfoldable pub xref_check : Parsed → Option Index → Bool
  xref_check p none = true
  xref_check p (some idx) = if idx.ready then (xref_validate idx p).0 else true

  -- `rc` is -1 after any check that fails; the others still run, for their diagnostics.
  unfoldable pub validate_package : Reader → Parsed → Option Index → ValidateOptions → Bool
  validate_package r p idx o =
      header_consistency r
      && (not o.check_crc || every (verify_section_crc r) r.dir)
      && (not o.check_names || names_check p)
      && (not o.check_xref || xref_check p idx)
      && (not o.check_summ || summ_counts p)
      && (not o.check_ranges || physical_ranges p)

pub record FooterView : Type 0 where
  pub package_crc : ℕ
  pub section_digest : ℕ
  pub payload_bytes : ℕ
  pub flags : ℕ
  pub present : Bool

pub footer_from_summ : SummRec → FooterView
footer_from_summ s = record {
  package_crc = s.package_crc;
  section_digest = 0;
  payload_bytes = s.payload_bytes;
  flags = s.flags;
  present = true;
}

-- The bytes of an entry under the digest.
pub digest_bytes : DirEntry → List ℕ
digest_bytes e =
    write_le32 e.tag ++ write_le32 e.len ++ write_le32 (u32 e.offset) ++ write_le32 e.crc

pub digest_from : ℕ → List DirEntry → ℕ
digest_from h [] = h
digest_from h (e ∷ es) = digest_from (crc32_update h (digest_bytes e)) es

unfoldable pub section_digest : Reader → ℕ
unfolding digest_from
section_digest r = digest_from 0 r.dir

unfoldable pub verify_package : Reader → FooterView → Bool
verify_package r f =
    if not f.present
    then true
    else if not (f.payload_bytes == 0) && not (f.payload_bytes == length r.backing)
    then false
    else if f.package_crc == 0
    then true
    else (crc32 r.backing == f.package_crc) || (section_digest r == f.package_crc)
