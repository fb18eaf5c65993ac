-- ===== src/Export.antt =====
-- src/internal/rv_export.c: a package made of decoded tables.
-- The bodies of the records are the same chains of `rv_buf_append_*` calls as the builder's, and the
-- assembly of the sections is the same text. The index is not read by the code.
pub mod Waves
pub mod Tables
pub mod Loaded
mod Examples
use ray_vault.Base.{
  ℕ, ◌+◌, ◌*◌, Bool, true, false, not, ◌&&◌, ◌||◌, ◌==◌, if◌then◌else◌, Option, none, some, List,
  [], ◌∷◌, ◌++◌, length, take, bit_and, ◌>>=◌,
}
use ray_vault.Buf.{Buf, append, for_each, ◌>>◌, append_u16, append_u32, append_u64, append_f32}
use ray_vault.Decoding.{Result, ok, err, fault, same_block}
use ray_vault.Records.{RouteRec, InstRec, CalibRec, WindowRec, WaveRec, MarkerRec, LinkRec}
use ray_vault.Records.Append.{
  append_route_rec, append_inst_rec, append_calib_rec, append_window_rec, append_marker_rec,
  append_link_rec,
}
use ray_vault.Section.Blobs.{NameEntry}
use ray_vault.Parser.{Parsed}
use ray_vault.Builder.Blobs.{append_pad}
use ray_vault.Builder.Package.{Sec, Stamps, granted, new_sec, assemble}

-- `rv_derived_summary`: the counts, and the borrowed labels of the routes, which lie in the block
-- `block` of the arena; `label_count` is 0 where there is no array of labels, and `valid` is false
-- where there is no summary.
pub record DerivedSummary : Type 0 where
  pub routes : ℕ
  pub windows : ℕ
  pub markers : ℕ
  pub wave_blocks : ℕ
  pub name_entries : ℕ
  pub label_count : ℕ
  pub block : Option ℕ
  pub valid : Bool

-- The five counts of SUMM.
pub record Counts : Type 0 where
  pub routes : ℕ
  pub windows : ℕ
  pub markers : ℕ
  pub waves : ℕ
  pub names : ℕ

unfoldable pub export_counts : DerivedSummary → Parsed → Counts
export_counts ds p =
    if ds.valid
    then (record {
      routes = ds.routes;
      windows = ds.windows;
      markers = ds.markers;
      waves = ds.wave_blocks;
      names = ds.name_entries;
    })
    else (record {
      routes = length p.rout;
      windows = length p.wind;
      markers = length p.mark;
      waves = length p.wave;
      names = length p.snam.entries;
    })

-- The loop over the labels reads their array and the strings; `false` is a read of memory that the
-- arena, whose block is `base` now, has given up.
unfoldable pub labels_reachable : DerivedSummary → Option ℕ → Bool
labels_reachable ds base = not (ds.valid && not (ds.label_count == 0)) || same_block ds.block base

-- `include_wave`, from the flags.
unfoldable pub include_wave : ℕ → Bool
include_wave flags = bit_and flags 2 == 0 || not (bit_and flags 1 == 0)

-- The header that `rv_export_write_header` writes has the version 2.3 and no time.
unfoldable pub export_stamps : Parsed → Stamps
export_stamps p = record {
  ver_major = 2;
  ver_minor = 3;
  created_unix = 0;
  feature_bits = p.feature_bits;
}

abbrev pub outcome : Option Buf → Result Buf
outcome none = err
outcome (some out) = ok out

module _ (grants : ℕ → Bool) where
  pub export_name_rec : NameEntry → Buf → Bool × Buf
  export_name_rec e =
      append_u32 grants e.id
      >> append_u16 grants (length e.str)
      >> append grants e.str
      >> append_pad grants (length e.str)

  unfoldable pub export_snam : List NameEntry → Buf → Bool × Buf
  export_snam es =
      append_u32 grants 0x314d414e >> append_u32 grants (length es) >> for_each export_name_rec es

  unfoldable pub export_rout : List RouteRec → Buf → Bool × Buf
  export_rout rs =
      append_u32 grants 0x31544f52
      >> append_u32 grants (length rs)
      >> for_each (append_route_rec grants) rs

  unfoldable pub export_inst : List InstRec → Buf → Bool × Buf
  export_inst rs =
      append_u32 grants 0x3154534e
      >> append_u32 grants (length rs)
      >> for_each (append_inst_rec grants) rs

  unfoldable pub export_clbr : List CalibRec → Buf → Bool × Buf
  export_clbr rs =
      append_u32 grants 0x31424c43
      >> append_u32 grants (length rs)
      >> for_each (append_calib_rec grants) rs

  unfoldable pub export_wind : List WindowRec → Buf → Bool × Buf
  export_wind rs =
      append_u32 grants 0x31444e49
      >> append_u32 grants (length rs)
      >> for_each (append_window_rec grants) rs

  unfoldable pub export_wave_rec : WaveRec → Buf → Bool × Buf
  export_wave_rec b =
      append_u32 grants b.block_id
      >> append_u32 grants b.window_id
      >> append_u32 grants b.sample_count
      >> append_f32 grants b.start_m
      >> append_f32 grants b.step_m
      >> append_u16 grants b.flags
      >> append_u16 grants b.payload_crc
      >> append grants (take (b.sample_count * 2) b.samples)
      >> append_pad grants (b.sample_count * 2)

  unfoldable pub export_wave : Bool → List WaveRec → Buf → Bool × Buf
  export_wave include bs =
      append_u32 grants 0x31455641
      >> append_u32 grants (if include then length bs else 0)
      >> for_each export_wave_rec (if include then bs else [])

  unfoldable pub export_mark : List MarkerRec → Buf → Bool × Buf
  export_mark rs =
      append_u32 grants 0x314b524d
      >> append_u32 grants (length rs)
      >> for_each (append_marker_rec grants) rs

  unfoldable pub export_link : List LinkRec → Buf → Bool × Buf
  export_link rs =
      append_u32 grants 0x314b4e4c
      >> append_u32 grants (length rs)
      >> for_each (append_link_rec grants) rs

  unfoldable pub export_summ : Counts → Buf → Bool × Buf
  export_summ c =
      append_u32 grants 0x314d4d55
      >> append_u32 grants c.routes
      >> append_u32 grants c.windows
      >> append_u32 grants c.markers
      >> append_u32 grants c.waves
      >> append_u32 grants c.names
      >> append_u32 grants 0
      >> append_u64 grants 0
      >> append_u32 grants 0

  -- The eight sections of the tables.
  unfoldable pub table_sections : Parsed → ℕ → Option (List Sec)
  table_sections p flags = do
    snam ← new_sec grants 256 0x4d414e53 (export_snam p.snam.entries)
    rout ← new_sec grants 128 0x54554f52 (export_rout p.rout)
    inst ← new_sec grants 128 0x54534e49 (export_inst p.inst)
    clbr ← new_sec grants 128 0x52424c43 (export_clbr p.clbr)
    wind ← new_sec grants 256 0x444e4957 (export_wind p.wind)
    wave ← new_sec grants 512 0x45564157 (export_wave (include_wave flags) p.wave)
    mark ← new_sec grants 256 0x4b52414d (export_mark p.mark)
    link ← new_sec grants 128 0x4b4e494c (export_link p.link)
    some (snam ∷ rout ∷ inst ∷ clbr ∷ wind ∷ wave ∷ mark ∷ link ∷ [])

  unfoldable pub export_sections : Parsed → DerivedSummary → ℕ → Option (List Sec)
  export_sections p ds flags = do
    tables ← table_sections p flags
    summ ← new_sec grants 64 0x4d4d5553 (export_summ (export_counts ds p))
    some (tables ++ summ ∷ [])

  -- `rv_export_build`. It probes the labels where the tables are written and the buffers of the
  -- directory (256 bytes) and of SUMM (64 bytes) are there.
  unfoldable pub export_build : Parsed → DerivedSummary → Option ℕ → ℕ → Result Buf
  export_build p ds base flags = elim (table_sections p flags) [
    | none ↦ err
    | some tables ↦
        if grants 256 && grants 64 && not (labels_reachable ds base)
        then fault
        else outcome (assemble grants (export_stamps p) (export_sections p ds flags))
  ]
