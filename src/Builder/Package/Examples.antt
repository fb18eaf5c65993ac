-- ===== src/Builder/Package/Examples.antt =====
-- The package of a builder that nothing was added to.
use ray_vault.Base.{ℕ, Bool, true, ◌≡◌, refl, some, List, length, arith}
use ray_vault.Buf
use ray_vault.Buf.{Buf, append, reserve, reserve_loop, for_each, append_u32, append_u64}
use ray_vault.Builder.Emit.{
  append_rout, append_inst, append_clbr, append_wind, append_mark, append_link, append_note,
  append_summ,
}
use ray_vault.Builder.Blobs.{append_snam, append_wave}
use ray_vault.Builder.{init}
use ray_vault.Builder.Package.{
  Sec, stamps_of, serialize, assemble, sections, new_sec, entries_from, payload_start, end_of,
  append_dir, append_package,
}
use ray_vault.Builder.Package.Loaded.{IsReadable, LoadedAs, load_directory-serialize}

abbrev all_granted : ℕ → Bool
all_granted n = true

abbrev assembled : Buf
assembled = (serialize all_granted init).1

is_assembled : serialize all_granted init ≡ (true, assembled)
unfolding serialize assemble sections new_sec entries_from payload_start end_of append_dir
    append_package append_snam append_rout append_inst append_clbr append_wind append_wave
    append_mark append_link append_note append_summ init Buf.init append reserve reserve_loop
    for_each append_u32 append_u64
is_assembled = refl

assembled_size : length assembled.data_bytes ≡ 416
unfolding serialize assemble sections new_sec entries_from payload_start end_of append_dir
    append_package append_snam append_rout append_inst append_clbr append_wind append_wave
    append_mark append_link append_note append_summ init Buf.init append reserve reserve_loop
    for_each append_u32 append_u64
assembled_size = refl

init-IsReadable : IsReadable (stamps_of init)
unfolding init
init-IsReadable = record {
  old = omega arith;
  new = omega arith;
  minor_word = omega arith;
  created_word = omega arith;
  features_word = omega arith;
}

load_directory-serialize_example :
    (secs : List Sec) × (sections all_granted init ≡ some secs)
    × LoadedAs assembled.data_bytes (stamps_of init) secs
load_directory-serialize_example =
    load_directory-serialize all_granted init assembled is_assembled (omega (arith, assembled_size))
      init-IsReadable
