-- ===== src/Parser/Examples.antt =====
-- A package with nine empty sections, parsed strictly.
use ray_vault.Base.{ℕ, ◌+◌, ◌≡◌, refl, true, none, some, Option, List, [], ◌∷◌, ◌++◌, u32, arith}
use ray_vault.Arena.{Arena, Heap, alloc, calloc, align_up, alignment}
use ray_vault.Arena.Stays.{Stays}
use ray_vault.Buf.{slice_sub}
use ray_vault.Endian.{write_le32, read_le32, join32}
use ray_vault.Format.{FileHeader, DirEntry}
use ray_vault.Decoding.{new_items, touch}
use ray_vault.Reader.{Reader, find_section, find_entry, section_slice, verify_section_crc}
use ray_vault.Section.{
  decode_rout, decode_inst, decode_clbr, decode_wind, decode_mark, decode_link, decode_note,
  decode_summ, decode_table, read_rows,
}
use ray_vault.Section.Blobs.{
  decode_snam, decode_names, decode_wave, read_waves, read_names, bucket_count, snam_of,
  fill_buckets,
}
use ray_vault.Parser.{
  Parser, init, is_strict, Status, finished, run, run_loop, step, act, one_section, after_decode,
  decode_summary,
}
use ray_vault.Parser.Total.{Ended, run-Ended}
use ray_vault.Parser.Strict.{Sound, tag_of, run-Sound}
use ray_vault.Parser.Read.{ReadBefore}
use ray_vault.Parser.Count.{present, run-present}

abbrev still : Heap
still = record { malloc = λ n. some 1000; realloc = λ base n. some base }

abbrev arena : Arena
arena = record {
  base = some 1000;
  size = 4096;
  used = 0;
  peak = 0;
  max_bytes = 65536;
  epoch = 1;
  grow_count = 0;
  owns_base = true;
}

abbrev header : FileHeader
header = record {
  magic0 = 0x52;
  magic1 = 0x56;
  magic2 = 0x50;
  magic3 = 0x4b;
  ver_major = 2;
  ver_minor = 3;
  flags = 0;
  header_crc = 0;
  created_unix = 0;
  section_count = 9;
  dir_offset = 64;
  total_size = 0;
  feature_bits = 0;
  reserved0 = 0;
  reserved1 = 0;
}

-- An empty section: a magic number and the count 0.
abbrev section : ℕ → List ℕ
section magic = write_le32 magic ++ write_le32 0

abbrev entry : ℕ → ℕ → DirEntry
entry tag offset = record { tag = tag; flags = 0; offset = offset; len = 8; crc = 0 }

abbrev reader : Reader
reader = record {
  backing =
      section 0x314d414e
      ++ section 0x31544f52
      ++ section 0x3154534e
      ++ section 0x31424c43
      ++ section 0x31444e49
      ++ section 0x31455641
      ++ section 0x314b524d
      ++ section 0x314b4e4c
      ++ section 0x3145544e;
  header = header;
  dir =
      entry 0x4d414e53 0
      ∷ entry 0x54554f52 8
      ∷ entry 0x54534e49 16
      ∷ entry 0x52424c43 24
      ∷ entry 0x444e4957 32
      ∷ entry 0x45564157 40
      ∷ entry 0x4b52414d 48
      ∷ entry 0x4b4e494c 56
      ∷ entry 0x45544f4e 64
      ∷ [];
}

abbrev parser : Parser
parser = init reader arena 2

-- The parser that a run leaves.
abbrev left : Option (Status × Parser) → Parser
left none = parser
left (some (s, q)) = q

run-Ended_example : (out : Status × Parser) × (run still parser ≡ some out) × Ended out
run-Ended_example = run-Ended still parser

abbrev status_of : Option (Status × Parser) → Option Status
status_of none = none
status_of (some (s, q)) = some s

status_finished : status_of (run still parser) ≡ some finished
unfolding init run run_loop step act one_section after_decode decode_summary find_section find_entry
    section_slice verify_section_crc slice_sub decode_snam decode_names read_names bucket_count
    snam_of fill_buckets decode_wave read_waves decode_rout decode_inst decode_clbr decode_wind
    decode_mark decode_link decode_note decode_summ decode_table read_rows read_le32 join32
    new_items touch calloc alloc align_up alignment
status_finished = refl

finishes : run still parser ≡ some (finished, left (run still parser))
finishes = ended (run still parser) status_finished
  where
    ended :
        (o : Option (Status × Parser)) → status_of o ≡ some finished → o ≡ some (finished, left o)
    ended none e = cc
    ended (some (s, q)) e = cc

strict : is_strict parser ≡ true
unfolding init
strict = refl

run-Sound_example : Sound parser.reader (tag_of 3)
run-Sound_example =
    run-Sound still parser (left (run still parser)) strict finishes 3 (omega arith) (omega arith)

none_seen : parser.result.sections_seen ≡ 0
unfolding init
none_seen = refl

run-present_example :
    ReadBefore still parser.reader 12
    × ((left (run still parser)).result.sections_seen
        ≡ u32 (parser.result.sections_seen + present parser.reader 12))
run-present_example =
    run-present still parser (left (run still parser)) (omega (arith, none_seen)) finishes
