-- ===== src/Section/Blobs/Examples.antt =====
-- Payloads of SNAM and WAVE in a small arena.
use ray_vault.Base.{ℕ, ◌≡◌, refl, true, false, some, [], ◌∷◌, ◌++◌, arith}
use ray_vault.Arena.{
  Arena, Heap, alloc, calloc, strdup, align_up, alignment, grow, grown_size, double_until,
}
use ray_vault.Base.Bits.{bit_and_mask}
use ray_vault.Crc.{crc32}
use ray_vault.Buf.{Buf}
use ray_vault.Buf.Writes.{IsValid}
use ray_vault.Endian.{write_le16, write_le32}
use ray_vault.Decoding.{ok, fault, new_items, same_block}
use ray_vault.Records.Bounds.{IsWave}
use ray_vault.Builder.{Builder, Wave, init}
use ray_vault.Builder.Blobs.{append_wave}
use ray_vault.Builder.Emitted.{append_wave-Writes}
use ray_vault.Section.Blobs.{decode_wave, read_names}
use ray_vault.Section.Blobs.Faults.{read_names-moved}
use ray_vault.Section.Blobs.RoundTrip.{block_of, decode_wave-append}

-- A heap that extends blocks in place, and one that moves them.
abbrev still : Heap
still = record { malloc = λ n. some 1000; realloc = λ base n. some base }

abbrev moving : Heap
moving = record { malloc = λ n. some 1000; realloc = λ base n. some 2000 }

abbrev arena : ℕ → Arena
arena size = record {
  base = some 1000;
  size = size;
  used = 0;
  peak = 0;
  max_bytes = 65536;
  epoch = 1;
  grow_count = 0;
  owns_base = true;
}

-- An arena with no room for the string.
abbrev tight : Arena
tight = record {
  base = some 1000;
  size = 24;
  used = 24;
  peak = 24;
  max_bytes = 65536;
  epoch = 1;
  grow_count = 0;
  owns_base = true;
}

copied : (strdup moving tight 1).0 ≡ some 24
unfolding strdup alloc align_up alignment grow grown_size double_until
copied = refl

moved : same_block tight.base (strdup moving tight 1).1.base ≡ false
unfolding strdup alloc align_up alignment grow grown_size double_until
moved = refl

read_names-moved_example :
    (read_names moving tight.base 1
      (write_le32 5 ++ (write_le16 1 ++ ((65 ∷ []) ++ (0 ∷ []))))
      tight).0
    ≡ fault
read_names-moved_example =
    read_names-moved moving tight 0 5 24 (65 ∷ []) (0 ∷ []) (omega arith) copied moved

abbrev wave : Wave
wave = record {
  block_id = 7;
  window_id = 3;
  sample_count = 1;
  start_m = 0;
  step_m = 1065353216;
  samples = 1 ∷ 2 ∷ [];
  samples_owned = false;
  flags = 0;
}

abbrev bundle : Builder
bundle = record init { waves = record { items = wave ∷ []; cap = 8 } }

abbrev out : Buf
out = record { data_bytes = []; cap = 256; owned = true }

out-IsValid : IsValid out
out-IsValid = record { fits = omega arith; word = omega arith }

wave-IsWave : IsWave (block_of wave)
wave-IsWave = record {
  block_id_word = omega arith;
  window_id_word = omega arith;
  few_samples = omega arith;
  start_m_word = omega arith;
  step_m_word = omega arith;
  all_samples = refl;
  flags_word = omega arith;
  payload_crc_word = omega (arith, bit_and_mask 16 (crc32 (1 ∷ 2 ∷ [])));
}

room : (new_items still 1 40 8 (arena 4096)).0 ≡ ok tt
unfolding new_items calloc alloc align_up alignment
room = refl

decode_wave-append_example :
    decode_wave still (append_wave (λ n. true) bundle out).1.data_bytes (arena 4096)
    ≡ (ok (block_of wave ∷ []), (new_items still 1 40 8 (arena 4096)).1)
decode_wave-append_example =
    decode_wave-append (λ n. true) bundle out still (arena 4096) refl
      ((append_wave-Writes (λ n. true) bundle).works out out-IsValid (omega arith))
      (wave-IsWave, tt) (omega arith) room
