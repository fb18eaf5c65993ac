-- ===== src/Section/Blobs/RoundTrip.antt =====
-- The WAVE section that src/internal/rv_builder.c emits, under its decoder in
-- src/internal/rv_section.c.
use ray_vault.Base.{
  ℕ, suc, ◌+◌, ◌*◌, ◌%◌, ◌≤◌, ◌≡◌, ◌==◌, refl, Bool, true, some, List, [], ◌∷◌, ◌++◌, append_assoc,
  append-nil, ap, ap₂, All, length, length-append, take-append, drop-append, take, drop, arith,
  bit_and,
}
use ray_vault.Arena.{Arena, Heap}
use ray_vault.Buf.{Buf}
use ray_vault.Buf.Writes.{concat_map}
use ray_vault.Crc.{crc32}
use ray_vault.Decoding.{ok, new_items}
use ray_vault.Endian.{split_at, read_le32}
use ray_vault.Endian.RoundTrip.{join32-bytes}
use ray_vault.Records.{WaveRec}
use ray_vault.Records.Bounds.{IsWave}
use ray_vault.Records.Bytes.{wave_head_bytes, wave_bytes}
use ray_vault.Records.Read.{read_wave}
use ray_vault.Records.RoundTrip.{read_wave-bytes}
use ray_vault.Builder.{Wave, Builder}
use ray_vault.Builder.Blobs.{append_wave, wave_image}
use ray_vault.Builder.Emitted.{append_wave-Writes}
use ray_vault.Section.Blobs.{skip_pad, read_waves, decode_wave}

pub even : (n : ℕ) → (n * 2 % 2 == 0) ≡ true
even n = ground arith

-- One round of the loop, on a block with `more` behind it.
read_waves-block :
    (w : WaveRec) (more : List ℕ) (n : ℕ) (ws : List WaveRec) (a : Arena)
    → IsWave w
    → read_waves n more a ≡ (ok ws, a)
    → read_waves (suc n) (wave_head_bytes w ++ (w.samples ++ more)) a ≡ (ok (w ∷ ws), a)
unfolding read_waves skip_pad split_at
read_waves-block w more n ws a v rest =
    let bytes : List ℕ = wave_head_bytes w ++ (w.samples ++ more) in
    let here : read_wave bytes ≡ some (record w { samples = [] }) =
      read_wave-bytes w (w.samples ++ more) v in
    let size : length (w.samples ++ more) ≡ w.sample_count * 2 + length more =
      omega (arith, length-append w.samples more, v.all_samples) in
    let samples : take (w.sample_count * 2) (w.samples ++ more) ≡ w.samples =
      rw (← v.all_samples) (take-append w.samples more) in
    let behind : drop (w.sample_count * 2) (w.samples ++ more) ≡ more =
      rw (← v.all_samples) (drop-append w.samples more) in
    ground (arith, here, size, samples, behind, even w.sample_count, rest)

pub read_waves-bytes :
    (ws : List WaveRec) (a : Arena)
    → All IsWave ws
    → read_waves (length ws) (concat_map wave_bytes ws) a ≡ (ok ws, a)
unfolding read_waves
read_waves-bytes [] a v = refl
read_waves-bytes (w ∷ ws) a v =
    rw (append_assoc (wave_head_bytes w) w.samples (concat_map wave_bytes ws)) (
      read_waves-block w (concat_map wave_bytes ws) (length ws) ws a v.0
        (read_waves-bytes ws a v.1))

-- What the file keeps of a wave.
abbrev pub block_of : Wave → WaveRec
block_of w = record {
  block_id = w.block_id;
  window_id = w.window_id;
  sample_count = w.sample_count;
  start_m = w.start_m;
  step_m = w.step_m;
  samples = take (w.sample_count * 2) w.samples;
  flags = w.flags;
  payload_crc = bit_and (crc32 (take (w.sample_count * 2) w.samples)) 0xffff;
}

abbrev pub blocks_of : List Wave → List WaveRec
blocks_of [] = []
blocks_of (w ∷ ws) = block_of w ∷ blocks_of ws

length-blocks_of : (ws : List Wave) → length (blocks_of ws) ≡ length ws
length-blocks_of [] = refl
length-blocks_of (w ∷ ws) = ap suc (length-blocks_of ws)

wave_image-block : (w : Wave) → wave_image w ≡ wave_bytes (block_of w)
wave_image-block w = rw (even w.sample_count, append-nil) refl

concat_map-blocks_of :
    (ws : List Wave) → concat_map wave_image ws ≡ concat_map wave_bytes (blocks_of ws)
concat_map-blocks_of [] = refl
concat_map-blocks_of (w ∷ ws) = ap₂ ◌++◌ (wave_image-block w) (concat_map-blocks_of ws)

read_waves-images :
    (ws : List Wave) (a : Arena)
    → All IsWave (blocks_of ws)
    → read_waves (length ws) (concat_map wave_image ws) a ≡ (ok (blocks_of ws), a)
read_waves-images ws a v =
    rw (concat_map-blocks_of ws, ← length-blocks_of ws) (read_waves-bytes (blocks_of ws) a v)

module _ (grants : ℕ → Bool) (b : Builder) (out : Buf) (h : Heap) (a : Arena) where
  -- If the builder's WAVE section was written to an empty buffer, its decoder gives back each wave's
  -- fields, the samples that its count announces and the low half of their checksum, where there are
  -- at most 50000 waves, each field fits its type, a wave has its samples and at most two million of
  -- them, and the arena has room.
  pub decode_wave-append :
      out.data_bytes ≡ []
      → (append_wave grants b out).0 ≡ true
      → All IsWave (blocks_of b.waves.items)
      → length b.waves.items ≤ 50000
      → (new_items h (length b.waves.items) 40 8 a).0 ≡ ok tt
      → decode_wave h (append_wave grants b out).1.data_bytes a
        ≡ (ok (blocks_of b.waves.items), (new_items h (length b.waves.items) 40 8 a).1)
  unfolding decode_wave new_items read_le32
  decode_wave-append empty written fields few room =
      let ws = b.waves.items in
      let rows = read_waves-images ws (new_items h (length ws) 40 8 a).1 fields in
      rw ((append_wave-Writes grants b).puts out written, empty)
        (ground
          (arith, rows, room, join32-bytes 0x31455641 (omega arith), join32-bytes (length ws)))
