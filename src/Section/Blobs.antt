-- ===== src/Section/Blobs.antt =====
-- src/internal/rv_section.c: the decoders of SNAM and WAVE, whose records vary in size.
-- `rem` is the length of the bytes that are left. A name's string is its bytes, which the decoder
-- copies into the arena; the samples of a wave are the bytes of the payload that it borrows.
pub mod Inside
pub mod RoundTrip
pub mod Faults
mod Examples
use ray_vault.Base.{
  ℕ, zero, suc, ◌+◌, ◌-◌, ◌*◌, ◌%◌, ◌^◌, Bool, true, false, not, ◌&&◌, ◌==◌, ltb, if◌then◌else◌,
  Option, none, some, List, [], ◌∷◌, length, get_elem?, set, take, drop, replicate, bit_and, u32,
  u64,
}
use ray_vault.Arena.{Arena, Heap, calloc, strdup}
use ray_vault.Crc.{hash32}
use ray_vault.Endian.{split_at, read_le16, read_le32, read_f32}
use ray_vault.Records.{WaveRec}
use ray_vault.Records.Read.{read_wave}
use ray_vault.Decoding.{
  Result, ok, err, fault, Decoder, ◌>>=◌, ◌>>◌, done, fail_if, load, new_items, current, touch,
}

pub record NameEntry : Type 0 where
  pub id : ℕ
  pub hash : ℕ
  pub str : List ℕ

-- The decoded SNAM, in the block `block` of the arena. `bucket_mask` is the number of buckets less 1.
pub record SnamTable : Type 0 where
  pub entries : List NameEntry
  pub bucket : List ℕ
  pub bucket_mask : ℕ
  pub block : Option ℕ

-- `rv_read_lp_string`: the string, which the decoder then copies, and the bytes behind it. A string
-- that reaches past the payload is a fault.
unfoldable pub read_lp_string : List ℕ → Decoder (List ℕ × List ℕ)
read_lp_string p = do
  fail_if (ltb (length p) 2)
  n ← load (read_le16 p)
  fail_if (ltb (length p) (n + 2))
  load (split_at n (drop 2 p))

-- `rv_arena_strdup` of n bytes, which fails the decoder where it gives NULL.
unfoldable pub new_string : Heap → ℕ → Decoder (Unit {0})
new_string h n a =
    let (copy, a') = strdup h a n in elim copy [ some p ↦ (ok tt, a') | none ↦ (err, a') ]

-- The padding behind a string of odd length. `rem--` on 0 is a fault.
unfoldable pub skip_odd : ℕ → List ℕ → Decoder (List ℕ)
skip_odd used p =
    if used % 2 == 0
    then done p
    else (fail_if (length p == 0) >> (load (split_at 1 p) >>= λ parts. done parts.1))

-- The loop over the names; `ents` is the block of the array of entries.
unfoldable pub read_names : Heap → Option ℕ → ℕ → List ℕ → Decoder (List NameEntry)
read_names h ents zero p = done []
read_names h ents (suc n) p = do
  fail_if (ltb (length p) 4)
  id ← load (read_le32 p)
  touch ents
  (str, behind) ← read_lp_string (drop 4 p)
  new_string h (length str)
  touch ents
  rest ← skip_odd (2 + length str) behind
  more ← read_names h ents n rest
  done (record { id = id; hash = hash32 str; str = str } ∷ more)

-- `while (buckets < count * 2u + 8u) buckets <<= 1;`
unfoldable pub bucket_count : ℕ → ℕ → ℕ → ℕ
bucket_count zero need buckets = buckets
bucket_count (suc fuel) need buckets = elim (ltb buckets need) [
  | false ↦ buckets
  | true ↦ bucket_count fuel need (u32 (buckets * 2))
]

-- A cell of the buckets; the mask keeps each index in range, where a cell outside would read as 0.
unfoldable pub cell : List ℕ → ℕ → ℕ
cell bucket slot = elim (get_elem? bucket slot) [ none ↦ 0 | some c ↦ c ]

-- The probing loop of the insertion; `left` is the number of probes that it still has.
unfoldable pub free_slot : ℕ → List ℕ → ℕ → ℕ → ℕ
free_slot zero bucket mask slot = slot
free_slot (suc left) bucket mask slot = elim (cell bucket slot == 0) [
  | true ↦ slot
  | false ↦ free_slot left bucket mask (bit_and (u32 (slot + 1)) mask)
]

-- The loop that enters the names from position i on.
unfoldable pub fill_buckets : ℕ → ℕ → ℕ → List NameEntry → List ℕ → List ℕ
fill_buckets buckets mask i [] bucket = bucket
fill_buckets buckets mask i (e ∷ es) bucket =
    fill_buckets buckets mask (i + 1) es
      (set bucket (free_slot buckets bucket mask (bit_and e.hash mask)) (i + 1))

-- The table in the block that the arena has now.
unfoldable pub snam_of : List NameEntry → ℕ → Option ℕ → SnamTable
unfolding cell free_slot fill_buckets
snam_of entries buckets block = record {
  entries = entries;
  bucket = fill_buckets buckets (buckets - 1) 0 entries (replicate buckets 0);
  bucket_mask = buckets - 1;
  block = block;
}

-- `rv_decode_snam` behind the array of entries, which is `ents`.
unfoldable pub decode_names : Heap → ℕ → List ℕ → Option ℕ → Decoder SnamTable
decode_names h count p ents = do
  entries ← read_names h ents count p
  let buckets = bucket_count 33 (u32 (count * 2 + 8)) 1
  new_items h buckets 4 4
  (if count == 0 then done tt else touch ents)
  block ← current
  done (snam_of entries buckets block)

unfoldable pub decode_snam : Heap → List ℕ → Decoder SnamTable
decode_snam h payload = do
  fail_if (ltb (length payload) 8)
  m ← load (read_le32 payload)
  fail_if (not (m == 0x314d414e))
  count ← load (read_le32 (drop 4 payload))
  fail_if (ltb 100000 count)
  new_items h count 24 8
  ents ← current
  decode_names h count (drop 8 payload) ents

-- The padding behind an odd number of sample bytes; the last block may lack it.
pub skip_pad : ℕ → ℕ → List ℕ → Decoder (List ℕ)
skip_pad bytes left p =
    if bytes % 2 == 0
    then done p
    else (fail_if (length p == 0 && not (left == 0)) >> done (drop 1 p))

-- The loop over the blocks. Samples that reach past the payload are a fault.
unfoldable pub read_waves : ℕ → List ℕ → Decoder (List WaveRec)
read_waves zero p = done []
read_waves (suc n) p = do
  fail_if (ltb (length p) 24)
  w ← load (read_wave p)
  fail_if (ltb 2000000 w.sample_count)
  fail_if (ltb (length p - 24) (w.sample_count * 2))
  (samples, behind) ← load (split_at (w.sample_count * 2) (drop 24 p))
  rest ← skip_pad (w.sample_count * 2) n behind
  more ← read_waves n rest
  done (record w { samples = samples } ∷ more)

unfoldable pub decode_wave : Heap → List ℕ → Decoder (List WaveRec)
decode_wave h payload = do
  fail_if (ltb (length payload) 8)
  m ← load (read_le32 payload)
  fail_if (not (m == 0x31455641))
  count ← load (read_le32 (drop 4 payload))
  fail_if (ltb 50000 count)
  new_items h count 40 8
  read_waves count (drop 8 payload)
