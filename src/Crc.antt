-- ===== src/Crc.antt =====
-- src/internal/rv_crc.c: CRC-32 by table, and the hashes FNV-1a (64 bits) and the dictionary's.
-- The table is computed where the source fills it once.
pub mod Stream
mod Examples
use ray_vault.Base.{ℕ, zero, suc, ◌+◌, ◌-◌, ◌*◌, ◌/◌, ◌%◌, ◌^◌, ◌==◌, if◌then◌else◌, List, [], ◌∷◌}
use ray_vault.Base.{◌≡◌, refl, bit_and, bit_xor, ◌>>>◌, u32, u64}

-- `~crc` on 32 bits.
pub not32 : ℕ → ℕ
not32 x = 2 ^ 32 - 1 - x

-- One bit of `rv_crc_init_table`.
pub table_bit : ℕ → ℕ
table_bit c = if bit_and c 1 == 0 then c >>> 1 else bit_xor 0xedb88320 (c >>> 1)

pub table_bits : ℕ → ℕ → ℕ
table_bits zero c = c
table_bits (suc j) c = table_bits j (table_bit c)

-- `rv_crc_table[i]`.
pub crc_table : ℕ → ℕ
crc_table i = table_bits 8 i

-- One byte of `rv_crc32_update`.
pub crc_byte : ℕ → ℕ → ℕ
crc_byte crc b = bit_xor (crc_table (bit_and (bit_xor crc b) 0xff)) (crc >>> 8)

pub crc_bytes : ℕ → List ℕ → ℕ
crc_bytes crc [] = crc
crc_bytes crc (b ∷ bs) = crc_bytes (crc_byte crc b) bs

unfoldable pub crc32_update : ℕ → List ℕ → ℕ
unfolding not32 table_bit table_bits crc_table crc_byte crc_bytes
crc32_update crc bytes = not32 (crc_bytes (not32 crc) bytes)

unfoldable pub crc32 : List ℕ → ℕ
unfolding crc32_update
crc32 bytes = crc32_update 0 bytes

fnv_bytes : ℕ → List ℕ → ℕ
fnv_bytes h [] = h
fnv_bytes h (b ∷ bs) = fnv_bytes (u64 (bit_xor h b * 1099511628211)) bs

pub fnv1a64 : List ℕ → ℕ
unfolding fnv_bytes
fnv1a64 bytes = fnv_bytes 14695981039346656037 bytes

hash_bytes : ℕ → List ℕ → ℕ
hash_bytes h [] = h
hash_bytes h (b ∷ bs) = hash_bytes (u32 (bit_xor h b * 0x01000193)) bs

unfoldable pub hash32 : List ℕ → ℕ
unfolding hash_bytes
hash32 bytes =
    let h = hash_bytes 0x811c9dc5 bytes in
    let h = bit_xor h (h >>> 13) in let h = u32 (h * 0x5bd1e995) in bit_xor h (h >>> 15)
