-- ===== src/Endian/RoundTrip.antt =====
-- Reading back what src/internal/rv_endian.h wrote, and the ranges of what is read.
use ray_vault.Base.{
  ℕ, ◌+◌, ◌*◌, ◌/◌, ◌%◌, ◌^◌, ◌≡◌, List, ◌++◌, some, arith, IsU8, IsU16, IsU32, IsU64,
}
use ray_vault.Base.{◌>>>◌, u32}
use ray_vault.Base.Bits.{bit_or_disjoint}
use ray_vault.Endian.{join16, join32, join64, read_le16, read_le32, read_le64, read_f32}
use ray_vault.Endian.{write_le16, write_le32, write_le64, write_f32}

pub join16_sum : (a b : ℕ) → IsU8 a → join16 a b ≡ a + b * 2 ^ 8
unfolding join16
join16_sum a b h = bit_or_disjoint 8 a b h

pub join32_sum :
    (a b c d : ℕ)
    → IsU8 a
    → IsU8 b
    → IsU8 c
    → join32 a b c d ≡ a + b * 2 ^ 8 + c * 2 ^ 16 + d * 2 ^ 24
unfolding join32
join32_sum a b c d ha hb hc = rw (
  bit_or_disjoint 8 a b ha,
  bit_or_disjoint 16 (a + b * 2 ^ 8) c (omega arith),
  bit_or_disjoint 24 (a + b * 2 ^ 8 + c * 2 ^ 16) d (omega arith),
)

pub join64_sum : (lo hi : ℕ) → IsU32 lo → join64 lo hi ≡ lo + hi * 2 ^ 32
unfolding join64
join64_sum lo hi h = bit_or_disjoint 32 lo hi h

pub join32-lt : (a b c d : ℕ) → IsU8 a → IsU8 b → IsU8 c → IsU8 d → IsU32 (join32 a b c d)
join32-lt a b c d ha hb hc hd = omega (arith, join32_sum a b c d ha hb hc)

pub join32-bytes :
    (v : ℕ)
    → IsU32 v
    → join32 (v % 2 ^ 8) (v / 2 ^ 8 % 2 ^ 8) (v / 2 ^ 16 % 2 ^ 8) (v / 2 ^ 24 % 2 ^ 8) ≡ v
join32-bytes v h = omega (
  arith,
  join32_sum (v % 2 ^ 8) (v / 2 ^ 8 % 2 ^ 8) (v / 2 ^ 16 % 2 ^ 8) (v / 2 ^ 24 % 2 ^ 8) (omega arith)
      (omega arith) (omega arith),
)

pub read_le16-write : (v : ℕ) (rest : List ℕ) → IsU16 v → read_le16 (write_le16 v ++ rest) ≡ some v
unfolding read_le16
read_le16-write v rest h = ground (arith, join16_sum (v % 2 ^ 8) (v / 2 ^ 8 % 2 ^ 8))

pub read_le32-write : (v : ℕ) (rest : List ℕ) → IsU32 v → read_le32 (write_le32 v ++ rest) ≡ some v
unfolding read_le32
read_le32-write v rest h = ground (arith, join32-bytes v h)

pub read_f32-write : (v : ℕ) (rest : List ℕ) → IsU32 v → read_f32 (write_f32 v ++ rest) ≡ some v
unfolding read_f32
read_f32-write v rest h = read_le32-write v rest h

-- A 64-bit number that `rv_write_le64` stored is read back by `rv_read_le64`, whatever follows it.
pub read_le64-write : (v : ℕ) (rest : List ℕ) → IsU64 v → read_le64 (write_le64 v ++ rest) ≡ some v
unfolding read_le64
read_le64-write v rest h = ground (
  arith,
  join32-bytes (u32 v) (omega arith),
  join32-bytes (u32 (v >>> 32)) (omega arith),
  join64_sum (u32 v) (u32 (v >>> 32)) (omega arith),
)

pub join16-bytes : (v : ℕ) → IsU16 v → join16 (v % 2 ^ 8) (v / 2 ^ 8 % 2 ^ 8) ≡ v
join16-bytes v h = omega (arith, join16_sum (v % 2 ^ 8) (v / 2 ^ 8 % 2 ^ 8))

-- The two halves of a 64-bit number, as `write_le64` splits it.
pub join64-bytes :
    (v : ℕ)
    → IsU64 v
    → join64
        (join32
          (u32 v % 2 ^ 8)
          (u32 v / 2 ^ 8 % 2 ^ 8)
          (u32 v / 2 ^ 16 % 2 ^ 8)
          (u32 v / 2 ^ 24 % 2 ^ 8))
        (join32
          (u32 (v >>> 32) % 2 ^ 8)
          (u32 (v >>> 32) / 2 ^ 8 % 2 ^ 8)
          (u32 (v >>> 32) / 2 ^ 16 % 2 ^ 8)
          (u32 (v >>> 32) / 2 ^ 24 % 2 ^ 8))
      ≡ v
join64-bytes v h =
    rw (join32-bytes (u32 v) (omega arith), join32-bytes (u32 (v >>> 32)) (omega arith))
      (omega (arith, join64_sum (u32 v) (u32 (v >>> 32)) (omega arith)))
