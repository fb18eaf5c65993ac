-- ===== src/Endian.antt =====
-- src/internal/rv_endian.h: little-endian reads and writes.
-- A pointer into an array of bytes is the list of the bytes from there to the end of the array;
-- `none` is a read past the end. A float is the 32 bits that `memcpy` moves.
pub mod RoundTrip
mod Examples
pub mod Inside
use ray_vault.Base.{
  ltb, if◌then◌else◌, length, take, drop, ℕ, List, ◌∷◌, ◌++◌, [], Option, none, some, bit_or, u8,
  u32, ◌<<<◌, ◌>>>◌,
}

-- The bytes of a number put together by `|` and `<<`.
unfoldable pub join16 : ℕ → ℕ → ℕ
join16 a b = bit_or a (b <<< 8)

unfoldable pub join32 : ℕ → ℕ → ℕ → ℕ → ℕ
join32 a b c d = bit_or (bit_or (bit_or a (b <<< 8)) (c <<< 16)) (d <<< 24)

unfoldable pub join64 : ℕ → ℕ → ℕ
join64 lo hi = bit_or lo (hi <<< 32)

unfoldable pub read_le16 : List ℕ → Option ℕ
read_le16 (a ∷ b ∷ p) = some (join16 a b)
read_le16 _ = none

unfoldable pub read_le32 : List ℕ → Option ℕ
read_le32 (a ∷ b ∷ c ∷ d ∷ p) = some (join32 a b c d)
read_le32 _ = none

unfoldable pub read_le64 : List ℕ → Option ℕ
read_le64 (a ∷ b ∷ c ∷ d ∷ e ∷ f ∷ g ∷ h ∷ p) = some (join64 (join32 a b c d) (join32 e f g h))
read_le64 _ = none

unfoldable pub read_f32 : List ℕ → Option ℕ
read_f32 p = read_le32 p

-- The n bytes at a pointer, and the bytes behind them.
unfoldable pub split_at : ℕ → List ℕ → Option (List ℕ × List ℕ)
split_at n p = if ltb (length p) n then none else some (take n p, drop n p)

-- The bytes that a write stores from `p` on.
abbrev pub write_le16 : ℕ → List ℕ
write_le16 v = u8 v ∷ u8 (v >>> 8) ∷ []

abbrev pub write_le32 : ℕ → List ℕ
write_le32 v = u8 v ∷ u8 (v >>> 8) ∷ u8 (v >>> 16) ∷ u8 (v >>> 24) ∷ []

abbrev pub write_le64 : ℕ → List ℕ
write_le64 v = write_le32 (u32 v) ++ write_le32 (u32 (v >>> 32))

abbrev pub write_f32 : ℕ → List ℕ
write_f32 f = write_le32 f
