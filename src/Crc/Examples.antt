-- ===== src/Crc/Examples.antt =====
-- The checksum of the digits 1 to 9.
use ray_vault.Base.{ℕ, List, [], ◌∷◌, ◌≡◌, refl, All, IsU8, arith}
use ray_vault.Crc.{crc32, crc32_update, not32}
use ray_vault.Crc.Stream.{register, crc32_update-register}

abbrev digits : List ℕ
digits = 0x31 ∷ 0x32 ∷ 0x33 ∷ 0x34 ∷ 0x35 ∷ 0x36 ∷ 0x37 ∷ 0x38 ∷ 0x39 ∷ []

-- The check value of CRC-32.
crc_check : crc32 digits ≡ 0xcbf43926
unfolding crc32
crc_check = refl

digits-IsU8 : All IsU8 digits
digits-IsU8 = ground arith

crc32_update-register_example : crc32_update 0 digits ≡ not32 (register (not32 0) digits)
crc32_update-register_example = crc32_update-register 0 digits (omega arith) digits-IsU8
