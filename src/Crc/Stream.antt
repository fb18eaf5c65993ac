-- ===== src/Crc/Stream.antt =====
-- CRC-32: the table against the shift register, and checksums of pieces.
use ray_vault.Base.{
  ℕ, zero, suc, ◌-◌, ◌*◌, ◌/◌, ◌%◌, ◌^◌, ◌<◌, ◌≡◌, refl, sym, ap, ap₂, ◌∙◌, ◌⊎◌, List, [], ◌∷◌,
  ◌++◌, All, arith, IsU8, IsU32, bit_and, bit_xor, inl, inr,
}
use ray_vault.Base.Bits.{bit_and_mask}
use ray_vault.Base.Xor.{
  xor_comm, xor_assoc, zero-xor, xor_self, xor-lt, xor_disjoint, half-xor, last-xor,
}
use ray_vault.Crc.{
  not32, table_bit, table_bits, crc_table, crc_byte, crc_bytes, crc32_update, crc32,
}
use native.Mathlib.Nat.{pow-suc, div-one, div-div-eq-div-mul}

and-one : (c : ℕ) → bit_and c 1 ≡ c % 2
and-one c = bit_and_mask 1 c

table_bit_even : (c : ℕ) → c % 2 ≡ 0 → table_bit c ≡ c / 2
unfolding table_bit
table_bit_even c h = ground (arith, and-one c)

table_bit_odd : (c : ℕ) → c % 2 ≡ 1 → table_bit c ≡ bit_xor 0xedb88320 (c / 2)
unfolding table_bit
table_bit_odd c h = ground (arith, and-one c)

abbrev poly : ℕ
poly = 0xedb88320

parity : (n : ℕ) → (n % 2 ≡ 0) ⊎ (n % 2 ≡ 1)
parity n = ground arith

cancel : (p a b : ℕ) → bit_xor (bit_xor p a) (bit_xor p b) ≡ bit_xor a b
cancel p a b =
    ap (λ (t : ℕ). bit_xor t (bit_xor p b)) (xor_comm p a)
    ∙ xor_assoc a p (bit_xor p b)
    ∙ ap (bit_xor a) (sym (xor_assoc p p b) ∙ ap (λ (t : ℕ). bit_xor t b) (xor_self p) ∙ zero-xor b)

-- Shifting the register is linear: one bit, then n bits.
table_bit-xor : (a b : ℕ) → table_bit (bit_xor a b) ≡ bit_xor (table_bit a) (table_bit b)
table_bit-xor a b = elim (parity a) [
  | inl a_even ↦ elim (parity b) [
    | inl b_even ↦
        table_bit_even (bit_xor a b) (omega (arith, last-xor a b))
        ∙ half-xor a b
        ∙ sym (ap₂ bit_xor (table_bit_even a a_even) (table_bit_even b b_even))
    | inr b_odd ↦
        table_bit_odd (bit_xor a b) (omega (arith, last-xor a b))
        ∙ ap (bit_xor poly) (half-xor a b)
        ∙ sym (xor_assoc poly (a / 2) (b / 2))
        ∙ ap (λ (t : ℕ). bit_xor t (b / 2)) (xor_comm poly (a / 2))
        ∙ xor_assoc (a / 2) poly (b / 2)
        ∙ sym (ap₂ bit_xor (table_bit_even a a_even) (table_bit_odd b b_odd))
  ]
  | inr a_odd ↦ elim (parity b) [
    | inl b_even ↦
        table_bit_odd (bit_xor a b) (omega (arith, last-xor a b))
        ∙ ap (bit_xor poly) (half-xor a b)
        ∙ sym (xor_assoc poly (a / 2) (b / 2))
        ∙ sym (ap₂ bit_xor (table_bit_odd a a_odd) (table_bit_even b b_even))
    | inr b_odd ↦
        table_bit_even (bit_xor a b) (omega (arith, last-xor a b))
        ∙ half-xor a b
        ∙ sym (cancel poly (a / 2) (b / 2))
        ∙ sym (ap₂ bit_xor (table_bit_odd a a_odd) (table_bit_odd b b_odd))
  ]
]

table_bits-xor :
    (n a b : ℕ) → table_bits n (bit_xor a b) ≡ bit_xor (table_bits n a) (table_bits n b)
unfolding table_bits
table_bits-xor zero a b = refl
table_bits-xor (suc n) a b = rw (table_bit-xor a b) (table_bits-xor n (table_bit a) (table_bit b))

-- Bits above the shifted ones only move down.
table_bits_high : (n h : ℕ) → table_bits n (h * 2 ^ n) ≡ h
unfolding table_bits
table_bits_high zero h = omega arith
table_bits_high (suc n) h =
    let e : h * 2 ^ suc n ≡ 2 * (h * 2 ^ n) = omega (arith, ap (λ (t : ℕ). h * t) (pow-suc 2 n)) in
    let half : table_bit (h * 2 ^ suc n) ≡ h * 2 ^ n =
      table_bit_even (h * 2 ^ suc n) (omega arith) ∙ omega arith in
    rw half (table_bits_high n h)

table_bit-lt : (c : ℕ) → IsU32 c → IsU32 (table_bit c)
unfolding table_bit
table_bit-lt c h = ground (arith, xor-lt 32 0xedb88320 (c / 2))

table_bits-lt : (n c : ℕ) → IsU32 c → IsU32 (table_bits n c)
unfolding table_bits
table_bits-lt zero c h = h
table_bits-lt (suc n) c h = table_bits-lt n (table_bit c) (table_bit-lt c h)

shift-xor : (k a b : ℕ) → bit_xor a b / 2 ^ k ≡ bit_xor (a / 2 ^ k) (b / 2 ^ k)
shift-xor zero a b = ground (arith, div-one (bit_xor a b), div-one a, div-one b)
shift-xor (suc k) a b =
    let halves : (x : ℕ) → x / 2 ^ suc k ≡ x / 2 / 2 ^ k = λ x.
      ap (λ (t : ℕ). x / t) (omega (arith, pow-suc 2 k)) ∙ sym (div-div-eq-div-mul x 2 (2 ^ k)) in
    halves (bit_xor a b)
    ∙ ap (λ (t : ℕ). t / 2 ^ k) (half-xor a b)
    ∙ shift-xor k (a / 2) (b / 2)
    ∙ sym (ap₂ bit_xor (halves a) (halves b))

-- One byte by the table is eight bits of the shift register.
pub crc_byte_lem : (crc b : ℕ) → IsU32 crc → IsU8 b → crc_byte crc b ≡ table_bits 8 (bit_xor crc b)
unfolding crc_byte crc_table
crc_byte_lem crc b h k =
    let x : ℕ = bit_xor crc b in
    let high : x / 2 ^ 8 ≡ crc / 2 ^ 8 =
      shift-xor 8 crc b
      ∙ ap (bit_xor (crc / 2 ^ 8)) (omega arith)
      ∙ xor_comm (crc / 2 ^ 8) 0
      ∙ zero-xor (crc / 2 ^ 8) in
    let split : bit_xor (x % 2 ^ 8) (x / 2 ^ 8 * 2 ^ 8) ≡ x =
      xor_disjoint 8 (x % 2 ^ 8) (x / 2 ^ 8) (omega arith) ∙ omega arith in
    ap₂ (λ (s t : ℕ). bit_xor (table_bits 8 s) t) (bit_and_mask 8 x) (sym high)
    ∙ ap (bit_xor (table_bits 8 (x % 2 ^ 8))) (sym (table_bits_high 8 (x / 2 ^ 8)))
    ∙ sym (table_bits-xor 8 (x % 2 ^ 8) (x / 2 ^ 8 * 2 ^ 8))
    ∙ ap (table_bits 8) split

-- The checksum by a bitwise shift register, for a list of bytes.
pub register : ℕ → List ℕ → ℕ
register crc [] = crc
register crc (b ∷ bs) = register (table_bits 8 (bit_xor crc b)) bs

crc_byte-lt : (crc b : ℕ) → IsU32 crc → IsU8 b → IsU32 (crc_byte crc b)
crc_byte-lt crc b h k =
    rw (crc_byte_lem crc b h k) (table_bits-lt 8 (bit_xor crc b) (xor-lt 32 crc b h (omega arith)))

crc_bytes-lt : (crc : ℕ) (bs : List ℕ) → IsU32 crc → All IsU8 bs → IsU32 (crc_bytes crc bs)
unfolding crc_bytes
crc_bytes-lt crc [] h k = h
crc_bytes-lt crc (b ∷ bs) h k = crc_bytes-lt (crc_byte crc b) bs (crc_byte-lt crc b h k.0) k.1

crc_bytes-register :
    (crc : ℕ) (bs : List ℕ) → IsU32 crc → All IsU8 bs → crc_bytes crc bs ≡ register crc bs
unfolding crc_bytes register
crc_bytes-register crc [] h k = refl
crc_bytes-register crc (b ∷ bs) h k =
    rw (← crc_byte_lem crc b h k.0)
      (crc_bytes-register (crc_byte crc b) bs (crc_byte-lt crc b h k.0) k.1)

-- `rv_crc32_update` is the bitwise CRC-32 with the reflected polynomial 0xedb88320: the register,
-- complemented before and after, for every 32-bit checksum and list of bytes.
pub crc32_update-register :
    (crc : ℕ) (bs : List ℕ)
    → IsU32 crc
    → All IsU8 bs
    → crc32_update crc bs ≡ not32 (register (not32 crc) bs)
unfolding crc32_update
crc32_update-register crc bs h k =
    ap not32 (crc_bytes-register (not32 crc) bs (unfold not32 in omega arith) k)

crc_bytes-append :
    (crc : ℕ) (xs ys : List ℕ) → crc_bytes crc (xs ++ ys) ≡ crc_bytes (crc_bytes crc xs) ys
unfolding crc_bytes
crc_bytes-append crc [] ys = refl
crc_bytes-append crc (x ∷ xs) ys = crc_bytes-append (crc_byte crc x) xs ys

-- Two calls of `rv_crc32_update`, the second on the checksum of the first, give the checksum of the
-- two pieces together, where the first starts from 32 bits and its piece consists of bytes.
pub crc32_update-append :
    (crc : ℕ) (xs ys : List ℕ)
    → IsU32 crc
    → All IsU8 xs
    → crc32_update (crc32_update crc xs) ys ≡ crc32_update crc (xs ++ ys)
unfolding crc32_update not32
crc32_update-append crc xs ys h k =
    let r : ℕ = crc_bytes (2 ^ 32 - 1 - crc) xs in
    let small : r < 2 ^ 32 = crc_bytes-lt (2 ^ 32 - 1 - crc) xs (omega arith) k in
    let back : 2 ^ 32 - 1 - (2 ^ 32 - 1 - r) ≡ r = omega arith in
    ap (λ (t : ℕ). 2 ^ 32 - 1 - crc_bytes t ys) back
    ∙ ap (λ (t : ℕ). 2 ^ 32 - 1 - t) (sym (crc_bytes-append (2 ^ 32 - 1 - crc) xs ys))

-- A checksum has 32 bits.
pub crc32-lt : (bs : List ℕ) → IsU32 (crc32 bs)
unfolding crc32 crc32_update not32
crc32-lt bs = omega arith

pub crc32_update-lt : (crc : ℕ) (bs : List ℕ) → IsU32 (crc32_update crc bs)
unfolding crc32_update not32
crc32_update-lt crc bs = omega arith

pub crc32_update-nil : (crc : ℕ) → IsU32 crc → crc32_update crc [] ≡ crc
unfolding crc32_update not32 crc_bytes
crc32_update-nil crc h = omega (arith, h)
