-- ===== src/Base/Xor.antt =====
-- `^` on unbounded numbers, one binary digit at a time, and its laws.
use Prim.Native.Nat.{
  ℕ, zero, suc, ◌+◌, ◌*◌, ◌/◌, ◌%◌, ◌^◌, ◌≤◌, ◌<◌, bit_xor, bitwise, bit_xor-bitwise, differ,
}
use mathlib.Core.Path.{◌≡◌, refl, ap, ◌∙◌}
use native.Mathlib.Nat.{le_refl, pow-suc}
use native.Mathlib.Omega.{arith}
use ray_vault.Base.Bits.{lowest_digit}

-- The digit of `^`: whether two digits differ.
differ_digit : (x y : ℕ) → x < 2 → y < 2 → differ x y ≡ (x + y) % 2
differ_digit zero zero h k = refl
differ_digit zero (suc zero) h k = refl
differ_digit (suc zero) zero h k = refl
differ_digit (suc zero) (suc zero) h k = refl
differ_digit zero (suc (suc y)) h k = absurd (omega arith)
differ_digit (suc zero) (suc (suc y)) h k = absurd (omega arith)
differ_digit (suc (suc x)) y h k = absurd (omega arith)

pub bit_xor_digit : (a b : ℕ) → bit_xor a b ≡ bit_xor (a / 2) (b / 2) * 2 + (a % 2 + b % 2) % 2
bit_xor_digit zero b = simp bit_xor-bitwise (omega arith)
bit_xor_digit (suc a) b = simp bit_xor-bitwise (
    lowest_digit (λ y. y) differ (suc a) b (omega arith)
    ∙ ap (λ (t : ℕ). bitwise (λ y. y) differ (suc a / 2) (b / 2) * 2 + t)
        (differ_digit (suc a % 2) (b % 2) (omega arith) (omega arith)))

xor_comm_fuel : (n a b : ℕ) → a ≤ n → b ≤ n → bit_xor a b ≡ bit_xor b a
xor_comm_fuel zero zero zero h k = refl
xor_comm_fuel zero zero (suc b) h k = absurd (omega arith)
xor_comm_fuel zero (suc a) b h k = absurd (omega arith)
xor_comm_fuel (suc n) a b h k = omega (
  arith,
  bit_xor_digit a b,
  bit_xor_digit b a,
  xor_comm_fuel n (a / 2) (b / 2) (omega arith) (omega arith),
)

pub xor_comm : (a b : ℕ) → bit_xor a b ≡ bit_xor b a
xor_comm a b = xor_comm_fuel (a + b) a b (omega arith) (omega arith)

-- The half and the last digit of an exclusive or.
pub half-xor : (a b : ℕ) → bit_xor a b / 2 ≡ bit_xor (a / 2) (b / 2)
half-xor a b = omega (arith, bit_xor_digit a b)

pub last-xor : (a b : ℕ) → bit_xor a b % 2 ≡ (a % 2 + b % 2) % 2
last-xor a b = omega (arith, bit_xor_digit a b)

xor_assoc_fuel :
    (n a b c : ℕ) → a ≤ n → b ≤ n → c ≤ n → bit_xor (bit_xor a b) c ≡ bit_xor a (bit_xor b c)
xor_assoc_fuel zero zero zero zero h k l = refl
xor_assoc_fuel zero zero zero (suc c) h k l = absurd (omega arith)
xor_assoc_fuel zero zero (suc b) c h k l = absurd (omega arith)
xor_assoc_fuel zero (suc a) b c h k l = absurd (omega arith)
xor_assoc_fuel (suc n) a b c h k l = omega (
  arith,
  bit_xor_digit (bit_xor a b) c,
  bit_xor_digit a (bit_xor b c),
  last-xor a b,
  last-xor b c,
  ap (λ (t : ℕ). bit_xor t (c / 2)) (half-xor a b),
  ap (bit_xor (a / 2)) (half-xor b c),
  xor_assoc_fuel n (a / 2) (b / 2) (c / 2) (omega arith) (omega arith) (omega arith),
)

pub xor_assoc : (a b c : ℕ) → bit_xor (bit_xor a b) c ≡ bit_xor a (bit_xor b c)
xor_assoc a b c = xor_assoc_fuel (a + b + c) a b c (omega arith) (omega arith) (omega arith)

pub zero-xor : (b : ℕ) → bit_xor 0 b ≡ b
zero-xor b = simp bit_xor-bitwise

xor_self_fuel : (n a : ℕ) → a ≤ n → bit_xor a a ≡ 0
xor_self_fuel zero zero h = refl
xor_self_fuel zero (suc a) h = absurd (omega arith)
xor_self_fuel (suc n) a h = omega (arith, bit_xor_digit a a, xor_self_fuel n (a / 2) (omega arith))

pub xor_self : (a : ℕ) → bit_xor a a ≡ 0
xor_self a = xor_self_fuel a a (le_refl a)

-- An exclusive or of k bits has k bits.
pub xor-lt : (k a b : ℕ) → a < 2 ^ k → b < 2 ^ k → bit_xor a b < 2 ^ k
xor-lt zero zero zero h l = omega arith
xor-lt zero (suc a) b h l = absurd (omega arith)
xor-lt zero zero (suc b) h l = absurd (omega arith)
xor-lt (suc k) a b h l = omega (
  arith,
  pow-suc 2 k,
  bit_xor_digit a b,
  xor-lt k (a / 2) (b / 2) (omega (arith, pow-suc 2 k)) (omega (arith, pow-suc 2 k)),
)

-- The bits below k and those from k on.
pub xor_disjoint : (k low high : ℕ) → low < 2 ^ k → bit_xor low (high * 2 ^ k) ≡ low + high * 2 ^ k
xor_disjoint zero low high h = ground (arith, zero-xor high)
xor_disjoint (suc k) low high h = ground (
  arith,
  bit_xor_digit low (high * 2 ^ suc k),
  pow-suc 2 k,
  ap (λ (t : ℕ). high * t) (pow-suc 2 k),
  xor_disjoint k (low / 2) high (omega arith),
)
