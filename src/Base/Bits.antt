-- ===== src/Base/Bits.antt =====
-- `|` and `&` on unbounded numbers, one binary digit at a time, and the laws the code rests on.
use Prim.Native.Nat.{ℕ, zero, suc, ◌+◌, ◌-◌, ◌*◌, ◌/◌, ◌%◌, ◌^◌, ◌≤◌, ◌<◌, min, max}
use Prim.Native.Nat.{bit_and, bit_or, digits, bitwise, bit_and-bitwise, bit_or-bitwise}
use mathlib.Core.Path.{◌≡◌, refl, ap}
use mathlib.Core.Logic.{◌⊎◌, inl, inr}
use native.Mathlib.Nat.{le_refl, pow-suc, one-le-pow, div-add-mod'}
use native.Mathlib.Omega.{arith}

-- Fuel beyond the first operand changes nothing.
module _ (low : ℕ → ℕ) (op : ℕ → ℕ → ℕ) where
  spare_fuel :
      (more enough x y : ℕ)
      → x ≤ enough
      → enough ≤ more
      → digits low op more x y ≡ digits low op enough x y
  spare_fuel (suc m) (suc n) (suc x) y h k =
      rw (spare_fuel m n (suc x / 2) (y / 2) (omega arith) (omega arith))
  spare_fuel (suc m) (suc n) zero y h k = refl
  spare_fuel (suc m) zero zero y h k = refl
  spare_fuel zero zero zero y h k = refl
  spare_fuel zero (suc n) x y h k = absurd (omega arith)
  spare_fuel m zero (suc x) y h k = absurd (omega arith)

  -- The lowest digit of a positive number is worked on by itself.
  pub lowest_digit :
      (x y : ℕ)
      → 0 < x
      → bitwise low op x y ≡ bitwise low op (x / 2) (y / 2) * 2 + op (x % 2) (y % 2)
  lowest_digit zero y h = absurd (omega arith)
  lowest_digit (suc x) y h =
      let half = suc x / 2 in
      omega (arith, spare_fuel x half half (y / 2) (le_refl half) (omega arith))

pub bit_or_digit : (x y : ℕ) → bit_or x y ≡ bit_or (x / 2) (y / 2) * 2 + max (x % 2) (y % 2)
bit_or_digit (suc x) y = simp bit_or-bitwise (lowest_digit (λ d. d) max (suc x) y (omega arith))
bit_or_digit zero y = simp bit_or-bitwise (omega arith)

pub bit_and_digit : (x y : ℕ) → bit_and x y ≡ bit_and (x / 2) (y / 2) * 2 + min (x % 2) (y % 2)
bit_and_digit (suc x) y = simp bit_and-bitwise (lowest_digit (λ d. 0) min (suc x) y (omega arith))
bit_and_digit zero y = simp bit_and-bitwise (omega arith)

pub zero-bit_or : (b : ℕ) → bit_or 0 b ≡ b
zero-bit_or b = simp bit_or-bitwise

-- `low | (high << k)` is a sum when `low` has k bits.
pub bit_or_disjoint :
    (k low high : ℕ) → low < 2 ^ k → bit_or low (high * 2 ^ k) ≡ low + high * 2 ^ k
bit_or_disjoint zero low high h = ground (arith, zero-bit_or high)
bit_or_disjoint (suc k) low high h = ground (
  arith,
  bit_or_digit low (high * 2 ^ suc k),
  pow-suc 2 k,
  ap (λ (t : ℕ). high * t) (pow-suc 2 k),
  bit_or_disjoint k (low / 2) high (omega arith),
)

bit_and_self_fuel : (n a : ℕ) → a ≤ n → bit_and a a ≡ a
bit_and_self_fuel zero zero h = refl
bit_and_self_fuel zero (suc a) h = absurd (omega arith)
bit_and_self_fuel (suc n) zero h = refl
bit_and_self_fuel (suc n) (suc a) h =
    omega (arith, bit_and_digit (suc a) (suc a), bit_and_self_fuel n (suc a / 2) (omega arith))

pub bit_and_self : (a : ℕ) → bit_and a a ≡ a
bit_and_self a = bit_and_self_fuel a a (le_refl a)

pub bit_and-ones : (k x : ℕ) → x < 2 ^ k → bit_and x (2 ^ k - 1) ≡ x
bit_and-ones zero zero h = refl
bit_and-ones zero (suc x) h = absurd (omega arith)
bit_and-ones (suc k) x h = ground (
  arith,
  pow-suc 2 k,
  one-le-pow k 2,
  bit_and_digit x (2 ^ suc k - 1),
  bit_and-ones k (x / 2) (omega (arith, pow-suc 2 k)),
)

bit_and-zero_fuel : (n a : ℕ) → a ≤ n → bit_and a 0 ≡ 0
bit_and-zero_fuel zero zero h = refl
bit_and-zero_fuel zero (suc a) h = absurd (omega arith)
bit_and-zero_fuel (suc n) a h =
    omega (arith, bit_and_digit a 0, bit_and-zero_fuel n (a / 2) (omega arith))

bit_and_low : (k high low : ℕ) → low < 2 ^ k → bit_and (high * 2 ^ k + low) (2 ^ k - 1) ≡ low
bit_and_low zero high low h =
    omega (arith, bit_and-zero_fuel (high * 2 ^ 0 + low) (high * 2 ^ 0 + low) (le_refl _))
bit_and_low (suc k) high low h =
    let doubled : high * 2 ^ suc k ≡ 2 * (high * 2 ^ k) =
      omega (arith, ap (λ (t : ℕ). high * t) (pow-suc 2 k)) in
    ground (
      arith,
      pow-suc 2 k,
      one-le-pow k 2,
      doubled,
      bit_and_digit (high * 2 ^ suc k + low) (2 ^ suc k - 1),
      bit_and_low k high (low / 2),
    )

-- A mask of k ones keeps the last k bits.
pub bit_and_mask : (k a : ℕ) → bit_and a (2 ^ k - 1) ≡ a % 2 ^ k
bit_and_mask k a =
    ground (arith, one-le-pow k 2, bit_and_low k (a / 2 ^ k) (a % 2 ^ k), div-add-mod' a (2 ^ k))

-- `a & (a - 1)` is 0 for no odd number but 1.
odd_power_of_two : (a : ℕ) → a % 2 ≡ 1 → bit_and a (a - 1) ≡ 0 → a ≡ 1
odd_power_of_two a o h =
    let e : (a - 1) / 2 ≡ a / 2 = omega arith in
    omega (arith, bit_and_digit a (a - 1), bit_and_self (a / 2), ap (bit_and (a / 2)) e)

half_power_of_two :
    (a : ℕ) → 0 < a → a % 2 ≡ 0 → bit_and a (a - 1) ≡ 0 → bit_and (a / 2) (a / 2 - 1) ≡ 0
half_power_of_two a p o h =
    let e : (a - 1) / 2 ≡ a / 2 - 1 = omega arith in
    omega (arith, bit_and_digit a (a - 1), ap (bit_and (a / 2)) e)

-- With `a & (a - 1) == 0`, the mask `~(a - 1)` of k bits rounds down to a multiple of a.
pub mask_down :
    (k x a : ℕ)
    → 0 < a
    → a < 2 ^ k
    → x < 2 ^ k
    → bit_and a (a - 1) ≡ 0
    → (q : ℕ) × (bit_and x (2 ^ k - a) ≡ q * a) × (q * a ≤ x) × (x < q * a + a)
mask_down zero x a p ha hx h = absurd (omega arith)
mask_down (suc k) x a p ha hx h = elim (parity a) [
  | inr odd ↦
      let one : a ≡ 1 = odd_power_of_two a odd h in
      let m : x * a ≡ x * 1 = ap (λ (t : ℕ). x * t) one in
      (x, rw one (omega (arith, bit_and-ones (suc k) x hx)), omega arith, omega arith)
  | inl even ↦
      let s = pow-suc 2 k in
      let e : (2 ^ suc k - a) / 2 ≡ 2 ^ k - a / 2 = omega arith in
      let (q, ih, lo, hi) =
        mask_down k (x / 2) (a / 2) (omega arith) (omega arith) (omega arith)
          (half_power_of_two a p even h) in
      let d : q * a ≡ 2 * (q * (a / 2)) = omega (arith, ap (λ (t : ℕ). q * t) (half a even)) in
      (
        q,
        omega (arith, bit_and_digit x (2 ^ suc k - a), ap (bit_and (x / 2)) e),
        omega arith,
        omega arith,
      )
]
  where
    parity : (n : ℕ) → (n % 2 ≡ 0) ⊎ (n % 2 ≡ 1)
    parity n = ground arith

    half : (n : ℕ) → n % 2 ≡ 0 → n ≡ 2 * (n / 2)
    half n z = omega arith
