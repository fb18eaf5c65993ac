-- ===== src/Arena/Align.antt =====
-- `rv_align_up`: the next multiple of the alignment, on the mask path and on the division path.
use ray_vault.Base.{ℕ, ◌+◌, ◌-◌, ◌*◌, ◌/◌, ◌%◌, ◌^◌, ◌≤◌, ◌<◌, ◌≡◌, ap, arith, bit_and, inl, inr}
use ray_vault.Base.{◌==◌, Bool-cases, ==→eq, ==→ne, le→ltb, ◌≢◌, ◌∙◌, u64}
use ray_vault.Base.Bits.{mask_down}
use native.Mathlib.Nat.{div-add-mod}
use ray_vault.Arena.{align_up}

-- `r` is the least multiple of `align` from `v` on.
abbrev pub IsAligned : ℕ → ℕ → ℕ → Type 0
IsAligned align v r = (q : ℕ) × (r ≡ q * align) × (v ≤ r) × (r < v + align)

mask_path :
    (v align : ℕ)
    → 0 < align
    → v + align < 2 ^ 64
    → bit_and align (align - 1) ≡ 0
    → IsAligned align v (bit_and (u64 (v + (align - 1))) (2 ^ 64 - 1 - (align - 1)))
mask_path v align p fits h =
    let x : ℕ = u64 (v + (align - 1)) in
    let e : 2 ^ 64 - 1 - (align - 1) ≡ 2 ^ 64 - align = omega arith in
    let (q, r, lo, hi) = mask_down 64 x align p (omega arith) (omega arith) h in
    let r' : bit_and x (2 ^ 64 - 1 - (align - 1)) ≡ q * align = ap (bit_and x) e ∙ r in
    (q, r', omega arith, omega arith)

exact_path : (v align : ℕ) → 0 < align → v % align ≡ 0 → IsAligned align v v
exact_path v align p h = (v / align, omega (arith, div-add-mod v align), omega arith, omega arith)

next_path :
    (v align : ℕ)
    → 0 < align
    → v + align < 2 ^ 64
    → v % align ≢ 0
    → IsAligned align v (u64 (v + (align - v % align)))
next_path v align p fits h =
    let m : v % align < align = omega arith in
    (v / align + 1, omega (arith, div-add-mod v align), omega arith, omega arith)

-- For every positive alignment, a power of two or not, `rv_align_up` rounds up to the least multiple
-- that is not below the value, where the value and the alignment have a sum below 2^64.
pub align_up_lem :
    (v align : ℕ) → 0 < align → v + align < 2 ^ 64 → IsAligned align v (align_up v align)
unfolding align_up
align_up_lem v align p fits =
    rw (le→ltb align 1 p) (elim (Bool-cases (bit_and align (align - 1) == 0)) [
      | inl pow ↦ rw pow (mask_path v align p fits (==→eq _ 0 pow))
      | inr other ↦ rw other (elim (Bool-cases (v % align == 0)) [
        | inl exact ↦ rw exact (exact_path v align p (==→eq _ 0 exact))
        | inr rest ↦ rw rest (next_path v align p fits (==→ne _ 0 rest))
      ])
    ])
