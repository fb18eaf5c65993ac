-- ===== src/Arena/Grow.antt =====
-- `rv_arena_grow`: how far the backing store grows, and when it gives up.
use ray_vault.Base.{ℕ, zero, suc, ◌*◌, ◌^◌, ◌≤◌, ◌<◌, ◌≡◌, none, some, arith}
use ray_vault.Base.{ap, u64}
use native.Mathlib.Nat.{pow-suc}
use ray_vault.Arena.{Arena, double_until, grown_size}

-- The loop stops at a capacity between the need and the maximum, if it is given enough rounds.
pub double_until_bounds :
    (fuel ncap need max_bytes : ℕ)
    → 0 < ncap
    → ncap ≤ max_bytes
    → max_bytes < 2 ^ 64
    → need ≤ max_bytes
    → need ≤ ncap * 2 ^ fuel
    → (need ≤ double_until fuel ncap need max_bytes)
      × (double_until fuel ncap need max_bytes ≤ max_bytes)
unfolding double_until
double_until_bounds zero ncap need max_bytes p c m n e = omega arith
double_until_bounds (suc fuel) ncap need max_bytes p c m n e =
    let s : ncap * 2 ^ suc fuel ≡ ncap * 2 * 2 ^ fuel =
      omega (arith, ap (λ (t : ℕ). ncap * t) (pow-suc 2 fuel)) in
    ground (arith, double_until_bounds fuel (u64 (ncap * 2)) need max_bytes)

-- For every need within `max_bytes`, the loop of `rv_arena_grow` ends in its 64 rounds with a
-- capacity that holds the need and stays within `max_bytes`, where the size is positive and within
-- `max_bytes`, which is below 2^64.
pub grown_size-some :
    (a : Arena) (need : ℕ)
    → 0 < a.size
    → a.size ≤ a.max_bytes
    → a.max_bytes < 2 ^ 64
    → need ≤ a.max_bytes
    → (n : ℕ) × (grown_size a need ≡ some n) × (need ≤ n) × (n ≤ a.max_bytes)
unfolding grown_size
grown_size-some a need p c m n = (
  double_until 64 a.size need a.max_bytes,
  ground (arith, bounds),
  ground (arith, bounds),
  ground (arith, bounds),
)
  where
    bounds :
        (need ≤ double_until 64 a.size need a.max_bytes)
        × (double_until 64 a.size need a.max_bytes ≤ a.max_bytes)
    bounds = double_until_bounds 64 a.size need a.max_bytes p c m n (omega arith)

pub grown_size-none : (a : Arena) (need : ℕ) → a.max_bytes < need → grown_size a need ≡ none
unfolding grown_size
grown_size-none a need h = ground arith
