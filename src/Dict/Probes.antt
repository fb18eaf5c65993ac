-- ===== src/Dict/Probes.antt =====
-- The probing of the buckets: slots in a circle, and the free slot that an insertion takes.
use ray_vault.Base.{
  ℕ, zero, suc, ◌+◌, ◌-◌, ◌%◌, ◌^◌, ◌≤◌, ◌<◌, ◌≡◌, ◌≢◌, inl, inr, refl, ◌∙◌, ap, sym, subst, ◌==◌,
  ltb, if◌then◌else◌, Bool-cases, ==→ne, ==→eq, ltb→lt, ltb→le, List, [], ◌∷◌, length, set,
  get_elem?-set_self, get_elem?-set_ne, bit_and, u32, arith,
}
use ray_vault.Base.Bits.{bit_and_mask}
use ray_vault.Section.Blobs.{cell, free_slot}
use native.Mathlib.Nat.{mod-lt, mod-eq_of_lt, mod_self, one-le-pow}

module _ (bucket : List ℕ) where
  pub cell-set_self : (i v : ℕ) → i < length bucket → cell (set bucket i v) i ≡ v
  unfolding cell
  cell-set_self i v h = rw (cell, get_elem?-set_self bucket i v h) refl

  pub cell-set_ne : (i j v : ℕ) → i ≢ j → cell (set bucket i v) j ≡ cell bucket j
  unfolding cell
  cell-set_ne i j v h = rw (cell, get_elem?-set_ne bucket i j v h) refl

-- The number of cells in use.
abbrev pub occupied : List ℕ → ℕ
occupied [] = 0
occupied (x ∷ xs) = (if x == 0 then 0 else 1) + occupied xs

pub occupied-set : (bucket : List ℕ) (i v : ℕ) → occupied (set bucket i v) ≤ occupied bucket + 1
occupied-set [] i v = omega arith
occupied-set (x ∷ xs) zero v = ground arith
occupied-set (x ∷ xs) (suc i) v = ground (arith, occupied-set xs i v)

occupied-full :
    (bucket : List ℕ)
    → ((x : ℕ) → x < length bucket → 0 < cell bucket x)
    → occupied bucket ≡ length bucket
unfolding cell
occupied-full [] used = refl
occupied-full (x ∷ xs) used =
    ground (arith, used 0 (omega arith), occupied-full xs (λ i h. used (suc i) (omega arith)))

-- The slot behind `x < 2 m` in a circle of m.
abbrev pub wrap : ℕ → ℕ → ℕ
wrap m x = if ltb x m then x else x - m

pub wrap-lt : (m home d : ℕ) → home < m → d ≤ m → wrap m (home + d) < m
wrap-lt m home d h l = ground arith

pub wrap-suc :
    (m home d : ℕ) → home < m → d < m → wrap m (wrap m (home + d) + 1) ≡ wrap m (home + suc d)
wrap-suc m home d h l = ground arith

wrap-onto : (m home x : ℕ) → home < m → x < m → (c : ℕ) × (c < m) × (wrap m (home + c) ≡ x)
wrap-onto m home x h l = elim (Bool-cases (ltb x home)) [
  | inl before ↦ (x + m - home, ground arith, ground arith)
  | inr behind ↦ (x - home, ground arith, ground arith)
]

module _ (m k : ℕ) (power : m ≡ 2 ^ k) (small : m < 2 ^ 32) where
  masked : (x : ℕ) → bit_and x (m - 1) ≡ x % m
  masked x = rw power (bit_and_mask k x)

  pub next_slot : (slot : ℕ) → slot < m → bit_and (u32 (slot + 1)) (m - 1) ≡ wrap m (slot + 1)
  next_slot slot h =
      let low : u32 (slot + 1) ≡ slot + 1 = omega (arith, small, h) in
      elim (Bool-cases (ltb (slot + 1) m)) [
        | inl inside ↦
            ground
              (arith, inside, low, masked (slot + 1), mod-eq_of_lt (ltb→lt (slot + 1) m inside))
        | inr behind ↦
            let last : slot + 1 ≡ m = omega (arith, h, ltb→le (slot + 1) m behind) in
            ground (arith, behind, last, low, masked (slot + 1), mod_self m)
      ]

  pub home_slot : (h : ℕ) → bit_and h (m - 1) < m
  home_slot h = rw (masked h) (mod-lt h (rw power (one-le-pow k 2 (omega arith))))

  -- What `free_slot` finds: the slots before it are in use, and it is free, or there is no free slot.
  module _ (bucket : List ℕ) (home : ℕ) (near : home < m) where
    abbrev pub Used : ℕ → Type 0
    Used d = (c : ℕ) → c < d → 0 < cell bucket (wrap m (home + c))

    abbrev pub Stop : ℕ → Type 0
    Stop slot =
        (d : ℕ) × (d ≤ m) × (slot ≡ wrap m (home + d)) × Used d × (d < m → cell bucket slot ≡ 0)

    Used-suc : (d : ℕ) → Used d → cell bucket (wrap m (home + d)) ≢ 0 → Used (suc d)
    Used-suc d used taken c l = elim (Bool-cases (ltb c d)) [
      | inl before ↦ used c (ltb→lt c d before)
      | inr here ↦
          let last : d ≡ c = omega (arith, l, ltb→le c d here) in
          subst (λ x. 0 < cell bucket (wrap m (home + x))) last (omega (arith, taken))
    ]

    free_slot-Stop :
        (left d : ℕ)
        → d + left ≡ m
        → Used d
        → Stop (free_slot left bucket (m - 1) (wrap m (home + d)))
    unfolding free_slot
    free_slot-Stop zero d sum used = (d, omega arith, refl, used, λ l. absurd (omega (arith, sum)))
    free_slot-Stop (suc left) d sum used =
        let slot = wrap m (home + d) in
        elim (Bool-cases (cell bucket slot == 0)) [
          | inl free ↦
              rw (free_slot, free)
                (d, omega arith, refl, used, λ l. ==→eq (cell bucket slot) 0 free)
          | inr taken ↦
              let on : bit_and (u32 (slot + 1)) (m - 1) ≡ wrap m (home + suc d) =
                next_slot slot (wrap-lt m home d near (omega arith))
                ∙ wrap-suc m home d near (omega arith) in
              rw (free_slot, taken, on)
                (free_slot-Stop left (suc d) (omega arith)
                  (Used-suc d used (==→ne (cell bucket slot) 0 taken)))
        ]

    -- Where a cell is free, an insertion finds one.
    pub free_slot-free :
        length bucket ≡ m
        → occupied bucket < m
        → (d : ℕ) × (d < m)
          × (free_slot m bucket (m - 1) home ≡ wrap m (home + d))
          × Used d
          × (cell bucket (wrap m (home + d)) ≡ 0)
    free_slot-free size room =
        let start : wrap m (home + 0) ≡ home = ground arith in
        let (d, l, at, used, free) =
          subst (λ s. Stop (free_slot m bucket (m - 1) s)) start
            (free_slot-Stop m 0 (omega arith) (λ c none. absurd (omega arith))) in
        elim (Bool-cases (ltb d m)) [
          | inl inside ↦
              let l = ltb→lt d m inside in (d, l, at, used, ap (cell bucket) (sym at) ∙ free l)
          | inr all ↦ absurd (
              omega (
                arith,
                size,
                room,
                occupied-full bucket (everywhere d used (omega (arith, l, ltb→le d m all))),
              ))
        ]
      where
        everywhere : (d : ℕ) → Used d → d ≡ m → (x : ℕ) → x < length bucket → 0 < cell bucket x
        everywhere d used all x inside =
            let (c, l, at) = wrap-onto m home x near (omega (arith, size)) in
            subst (λ s. 0 < cell bucket s) at (used c (omega (arith, all)))
