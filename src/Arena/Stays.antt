-- ===== src/Arena/Stays.antt =====
-- An arena whose heap extends blocks in place keeps its block.
use ray_vault.Base.{ℕ, ◌+◌, ◌*◌, u64, ◌≡◌, ◌⊎◌, none, some, inl, inr, arith, Option-cases}
use ray_vault.Arena.{
  Arena, Heap, alloc, alloc_at, bump, grow, grown_size, calloc, strdup, align_up, alignment,
}

-- The heap never moves a block: `realloc` extends it in place or gives NULL.
abbrev pub Stays : Heap → Type 0
Stays h = (base n : ℕ) → (h.realloc base n ≡ none) ⊎ (h.realloc base n ≡ some base)

module _ (h : Heap) (stays : Stays h) (a : Arena) where
  grow-base : (base need : ℕ) {a' : Arena} → grow h a base need ≡ some a' → a'.base ≡ some base
  unfolding grow
  grow-base base need e = elim (Option-cases (grown_size a need)) [
    | inl refused ↦ ground (arith, refused)
    | inr (n, granted) ↦ ground (arith, granted, stays base n)
  ]

  alloc_at-base :
      (base off nbytes : ℕ) → a.base ≡ some base → (alloc_at h a base off nbytes).1.base ≡ a.base
  unfolding alloc_at bump
  alloc_at-base base off nbytes live = elim (Option-cases (grow h a base (u64 (off + nbytes)))) [
    | inl refused ↦ ground (arith, refused)
    | inr (a', granted) ↦ ground (arith, granted, live, grow-base base (u64 (off + nbytes)) granted)
  ]

  pub alloc-base : (nbytes align : ℕ) → (alloc h a nbytes align).1.base ≡ a.base
  unfolding alloc
  alloc-base nbytes align = elim (Option-cases a.base) [
    | inl gone ↦ ground (arith, gone)
    | inr (base, live) ↦
        ground (arith, live, alloc_at-base base (align_up a.used (alignment align)) nbytes live)
  ]

  pub calloc-base : (count size align : ℕ) → (calloc h a count size align).1.base ≡ a.base
  unfolding calloc
  calloc-base count size align = ground (arith, alloc-base (u64 (count * size)) align)

  pub strdup-base : (n : ℕ) → (strdup h a n).1.base ≡ a.base
  unfolding strdup
  strdup-base n = alloc-base (u64 (n + 1)) 1
