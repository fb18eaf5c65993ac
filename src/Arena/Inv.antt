-- ===== src/Arena/Inv.antt =====
-- The invariant of the arena, and what one allocation does.
use ray_vault.Base.{ℕ, ◌+◌, ◌^◌, ◌≤◌, ◌<◌, ◌≡◌, ◌≢◌, inl, inr, none, some, true, arith, Bool-cases}
use ray_vault.Base.{leb, ◌↔◌, ◌⊎◌, Option-cases}
use ray_vault.Arena.{Arena, Heap, init, reset, rewind, align_up, grow, alloc_at}
use ray_vault.Arena.{alloc, alignment}
use ray_vault.Arena.Align.{IsAligned, align_up_lem}
use ray_vault.Arena.Grow.{grown_size-some}

-- `max_bytes` is bounded so that rounding up does not wrap.
pub record IsValid (a : Arena) : Type 0 where
  pub live : a.base ≢ none
  pub some_room : 0 < a.size
  pub in_store : a.used ≤ a.size
  pub in_limit : a.size ≤ a.max_bytes
  pub limit : a.max_bytes ≤ 2 ^ 62
  pub peak_high : a.used ≤ a.peak
  pub peak_in : a.peak ≤ a.size
  pub epoch_pos : 0 < a.epoch
  pub epoch_word : a.epoch < 2 ^ 32

-- What `rv_arena_init` sets up is valid.
pub init-IsValid :
    (h : Heap) (initial max_bytes : ℕ) {a : Arena}
    → max_bytes ≤ 2 ^ 62
    → init h initial max_bytes ≡ (true, a)
    → IsValid a
unfolding init
init-IsValid h initial max_bytes m e = ground arith

pub reset-IsValid : (a : Arena) → IsValid a → IsValid (reset a)
unfolding reset
reset-IsValid a v = ground arith

pub rewind-IsValid : (a : Arena) (m : ℕ) → IsValid a → IsValid (rewind a m)
unfolding rewind
rewind-IsValid a m v = ground arith

-- How the arena changes where an allocation of `nbytes` at `off` succeeds.
pub record Allocated (a : Arena) (off nbytes : ℕ) (a' : Arena) : Type 0 where
  pub valid : IsValid a'
  pub above : a.used ≤ off
  pub ends : a'.used ≡ off + nbytes
  pub same_limit : a'.max_bytes ≡ a.max_bytes
  pub same_epoch : a'.epoch ≡ a.epoch
  pub kept : (a.size < off + nbytes) ⊎ (a'.base ≡ a.base)

grow-some :
    (h : Heap) (a : Arena) (base need : ℕ) {a' : Arena}
    → IsValid a
    → a.size < need
    → need ≤ a.max_bytes
    → grow h a base need ≡ some a'
    → IsValid a'
      × (need ≤ a'.size)
      × (a'.used ≡ a.used)
      × (a'.max_bytes ≡ a.max_bytes)
      × (a'.epoch ≡ a.epoch)
unfolding grow
grow-some h a base need v s m e =
    let (n, g, lo, hi) = grown_size-some a need (omega arith) (omega arith) (omega arith) m in
    ground (arith, g)

alloc_at_lem :
    (h : Heap) (a : Arena) (base off nbytes : ℕ) {p : ℕ} {a' : Arena}
    → IsValid a
    → a.used ≤ off
    → alloc_at h a base off nbytes ≡ (some p, a')
    → (p ≡ off) × Allocated a off nbytes a'
unfolding alloc_at
alloc_at_lem h a base off nbytes {p} {a'} v u e =
    elim (Option-cases (grow h a base (off + nbytes))) [
      | inl refused ↦ ground arith
      | inr (g, granted) ↦ ground (arith, grow-some h a base (off + nbytes) {a' = g})
    ]

alloc_inv :
    (h : Heap) (a : Arena) (nbytes align off : ℕ) (a' : Arena)
    → alloc h a nbytes align ≡ (some off, a')
    → (base : ℕ) × (alloc_at h a base (align_up a.used (alignment align)) nbytes ≡ (some off, a'))
      × (0 < nbytes)
unfolding alloc
alloc_inv h a nbytes align off a' e = elim (Option-cases a.base) [
  | inl gone ↦ ground arith
  | inr (base, live) ↦ (base, ground arith, ground arith)
]

-- A pointer that `rv_arena_alloc` returns from a valid arena, for an alignment below 2^63, is the
-- least multiple of the alignment (8 if 0 is asked) from `used` on, for some bytes; the arena stays
-- valid, its `used` is the end of the new region, its limit and epoch are kept, and the block does
-- not move where the region fits the present size.
pub alloc_lem :
    (h : Heap) (a : Arena) (nbytes align off : ℕ) (a' : Arena)
    → IsValid a
    → align < 2 ^ 63
    → alloc h a nbytes align ≡ (some off, a')
    → IsAligned (alignment align) a.used off × Allocated a off nbytes a' × (0 < nbytes)
alloc_lem h a nbytes align off a' v al e =
    let (base, at, pos) = alloc_inv h a nbytes align off a' e in
    let up =
      align_up_lem a.used (alignment align) (unfold alignment in ground arith)
        (unfold alignment in ground arith) in
    let (p, done) = alloc_at_lem h a base (align_up a.used (alignment align)) nbytes v up.2 at in
    (rw p up, rw p done, pos)

-- Where `rv_arena_alloc` returns NULL, for whatever reason, the arena is as before.
pub alloc_refused :
    (h : Heap) (a : Arena) (nbytes align : ℕ)
    → (alloc h a nbytes align).0 ≡ none
    → (alloc h a nbytes align).1 ≡ a
unfolding alloc alloc_at grow
alloc_refused h a nbytes align e = ground arith

grow_granted :
    (h : Heap) (a : Arena) (base need : ℕ)
    → IsValid a
    → ((b n : ℕ) → h.realloc b n ≢ none)
    → need ≤ a.max_bytes
    → grow h a base need ≢ none
unfolding grow
grow_granted h a base need v g m =
    let (n, e, lo, hi) = grown_size-some a need (omega arith) (omega arith) (omega arith) m in
    ground (arith, e, g base n)

alloc_at_granted :
    (h : Heap) (a : Arena) (base off nbytes : ℕ)
    → IsValid a
    → ((b n : ℕ) → h.realloc b n ≢ none)
    → ((alloc_at h a base off nbytes).0 ≢ none) ↔ (off + nbytes ≤ a.max_bytes)
unfolding alloc_at
alloc_at_granted h a base off nbytes v g = (
  (λ made. elim (Bool-cases (leb (off + nbytes) a.max_bytes)) [
    | inl fits ↦ ground arith
    | inr over ↦ ground arith
  ]),
  (λ room. ground (arith, grow_granted h a base (off + nbytes) v g room)),
)

-- Where `realloc` never fails, `rv_arena_alloc` grants some bytes of a valid arena exactly when the
-- aligned region ends within `max_bytes`.
pub alloc_granted :
    (h : Heap) (a : Arena) (nbytes align : ℕ)
    → IsValid a
    → 0 < nbytes
    → ((b n : ℕ) → h.realloc b n ≢ none)
    → ((alloc h a nbytes align).0 ≢ none)
      ↔ (align_up a.used (alignment align) + nbytes ≤ a.max_bytes)
unfolding alloc
alloc_granted h a nbytes align v pos g = elim (Option-cases a.base) [
  | inl gone ↦ absurd (v.live gone)
  | inr (base, live) ↦
      ground (arith, alloc_at_granted h a base (align_up a.used (alignment align)) nbytes v g)
]
