-- ===== src/Arena/Regions.antt =====
-- What a client of the arena may rely on over several calls: the regions are apart, a mark gives
-- them back, and a region stays where it is only while the arena does not grow.
use ray_vault.Base.{ℕ, ◌+◌, ◌^◌, ◌≤◌, ◌<◌, ◌≡◌, ◌≢◌, refl, List, [], ◌∷◌, Option, none, some, arith}
use ray_vault.Base.{subst}
use ray_vault.Arena.{Arena, Heap, alloc, alloc_at, grow, align_up, alignment, mark_get, rewind}
use ray_vault.Arena.Inv.{IsValid, alloc_lem, alloc_refused}
use ray_vault.Arena.Grow.{grown_size-some}

-- A call of `rv_arena_alloc`, with the heap that it meets.
pub record Request : Type 0 where
  pub heap : Heap
  pub nbytes : ℕ
  pub align : ℕ

pub record Region : Type 0 where
  pub off : ℕ
  pub len : ℕ

-- The regions that a sequence of calls is granted.
unfoldable pub alloc_all : Arena → List Request → List Region × Arena
alloc_all a [] = ([], a)
alloc_all a (r ∷ rs) =
    let (p, a') = alloc r.heap a r.nbytes r.align in
    let (regions, last) = alloc_all a' rs in
    (elim p [ none ↦ regions | some off ↦ record { off = off; len = r.nbytes } ∷ regions ], last)

-- Each region begins where the one before it has ended, from `lo` on, and the last ends by `hi`.
abbrev pub Apart : ℕ → ℕ → List Region → Type 0
Apart lo hi [] = lo ≤ hi
Apart lo hi (r ∷ rs) = (lo ≤ r.off) × (0 < r.len) × Apart (r.off + r.len) hi rs

abbrev pub Aligns : List Request → Type 0
Aligns [] = Unit
Aligns (r ∷ rs) = (r.align < 2 ^ 63) × Aligns rs

Apart-weaken : (lo lo' hi : ℕ) (rs : List Region) → lo ≤ lo' → Apart lo' hi rs → Apart lo hi rs
Apart-weaken lo lo' hi [] h a = omega arith
Apart-weaken lo lo' hi (r ∷ rs) h a = (omega arith, a.1, a.2)

-- A call in front of a sequence: `p` and `a'` are what it answers.
alloc-Apart :
    (r : Request) (a : Arena) (regions : List Region) (p : Option ℕ) (a' : Arena) (hi : ℕ)
    → IsValid a
    → r.align < 2 ^ 63
    → alloc r.heap a r.nbytes r.align ≡ (p, a')
    → Apart a'.used hi regions
    → Apart a.used hi
        (elim p [ none ↦ regions | some off ↦ record { off = off; len = r.nbytes } ∷ regions ])
      × IsValid a'
alloc-Apart r a regions none a' hi v al e apart =
    let same : a' ≡ a = rw e at (alloc_refused r.heap a r.nbytes r.align (rw e)) in
    (subst (λ (b : Arena). Apart b.used hi regions) same apart, rw same v)
alloc-Apart r a regions (some off) a' hi v al e apart =
    let (up, done, pos) = alloc_lem r.heap a r.nbytes r.align off a' v al e in
    ((done.above, pos, rw done.ends at apart), done.valid)

-- The regions of a sequence of allocations from a valid arena, refused ones left out, are not empty,
-- do not overlap and lie between the `used` of the beginning and that of the end, within the store;
-- the arena stays valid. The alignments are below 2^63.
pub alloc_all-Apart :
    (rs : List Request) (a : Arena)
    → IsValid a
    → Aligns rs
    → Apart a.used (alloc_all a rs).1.used (alloc_all a rs).0
      × IsValid (alloc_all a rs).1
      × ((alloc_all a rs).1.used ≤ (alloc_all a rs).1.size)
unfolding alloc_all
alloc_all-Apart [] a v al = (omega arith, v, v.in_store)
alloc_all-Apart (r ∷ rs) a v al =
    let a' : Arena = (alloc r.heap a r.nbytes r.align).1 in
    let p : Option ℕ = (alloc r.heap a r.nbytes r.align).0 in
    let valid : IsValid a' = (alloc-Apart r a [] p a' a'.used v al.0 refl (omega arith)).1 in
    let (apart, end, inside) = alloc_all-Apart rs a' valid al.1 in
    ((alloc-Apart r a _ p a' _ v al.0 refl apart).0, end, inside)

-- In a valid arena, rewinding to a mark that was taken before a granted allocation (of an alignment
-- below 2^63) restores `used`, and the epoch is the same.
pub rewind-alloc :
    (h : Heap) (a : Arena) (nbytes align off : ℕ) (a' : Arena)
    → IsValid a
    → align < 2 ^ 63
    → alloc h a nbytes align ≡ (some off, a')
    → ((rewind a' (mark_get a)).used ≡ a.used) × ((rewind a' (mark_get a)).epoch ≡ a.epoch)
unfolding rewind mark_get
rewind-alloc h a nbytes align off a' v al e =
    let (up, done, pos) = alloc_lem h a nbytes align off a' v al e in ground arith

-- An allocation in a valid arena that does not fit the present store, but does fit `max_bytes`, is
-- granted and moves the block, in the same epoch, if `realloc` answers with another block.
pub alloc_moves :
    (h : Heap) (a : Arena) (nbytes align base : ℕ)
    → IsValid a
    → 0 < nbytes
    → a.base ≡ some base
    → a.size < align_up a.used (alignment align) + nbytes
    → align_up a.used (alignment align) + nbytes ≤ a.max_bytes
    → ((n : ℕ) → (b : ℕ) × (h.realloc base n ≡ some b) × (b ≢ base))
    → ((alloc h a nbytes align).0 ≢ none)
      × ((alloc h a nbytes align).1.base ≢ a.base)
      × ((alloc h a nbytes align).1.epoch ≡ a.epoch)
unfolding alloc alloc_at grow
alloc_moves h a nbytes align base v pos live big room moves =
    let need : ℕ = align_up a.used (alignment align) + nbytes in
    let (n, g, lo, hi) = grown_size-some a need v.some_room v.in_limit (omega arith) room in
    let (b, moved, other) = moves n in (ground (arith, g), ground (arith, g), ground (arith, g))
