-- ===== src/Arena.antt =====
-- src/internal/rv_arena.c: the bump allocator.
-- The C heap is a parameter: `malloc n` and `realloc base n` answer with the address of a block of
-- n bytes, or `none` for NULL. `base` is that address, `none` after `rv_arena_destroy`. A pointer
-- that the arena hands out is `base + off`; the model returns `off`, and the record has `base`.
-- Pointer arguments are not NULL.
pub mod Align
mod Examples
pub mod Grow
pub mod Inv
pub mod Regions
pub mod Stays
use ray_vault.Base.{
  ℕ, zero, suc, ◌+◌, ◌-◌, ◌*◌, ◌/◌, ◌%◌, ◌^◌, Bool, true, false, Option, none, some,
}
use ray_vault.Base.{ltb, leb, ◌==◌, not, ◌||◌, ◌&&◌, if◌then◌else◌, bit_and, u32, u64, size_max}

pub record Arena : Type 0 where
  pub base : Option ℕ
  pub size : ℕ
  pub used : ℕ
  pub peak : ℕ
  pub max_bytes : ℕ
  pub epoch : ℕ
  pub grow_count : ℕ
  pub owns_base : Bool

-- What the arena asks of the C library.
pub record Heap : Type 0 where
  pub malloc : ℕ → Option ℕ
  pub realloc : ℕ → ℕ → Option ℕ

-- `rv_align_up`: `~mask` is `SIZE_MAX - mask`.
unfoldable pub align_up : ℕ → ℕ → ℕ
align_up v align =
    let align' = if ltb align 1 then 1 else align in
    let mask = align' - 1 in
    let r = v % align' in
    if not (bit_and align' mask == 0)
    then if r == 0 then v else u64 (v + (align' - r))
    else bit_and (u64 (v + mask)) (size_max - mask)

abbrev pub cleared : Arena
cleared = record {
  base = none;
  size = 0;
  used = 0;
  peak = 0;
  max_bytes = 0;
  epoch = 0;
  grow_count = 0;
  owns_base = false;
}

-- `false` is the status -1.
unfoldable pub init : Heap → ℕ → ℕ → Bool × Arena
init h initial max_bytes =
    let initial = if ltb initial 256 then 256 else initial in
    let max_bytes = if max_bytes == 0 then 64 * 1024 * 1024 else max_bytes in
    let initial = if ltb max_bytes initial then max_bytes else initial in
    elim (h.malloc initial) [
      | none ↦ (false, cleared)
      | some p ↦ (
        true,
        record {
          base = some p;
          size = initial;
          used = 0;
          peak = 0;
          max_bytes = max_bytes;
          epoch = 1;
          grow_count = 0;
          owns_base = true;
        },
      )
    ]

pub destroy : Arena → Arena
destroy a = cleared

-- `a->epoch++` on 32 bits; 0 is skipped.
pub reset : Arena → Arena
reset a = let e = u32 (a.epoch + 1) in record a { used = 0; epoch = if e == 0 then 1 else e }

-- The loop of `rv_arena_grow`, with fuel.
unfoldable pub double_until : ℕ → ℕ → ℕ → ℕ → ℕ
double_until zero ncap need max_bytes = ncap
double_until (suc fuel) ncap need max_bytes = elim (ltb ncap need) [
  | false ↦ ncap
  | true ↦ elim (ltb (max_bytes / 2) ncap) [
    | true ↦ max_bytes
    | false ↦ double_until fuel (u64 (ncap * 2)) need max_bytes
  ]
]

-- The capacity that `rv_arena_grow` asks `realloc` for; `none` where it gives up before.
-- A `size_t` doubles at most 64 times.
unfoldable pub grown_size : Arena → ℕ → Option ℕ
grown_size a need_total =
    let ncap = double_until 64 (if a.size == 0 then 256 else a.size) need_total a.max_bytes in
    let ncap = if ltb ncap need_total then need_total else ncap in
    if ltb a.max_bytes need_total then none else if ltb a.max_bytes ncap then none else some ncap

unfoldable pub grow : Heap → Arena → ℕ → ℕ → Option Arena
grow h a base need_total = elim (grown_size a need_total) [
  | none ↦ none
  | some ncap ↦ elim (h.realloc base ncap) [
    | none ↦ none
    | some nbase ↦
        some (record a { base = some nbase; size = ncap; grow_count = u32 (a.grow_count + 1) })
  ]
]

-- `p = a->base + off; a->used = total;` and the peak.
bump : Arena → ℕ → ℕ → Option ℕ × Arena
bump a off total =
    (some off, record a { used = total; peak = if ltb a.peak total then total else a.peak })

-- The body of `rv_arena_alloc` behind its first two tests.
pub alloc_at : Heap → Arena → ℕ → ℕ → ℕ → Option ℕ × Arena
unfolding bump
alloc_at h a base off nbytes =
    let total = u64 (off + nbytes) in
    if ltb a.max_bytes off || ltb (a.max_bytes - off) nbytes
    then (none, a)
    else if ltb a.size total
    then elim (grow h a base total) [ none ↦ (none, a) | some a' ↦ bump a' off total ]
    else bump a off total

-- `if (align == 0) align = sizeof(void *);`
unfoldable pub alignment : ℕ → ℕ
alignment align = if align == 0 then 8 else align

-- `none` is NULL.
unfoldable pub alloc : Heap → Arena → ℕ → ℕ → Option ℕ × Arena
unfolding alloc_at
alloc h a nbytes align = elim a.base [
  | none ↦ (none, a)
  | some base ↦
      if nbytes == 0
      then (none, a)
      else alloc_at h a base (align_up a.used (alignment align)) nbytes
]

-- `rv_arena_calloc`. The bytes behind the pointer are not part of the model.
unfoldable pub calloc : Heap → Arena → ℕ → ℕ → ℕ → Option ℕ × Arena
calloc h a count size align =
    if not (count == 0) && ltb (size_max / count) size
    then (none, a)
    else alloc h a (u64 (count * size)) align

-- `rv_arena_strdup` of n bytes: room for them and the terminator.
unfoldable pub strdup : Heap → Arena → ℕ → Option ℕ × Arena
strdup h a n = alloc h a (u64 (n + 1)) 1

pub avail : Arena → ℕ
avail a = if ltb a.size a.used then 0 else a.size - a.used

pub mark_get : Arena → ℕ
mark_get a = a.used

pub rewind : Arena → ℕ → Arena
rewind a m = if leb m a.used then record a { used = m } else a
