-- ===== src/Cache.antt =====
-- src/internal/rv_cache.c: the cache of wave blocks, with eviction of the least recently used.
-- An array slot is a list element; `false` is the status -1 and pointers are not NULL. A pointer to
-- an entry is its index. `samples` is the pointer that the entry borrows.
pub mod Inv
mod Examples
pub mod Slots
pub mod Evict
pub mod Keep
pub mod Use
pub mod Limits
use ray_vault.Base.{
  ℕ, zero, suc, ◌+◌, ◌-◌, ◌^◌, Bool, true, false, not, ◌&&◌, ◌==◌, ltb, leb, if◌then◌else◌, Option,
  none, some, List, [], ◌∷◌, length, get_elem?, set, replicate, u32, u64,
}

pub record Entry : Type 0 where
  pub block_id : ℕ
  pub window_id : ℕ
  pub samples : ℕ
  pub sample_count : ℕ
  pub start_m : ℕ
  pub step_m : ℕ
  pub generation : ℕ
  pub last_tick : ℕ
  pub in_use : Bool
  pub pinned : Bool

-- `rv_wave_block`, as far as the cache reads it.
pub record WaveBlock : Type 0 where
  pub block_id : ℕ
  pub window_id : ℕ
  pub sample_count : ℕ
  pub start_m : ℕ
  pub step_m : ℕ
  pub samples : ℕ

pub record WaveCache : Type 0 where
  pub entries : List Entry
  pub capacity : ℕ
  pub count : ℕ
  pub tick : ℕ
  pub generation : ℕ
  pub hits : ℕ
  pub misses : ℕ
  pub evictions : ℕ

-- A slot after `memset(.., 0, ..)`.
abbrev pub empty_slot : Entry
empty_slot = record {
  block_id = 0;
  window_id = 0;
  samples = 0;
  sample_count = 0;
  start_m = 0;
  step_m = 0;
  generation = 0;
  last_tick = 0;
  in_use = false;
  pinned = false;
}

-- `rv_cache_init`, where `calloc` succeeds.
unfoldable pub init : ℕ → WaveCache
init capacity =
    let n = if ltb capacity 2 then 2 else capacity in
    record {
      entries = replicate n empty_slot;
      capacity = n;
      count = 0;
      tick = 0;
      generation = 1;
      hits = 0;
      misses = 0;
      evictions = 0;
    }

-- `free` and `memset` to 0.
pub destroy : WaveCache → WaveCache
destroy c = record {
  entries = [];
  capacity = 0;
  count = 0;
  tick = 0;
  generation = 0;
  hits = 0;
  misses = 0;
  evictions = 0;
}

-- A 32-bit generation skips 0.
unfoldable pub next_generation : ℕ → ℕ
next_generation g = let n = u32 (g + 1) in if n == 0 then 1 else n

unfoldable pub invalidate : WaveCache → WaveCache
invalidate c = record c {
  entries = replicate (length c.entries) empty_slot;
  count = 0;
  generation = next_generation c.generation;
}

-- `rv_cache_find`: the index of the first used slot with the block.
unfoldable pub find_from : List Entry → ℕ → ℕ → Option ℕ
find_from [] block_id i = none
find_from (e ∷ es) block_id i =
    if e.in_use && e.block_id == block_id then some i else find_from es block_id (i + 1)

unfoldable pub find : WaveCache → ℕ → Option ℕ
find c block_id = find_from c.entries block_id 0

-- The loop of `rv_cache_evict_lru` from slot i on, with the oldest tick so far and the victim.
pub scan : List Entry → ℕ → ℕ → Option ℕ → Option ℕ
scan [] i oldest victim = victim
scan (e ∷ es) i oldest victim =
    let better = e.in_use && not e.pinned && ltb e.last_tick oldest in
    scan es (i + 1) (if better then e.last_tick else oldest) (if better then some i else victim)

pub evict_lru : WaveCache → Bool × WaveCache
evict_lru c = elim (scan c.entries 0 (2 ^ 64 - 1) none) [
  | none ↦ (false, c)
  | some victim ↦ (
    true,
    record c {
      entries = set c.entries victim empty_slot;
      count = if c.count == 0 then 0 else c.count - 1;
      evictions = u64 (c.evictions + 1);
    },
  )
]

-- The first slot that is not in use.
unfoldable pub free_from : List Entry → ℕ → Option ℕ
free_from [] i = none
free_from (e ∷ es) i = if not e.in_use then some i else free_from es (i + 1)

-- The fields that `rv_cache_put_from_block` sets in an entry that has the block already.
pub refresh : WaveCache → WaveBlock → Entry → Entry
refresh c b e = record e {
  samples = b.samples;
  sample_count = b.sample_count;
  start_m = b.start_m;
  step_m = b.step_m;
  window_id = b.window_id;
  generation = c.generation;
  last_tick = u64 (c.tick + 1);
}

-- The entry that it sets up in a free slot.
unfoldable pub fresh : WaveCache → WaveBlock → Entry
fresh c b = record {
  block_id = b.block_id;
  window_id = b.window_id;
  samples = b.samples;
  sample_count = b.sample_count;
  start_m = b.start_m;
  step_m = b.step_m;
  generation = c.generation;
  last_tick = u64 (c.tick + 1);
  in_use = true;
  pinned = false;
}

-- The part of `rv_cache_put_from_block` after the eviction.
unfoldable pub insert : WaveCache → WaveBlock → Bool × WaveCache
insert c b = elim (free_from c.entries 0) [
  | none ↦ (false, c)
  | some i ↦ (
    true,
    record c {
      entries = set c.entries i (fresh c b);
      tick = u64 (c.tick + 1);
      count = c.count + 1;
    },
  )
]

unfoldable pub make_room : WaveCache → Bool × WaveCache
make_room c = if leb c.capacity c.count then evict_lru c else (true, c)

unfoldable pub put_from_block : WaveCache → WaveBlock → Bool × WaveCache
put_from_block c b = elim (find c b.block_id) [
  | some i ↦ elim (get_elem? c.entries i) [
    | none ↦ (false, c)
    | some e ↦
        (true, record c { entries = set c.entries i (refresh c b e); tick = u64 (c.tick + 1) })
  ]
  | none ↦ let (room, c') = make_room c in if room then insert c' b else (false, c')
]

-- `true` in front of the index of the entry; `none` is -1.
unfoldable pub get : WaveCache → ℕ → Option ℕ × WaveCache
get c block_id = elim (find c block_id) [
  | none ↦ (none, record c { misses = u64 (c.misses + 1) })
  | some i ↦ elim (get_elem? c.entries i) [
    | none ↦ (none, c)
    | some e ↦
        if e.generation == c.generation
        then (
          some i,
          record c {
            entries = set c.entries i (record e { last_tick = u64 (c.tick + 1) });
            tick = u64 (c.tick + 1);
            hits = u64 (c.hits + 1);
          },
        )
        else (none, record c { misses = u64 (c.misses + 1) })
  ]
]

unfoldable pub set_pin : Bool → WaveCache → ℕ → Bool × WaveCache
set_pin flag c block_id = elim (find c block_id) [
  | none ↦ (false, c)
  | some i ↦ elim (get_elem? c.entries i) [
    | none ↦ (false, c)
    | some e ↦ (true, record c { entries = set c.entries i (record e { pinned = flag }) })
  ]
]

unfoldable pub pin : WaveCache → ℕ → Bool × WaveCache
pin = set_pin true

unfoldable pub unpin : WaveCache → ℕ → Bool × WaveCache
unpin = set_pin false
