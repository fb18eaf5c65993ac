-- ===== src/Cache/Examples.antt =====
-- Runs of a cache with two slots.
use ray_vault.Base.{ℕ, ◌≡◌, ◌+◌, ◌⊎◌, refl, true, false, some, get_elem?, set, arith}
use ray_vault.Cache.{
  Entry, WaveBlock, WaveCache, empty_slot, init, put_from_block, get, evict_lru, pin, set_pin, find,
  find_from, insert, fresh, free_from, make_room, scan,
}
use ray_vault.Cache.Inv.{IsValid, init-IsValid}
use ray_vault.Cache.Evict.{Evictable, NoneOlder, AllPinned, evict_lru_lem}
use ray_vault.Cache.Keep.{put_from_block-IsValid}
use ray_vault.Cache.Use.{Carries, get-put_from_block}

abbrev block : ℕ → WaveBlock
block id = record {
  block_id = id;
  window_id = 3;
  sample_count = 16;
  start_m = 0;
  step_m = 1;
  samples = 4000 + id;
}

abbrev one_block : WaveCache
one_block = (put_from_block (init 2) (block 7)).1

abbrev two_blocks : WaveCache
two_blocks = (put_from_block one_block (block 8)).1

init_tick : (init 2).tick ≡ 0
unfolding init
init_tick = refl

one_tick : one_block.tick ≡ 1
unfolding init put_from_block find find_from make_room insert free_from fresh
one_tick = refl

two_tick : two_blocks.tick ≡ 2
unfolding init put_from_block find find_from make_room insert free_from fresh
two_tick = refl

one_block-IsValid : IsValid one_block
one_block-IsValid =
    put_from_block-IsValid (init 2) (block 7) (init-IsValid 2) (omega (arith, init_tick))

two_blocks-IsValid : IsValid two_blocks
two_blocks-IsValid =
    put_from_block-IsValid one_block (block 8) one_block-IsValid (omega (arith, one_tick))

put_from_block-IsValid_example : IsValid (put_from_block two_blocks (block 9)).1
put_from_block-IsValid_example =
    put_from_block-IsValid two_blocks (block 9) two_blocks-IsValid (omega (arith, two_tick))

evict_lru_lem_example :
    ((evict_lru two_blocks ≡ (false, two_blocks)) × AllPinned two_blocks.entries)
    ⊎ ((i : ℕ) × (e : Entry) × (get_elem? two_blocks.entries i ≡ some e)
        × (Evictable e × NoneOlder e.last_tick two_blocks.entries)
        × ((evict_lru two_blocks).0 ≡ true)
        × ((evict_lru two_blocks).1.entries ≡ set two_blocks.entries i empty_slot)
        × ((evict_lru two_blocks).1.count + 1 ≡ two_blocks.count)
        × ((evict_lru two_blocks).1.capacity ≡ two_blocks.capacity))
evict_lru_lem_example = evict_lru_lem two_blocks two_blocks-IsValid (omega (arith, two_tick))

-- The older of two blocks goes.
evict_first : find (put_from_block two_blocks (block 9)).1 9 ≡ some 0
unfolding init put_from_block find find_from make_room insert free_from fresh evict_lru scan
evict_first = refl

put_third : (put_from_block two_blocks (block 9)).0 ≡ true
unfolding init put_from_block find find_from make_room insert free_from fresh evict_lru scan
put_third = refl

get-put_from_block_example :
    (i : ℕ) × (e : Entry) × ((get (put_from_block two_blocks (block 9)).1 9).0 ≡ some i)
    × (get_elem? (get (put_from_block two_blocks (block 9)).1 9).1.entries i ≡ some e)
    × Carries (block 9) e
get-put_from_block_example =
    get-put_from_block two_blocks (block 9) two_blocks-IsValid (omega (arith, two_tick)) put_third

-- Both slots pinned: the third block is refused.
put_refused : (put_from_block (pin (pin two_blocks 7).1 8).1 (block 9)).0 ≡ false
unfolding init put_from_block find find_from make_room insert free_from fresh evict_lru scan pin
    set_pin
put_refused = refl
