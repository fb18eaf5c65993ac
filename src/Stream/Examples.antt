-- ===== src/Stream/Examples.antt =====
-- A stream over a cache with two slots.
use ray_vault.Base.{ℕ, ◌≡◌, refl, true, some, [], ◌∷◌, arith}
use ray_vault.Arena.{Arena, Heap}
use ray_vault.Records.{WindowRec}
use ray_vault.IdMap.{no_map}
use ray_vault.Cache.{
  find, find_from, make_room, free_from, fresh, WaveBlock, Entry, init, get, put_from_block, insert,
}
use ray_vault.Cache.Slots.{Holds}
use ray_vault.Cache.Inv.{init-IsValid}
use ray_vault.Xref.{Index}
use ray_vault.Stream.{Stream, no_pin, get_or_put, fill_slice, slice_of, opened_stream}
use ray_vault.Stream.Pinned.{InSlot, fill_slice-pinned}

abbrev block : WaveBlock
block = record {
  block_id = 7;
  window_id = 3;
  sample_count = 16;
  start_m = 0;
  step_m = 1;
  samples = 4007;
}

init_tick : (init 2).tick ≡ 0
unfolding init
init_tick = refl

taken_in : (get_or_put (init 2) block).0 ≡ some 0
unfolding get_or_put get put_from_block insert init find find_from make_room free_from fresh
taken_in = refl

fill_slice-pinned_example :
    (e : Entry) × Holds 7 e
    × InSlot (get_or_put (init 2) block).1 0 e
    × InSlot (fill_slice (init 2) no_pin block).1 0 (record e { pinned = true })
    × ((fill_slice (init 2) no_pin block).0 ≡ some (slice_of e))
    × ((fill_slice (init 2) no_pin block).2 ≡ record { pinned_block = 7; has_pin = true })
fill_slice-pinned_example =
    fill_slice-pinned (init 2) no_pin block 0 (init-IsValid 2) (omega (arith, init_tick)) taken_in

abbrev window : ℕ → ℕ → WindowRec
window id route = record {
  window_id = id;
  route_id = route;
  inst_id = 1;
  calib_id = 0;
  wave_block_id = 7;
  pulse_ns = 0;
  range_km = 0;
  resolution_m = 0;
  acquired_unix = 0;
  flags = 0;
}

abbrev index : Index
index = record {
  windows = window 1 5 ∷ window 2 6 ∷ window 3 5 ∷ [];
  waves = [];
  route_by_id = no_map;
  window_by_id = no_map;
  wave_by_id = no_map;
  markers = [];
  ready = true;
}

abbrev heap : Heap
heap = record { malloc = λ n. some 1000; realloc = λ base n. some 2000 }

abbrev arena : ℕ → Arena
arena used = record {
  base = some 1000;
  size = 4096;
  used = used;
  peak = used;
  max_bytes = 65536;
  epoch = 1;
  grow_count = 0;
  owns_base = true;
}

abbrev stream : Stream
stream = opened_stream (0 ∷ 2 ∷ []) (init 2)

one_generation : (init 2).generation ≡ 1
unfolding init
one_generation = refl
