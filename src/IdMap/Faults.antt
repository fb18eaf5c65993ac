-- ===== src/IdMap/Faults.antt =====
-- Where `rv_idmap_put` leaves the memory that it owns.
use ray_vault.Base.{ℕ, ◌+◌, ◌-◌, ◌^◌, ◌≤◌, ◌<◌, ◌≡◌, false, some, length, arith, le→ltb}
use ray_vault.Arena.{Arena, Heap, calloc}
use ray_vault.Decoding.{ok, fault, same_block}
use ray_vault.IdMap.{IdMap, fit, regrow, make_fit, store, put}

store_past :
    (id pos_plus : ℕ) (m : IdMap) (a : Arena)
    → length m.cells ≤ id
    → store id pos_plus m a ≡ (fault, a)
unfolding store
store_past id pos_plus m a h = ground arith

make_fit_none : (h : Heap) (m : IdMap) (a : Arena) → make_fit h 0 m a ≡ (ok m, a)
unfolding make_fit
make_fit_none h m a = rw (le→ltb (length m.cells) 0 (omega arith))

-- `rv_idmap_put` of the id 0xffffffff into any map of less than 2^32 cells writes past the map:
-- `id + 1` wraps to 0, so the map does not grow.
pub put_max_id :
    (h : Heap) (pos_plus : ℕ) (m : IdMap) (a : Arena)
    → length m.cells < 2 ^ 32
    → put h (2 ^ 32 - 1) pos_plus m a ≡ (fault, a)
unfolding put
put_max_id h pos_plus m a short =
    rw (make_fit_none h m a) (store_past (2 ^ 32 - 1) pos_plus m a (omega arith))

-- Where `rv_idmap_put` must grow a map that is not empty, and `rv_arena_calloc` grants the new map but
-- moves the arena from the block of the old one, the copy reads a block that is gone.
pub put_moved :
    (h : Heap) (id pos_plus ncap p : ℕ) (m : IdMap) (a a' : Arena)
    → 0 < length m.cells
    → length m.cells < id + 1
    → id + 1 < 2 ^ 32
    → fit 33 (length m.cells) (id + 1) ≡ some ncap
    → calloc h a ncap 4 4 ≡ (some p, a')
    → same_block m.block a'.base ≡ false
    → put h id pos_plus m a ≡ (fault, a')
unfolding put make_fit regrow
put_moved h id pos_plus ncap p m a a' some_cells large word fitted made moved = ground arith
