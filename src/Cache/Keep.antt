-- ===== src/Cache/Keep.antt =====
-- `rv_cache_put_from_block` and `rv_cache_get` keep the invariant of the cache.
use ray_vault.Base.{
  ℕ, ◌+◌, ◌^◌, ◌≤◌, ◌<◌, ◌≡◌, inl, inr, refl, Bool, ◌==◌, arith, Bool-cases, Option-cases, leb, u64,
}
use ray_vault.Cache.{insert, free_from, WaveCache, WaveBlock, empty_slot, find, evict_lru}
use ray_vault.Cache.{refresh, make_room, put_from_block, get}
use ray_vault.Cache.Slots.{holding, holds_weight, total-set}
use ray_vault.Cache.Inv.{IsValid, find-some, find-none, same_block-IsValid, insert-IsValid}
use ray_vault.Cache.Evict.{Evicted, nobody, slot, evict_lru-Evicted, Evicted-IsValid}

-- Eviction brings no block in.
Evicted-absent :
    (c : WaveCache) (r : Bool × WaveCache) (id : ℕ)
    → Evicted c r
    → holding id c.entries ≡ 0
    → holding id r.1.entries ≡ 0
Evicted-absent c r id (nobody same n) absent = rw same absent
Evicted-absent c r id (slot i e done at ev n entries count capacity tick generation) absent =
    rw entries (omega (arith, total-set (holds_weight id) c.entries i e empty_slot at))

Evicted-tick :
    (c : WaveCache) (r : Bool × WaveCache)
    → Evicted c r
    → (r.1.tick ≡ c.tick) × (r.1.generation ≡ c.generation)
Evicted-tick c r (nobody same n) = rw same (refl, refl)
Evicted-tick c r (slot i e done at ev n entries count capacity tick generation) = (tick, generation)

-- The cache that `rv_cache_put_from_block` inserts into.
pub make_room_lem :
    (c : WaveCache) (id : ℕ)
    → IsValid c
    → holding id c.entries ≡ 0
    → IsValid (make_room c).1
      × (holding id (make_room c).1.entries ≡ 0)
      × ((make_room c).1.tick ≡ c.tick)
      × ((make_room c).1.generation ≡ c.generation)
unfolding make_room
make_room_lem c id v absent = elim (Bool-cases (leb c.capacity c.count)) [
  | inr room ↦ rw room (v, absent, refl, refl)
  | inl full ↦
      let ev = evict_lru-Evicted c in
      rw full (
        Evicted-IsValid c (evict_lru c) v ev,
        Evicted-absent c (evict_lru c) id ev absent,
        (Evicted-tick c (evict_lru c) ev).0,
        (Evicted-tick c (evict_lru c) ev).1,
      )
]

-- `rv_cache_put_from_block` keeps a cache valid, whether the block is refreshed, inserted, inserted
-- in place of an evicted one or refused, while the clock does not wrap.
pub put_from_block-IsValid :
    (c : WaveCache) (b : WaveBlock)
    → IsValid c
    → c.tick + 1 < 2 ^ 64
    → IsValid (put_from_block c b).1
unfolding refresh put_from_block
put_from_block-IsValid c b v t = elim (Option-cases (find c b.block_id)) [
  | inl absent ↦
      let (v', a', t', g') = make_room_lem c b.block_id v (find-none c b.block_id absent) in
      elim (Bool-cases (make_room c).0) [
        | inl room ↦
            rw (absent, put_from_block, room) (insert-IsValid (make_room c).1 b v' (omega arith) a')
        | inr none_left ↦ rw (absent, put_from_block, none_left) v'
      ]
  | inr (i, present) ↦
      let (e, at, holds) = find-some c b.block_id i present in
      rw (present, put_from_block, at)
        (same_block-IsValid c _ i e (refresh c b e) v at refl refl refl (omega arith) (omega arith)
          refl refl)
]

pub put_from_block-tick :
    (c : WaveCache) (b : WaveBlock)
    → IsValid c
    → c.tick + 1 < 2 ^ 64
    → (put_from_block c b).1.tick ≤ c.tick + 1
unfolding put_from_block insert
put_from_block-tick c b v t = elim (Option-cases (find c b.block_id)) [
  | inl absent ↦
      let (v', a', t', g') = make_room_lem c b.block_id v (find-none c b.block_id absent) in
      elim (Bool-cases (make_room c).0) [
        | inl room ↦ elim (Option-cases (free_from (make_room c).1.entries 0)) [
          | inl full ↦ rw (put_from_block, absent, room, insert, full) (omega (arith, t'))
          | inr (i, free) ↦ rw (put_from_block, absent, room, insert, free) (omega (arith, t', t))
        ]
        | inr none_left ↦ rw (put_from_block, absent, none_left) (omega (arith, t'))
      ]
  | inr (i, present) ↦
      let (e, at, holds) = find-some c b.block_id i present in
      rw (put_from_block, present, at) (omega (arith, t))
]

-- `rv_cache_get` keeps a cache valid on a hit, a stale entry and a miss, while the clock does not wrap.
pub get-IsValid : (c : WaveCache) (id : ℕ) → IsValid c → c.tick + 1 < 2 ^ 64 → IsValid (get c id).1
unfolding get
get-IsValid c id v t = elim (Option-cases (find c id)) [
  | inl miss ↦
      rw (miss, get)
        (record {
          slots = v.slots;
          two = v.two;
          counted = v.counted;
          unique = v.unique;
          recent = v.recent;
        })
  | inr (i, hit) ↦
      let (e, at, holds) = find-some c id i hit in
      elim (Bool-cases (e.generation == c.generation)) [
        | inl current ↦
            rw (hit, get, at, current)
              (same_block-IsValid c _ i e (record e { last_tick = u64 (c.tick + 1) }) v at refl refl
                refl (omega arith) (omega arith) refl refl)
        | inr stale ↦
            rw (hit, get, at, stale)
              (record {
                slots = v.slots;
                two = v.two;
                counted = v.counted;
                unique = v.unique;
                recent = v.recent;
              })
      ]
]
