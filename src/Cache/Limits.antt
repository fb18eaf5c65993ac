-- ===== src/Cache/Limits.antt =====
-- When the cache has no answer: lookups after an invalidation, and blocks that it cannot take in.
use ray_vault.Base.{
  ℕ, zero, suc, ◌+◌, ◌-◌, ◌^◌, ◌≤◌, ◌<◌, ◌≡◌, ◌⊎◌, ◌↔◌, inl, inr, refl, true, false, none, some,
  List, [], length, ◌∷◌, get_elem?, arith, Bool-cases, Option-cases, leb, u64,
}
use ray_vault.Cache.{Entry, WaveCache, WaveBlock, find, free_from, invalidate}
use ray_vault.Cache.{insert, make_room, put_from_block, get}
use ray_vault.Cache.Slots.{
  holding, holds_weight, total-ge, total-replicate, Holds, free_from-none, used-le-length,
}
use ray_vault.Cache.Inv.{IsValid, find-some, find-none}
use ray_vault.Cache.Keep.{make_room_lem}
use ray_vault.Cache.Evict.{AllPinned, evict_lru_lem}

-- The first `rv_cache_get` after `rv_cache_invalidate` finds nothing, whatever the cache held; it
-- counts a miss and no hit.
pub get-invalidate :
    (c : WaveCache) (id : ℕ)
    → ((get (invalidate c) id).0 ≡ none)
      × ((get (invalidate c) id).1.hits ≡ c.hits)
      × ((get (invalidate c) id).1.misses ≡ u64 (c.misses + 1))
unfolding get invalidate
get-invalidate c id = elim (Option-cases (find (invalidate c) id)) [
  | inl miss ↦ (ground (arith, miss), ground (arith, miss), ground (arith, miss))
  | inr (i, hit) ↦
      let (e, at, holds) = find-some (invalidate c) id i hit in
      absurd (
        omega (
          arith,
          total-ge (holds_weight id) (invalidate c).entries i e at,
          total-replicate (holds_weight id) (length c.entries) refl,
          weight e holds,
        ))
]
  where
    weight : (x : Entry) → Holds id x → holds_weight id x ≡ 1
    weight x h = ground arith

AllPinned-get_elem? :
    (es : List Entry) (i : ℕ) (e : Entry)
    → AllPinned es
    → get_elem? es i ≡ some e
    → e.in_use ≡ true
    → e.pinned ≡ true
AllPinned-get_elem? [] i e p h live = cc
AllPinned-get_elem? (x ∷ es) zero e p h live =
    let q : x ≡ e = ground arith in rw (← q) (p.0 (rw q live))
AllPinned-get_elem? (x ∷ es) (suc i) e p h live = AllPinned-get_elem? es i e p.1 h live

-- An insertion finds a slot in a cache that is not full.
insert-room :
    (c : WaveCache) (b : WaveBlock) → IsValid c → c.count < c.capacity → (insert c b).0 ≡ true
unfolding insert
insert-room c b v room = elim (Option-cases (free_from c.entries 0)) [
  | inl full ↦ absurd (omega (arith, free_from-none c.entries 0 full, v.counted, v.slots))
  | inr (i, free) ↦ rw (free, insert)
]

-- Room can be made unless the cache is full of pinned slots.
make_room-cases :
    (c : WaveCache)
    → IsValid c
    → c.tick < 2 ^ 64 - 1
    → (((make_room c).0 ≡ false) × (c.capacity ≤ c.count) × AllPinned c.entries)
      ⊎ (((make_room c).0 ≡ true)
          × ((make_room c).1.count < (make_room c).1.capacity)
          × ((c.capacity ≤ c.count) → ¬ (AllPinned c.entries)))
unfolding make_room
make_room-cases c v t = elim (Bool-cases (leb c.capacity c.count)) [
  | inr room ↦ inr (rw room, rw room (ground arith), λ full. absurd (ground arith))
  | inl full ↦ elim (evict_lru_lem c v t) [
    | inl (same, pinned) ↦ inl (rw (full, same), ground arith, pinned)
    | inr (i, e, at, (ev, n), done, entries, count, capacity) ↦ inr (
      rw (full, done),
      rw full (omega (arith, used-le-length c.entries, v.slots, v.counted)),
      λ f pinned. cc (AllPinned-get_elem? c.entries i e pinned at ev.0, ev.1),
    )
  ]
]

-- `rv_cache_put_from_block` on a valid cache, whose clock has not reached the last tick of 64 bits,
-- fails exactly on a block that the cache does not hold, when the cache is full and all its slots in
-- use are pinned.
pub put_from_block-false :
    (c : WaveCache) (b : WaveBlock)
    → IsValid c
    → c.tick < 2 ^ 64 - 1
    → ((put_from_block c b).0 ≡ false)
      ↔ ((holding b.block_id c.entries ≡ 0) × (c.capacity ≤ c.count) × AllPinned c.entries)
unfolding put_from_block
put_from_block-false c b v t = elim (Option-cases (find c b.block_id)) [
  | inr (i, present) ↦
      let (e, at, holds) = find-some c b.block_id i present in
      (
        λ failed. ground arith,
        λ (absent, full, pinned).
            absurd
              (omega (arith, total-ge (holds_weight b.block_id) c.entries i e at, weight e holds)),
      )
  | inl missing ↦
      let absent = find-none c b.block_id missing in
      let (v', a', t', g') = make_room_lem c b.block_id v absent in
      elim (make_room-cases c v t) [
        | inl (refused, full, pinned) ↦
            (λ failed. (absent, full, pinned), λ h. rw (missing, put_from_block, refused))
        | inr (made, below, loose) ↦
            let taken : (put_from_block c b).0 ≡ true =
              rw (missing, put_from_block, made) (insert-room (make_room c).1 b v' below) in
            (λ failed. cc (taken, failed), λ (h, full, pinned). absurd (loose full pinned))
      ]
]
  where
    weight : (x : Entry) → Holds b.block_id x → holds_weight b.block_id x ≡ 1
    weight x h = ground arith
